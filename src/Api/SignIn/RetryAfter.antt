-- ===== src/Api/SignIn/RetryAfter.antt =====
-- The times that a refused caller is told to wait.
use dorian_back_end.Prelude.{
  ◌+◌, ◌*◌, ◌≤◌, ◌<◌, ◌≡◌, true, arith, ℤ, pos, negsuc, pos_part, positive,
}
use dorian_back_end.Api.SignIn.{retry_seconds, retry_minutes}

-- The seconds of `Retry-After` for a wait are the whole wait, and less than a second more; the minutes of
-- the message are all of these seconds, and less than a minute more.
pub retry_after_bounds :
    (wait : ℤ)
    → positive wait ≡ true
    → (pos_part wait ≤ retry_seconds wait * 1000)
      × (retry_seconds wait * 1000 < pos_part wait + 1000)
      × (retry_seconds wait ≤ retry_minutes (retry_seconds wait) * 60)
      × (retry_minutes (retry_seconds wait) * 60 < retry_seconds wait + 60)
unfolding retry_seconds retry_minutes
retry_after_bounds (pos n) h = (ground arith, ground arith, ground arith, ground arith)
retry_after_bounds (negsuc n) h = absurd (ground arith)
