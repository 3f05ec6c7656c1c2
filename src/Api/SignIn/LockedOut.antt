-- ===== src/Api/SignIn/LockedOut.antt =====
-- Sign-in over the throttle, for a locked account.
use dorian_back_end.Text.{Text}
use dorian_back_end.Store.Redis.{Redis}
