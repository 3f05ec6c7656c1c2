-- ===== src/Store/UserMfa/Asked.antt =====
-- Statements of the second-factor store, with their errors wrapped.
use dorian_back_end.Prelude.{◌≡◌, arith}
use dorian_back_end.Text.{Text}
use dorian_back_end.Action.{
  Result, ok, err, failed, no_schema, not_found, invalid, expired, too_long, unavailable,
}
use dorian_back_end.Store.Database.{Database, IsDocumented}
use dorian_back_end.Store.UserMfa.{MfaTables, wrap_mfa_err, ask}

module _ (d : Database MfaTables) (doc : IsDocumented d) (digest : Text → Text) where
  open d use {State, content, run}

  wrap_mfa_err_ok :
      {A : Type 0} (r : Result A × State) (a : A) (t : State)
      → wrap_mfa_err d digest r ≡ (ok a, t)
      → r ≡ (ok a, t)
  wrap_mfa_err_ok (ok b, s) a t h = h
  wrap_mfa_err_ok (err failed, s) a t h = absurd (ground arith)
  wrap_mfa_err_ok (err no_schema, s) a t h = absurd (ground arith)
  wrap_mfa_err_ok (err not_found, s) a t h = absurd (ground arith)
  wrap_mfa_err_ok (err invalid, s) a t h = absurd (ground arith)
  wrap_mfa_err_ok (err expired, s) a t h = absurd (ground arith)
  wrap_mfa_err_ok (err too_long, s) a t h = absurd (ground arith)
  wrap_mfa_err_ok (err unavailable, s) a t h = absurd (ground arith)

  -- A statement that is answered took effect.
  pub ask_ok :
      (A : Type 0) (f : MfaTables → Result A × MfaTables) (s : State) (a : A) (t : State)
      → ask d digest A f s ≡ (ok a, t)
      → f (content s) ≡ (ok a, content t)
  unfolding ask
  ask_ok A f s a t h = doc.run_ok A f s a t (wrap_mfa_err_ok (run A f s) a t h)
