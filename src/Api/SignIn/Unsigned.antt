-- ===== src/Api/SignIn/Unsigned.antt =====
-- `issueSession` over the store of sessions, where the token cannot be signed.
use dorian_back_end.Prelude.{ℕ, ◌≡◌, ap, Bool, Option, ℤ}
use dorian_back_end.Text.{Text}
use dorian_back_end.Action.{Action, Result, Error, ok, err}
use dorian_back_end.Auth.Jwt.{UserIdentity}
use dorian_back_end.Store.Database.{Database, IsDocumented}
use dorian_back_end.Store.AuthSessions.{
  AuthSession, SessionTables, AuthSessionLookup, create, revoke, lookup_active,
}
use dorian_back_end.Store.AuthSessions.Revocation.{revoke_ends_session}
use dorian_back_end.Api.SignIn.{User, MfaAccess}
use dorian_back_end.Api.SignIn.Session.{
  SignInConfig, Caller, identity, session_input, issue_session, session_ttl,
}
use dorian_back_end.Api.SignIn.Wired.{session_store}

module _ (d : Database SessionTables) (doc : IsDocumented d)
    (settings : Option (Text → Action d.State Text)) (mfa : Option (MfaAccess d.State))
    (sign : UserIdentity → Text → ℤ → Result Text) (cfg : SignInConfig) where
  -- Where the session was stored and its token could not be signed, nothing is issued; and if the store
  -- answers the revocation, no lookup of the session, at any time, gives a session of the user.
  pub unsigned_session_ended :
      (drawn : Result Text) (now later : ℕ) (caller : Caller) (user : User) (method : Text)
      (remember : Bool) (s u t w : d.State) (row : AuthSession) (e : Error) (b : Bool)
      (l : AuthSessionLookup)
      → create d drawn now (session_input cfg caller user method remember) s ≡ (ok row, u)
      → sign (identity user row) cfg.jwt_secret (session_ttl cfg remember) ≡ err e
      → revoke d now user.id row.id u ≡ (ok b, t)
      → (issue_session settings mfa
            (session_store d drawn now)
            sign
            cfg
            caller
            user
            method
            remember
            s
          ≡ (err e, t))
        × ¬ ((lookup_active d later row.id t ≡ (ok l, w)) × (l.user_id ≡ user.id))
  unfolding issue_session
  unsigned_session_ended drawn now later caller user method remember s u t w row e b l made unsigned
        ended =
      (
        rw (made, unsigned) (ap (λ (p : Result Bool × d.State). (err e, p.1)) ended),
        λ (found, same).
            revoke_ends_session d doc now later user.id row.id u t w b l ended found same,
      )
