-- ===== src/Api/AuthMiddleware/SignedOut.antt =====
-- The middleware over the stores of sessions, after a sign-out.
use dorian_back_end.Prelude.{
  ℕ, ◌≡◌, sym, ap, ◌∙◌, ◌≢◌, Bool, Option, none, some, ℤ, inl, inr, arith,
}
use dorian_back_end.Text.{Text}
use dorian_back_end.Action.{Action, Result, ok}
use dorian_back_end.Store.Database.{Database, IsDocumented}
use dorian_back_end.Store.AuthSessions.{
  SessionTables, AuthSessionLookup, lookup_active, touch, revoke,
}
use dorian_back_end.Store.AuthSessions.Revocation.{revoke_ends_session}
use dorian_back_end.Api.AuthMiddleware.{
  AuthPrincipal, jwt, Request, admit, TokenAccess, SessionAccess, Claims, with_auth,
}
use dorian_back_end.Api.AuthMiddleware.Admitted.{with_auth_sound}

module _ (d : Database SessionTables) where
  -- The store of sessions, at the time `now`, as the middleware takes it.
  unfoldable pub session_access : ℕ → SessionAccess d.State
  session_access now = record { lookup_active = lookup_active d now; touch = touch d now }

module _ (d : Database SessionTables) (doc : IsDocumented d) (tokens : Option (TokenAccess d.State))
    (settings : Option (Text → Action d.State Text)) (parse_user_token : Text → Result Claims) where
  -- In the state that an answered `Revoke` of a session leaves, no request that carries it passes for
  -- that user, whatever the time and whatever the signed token says.
  pub revoked_session_refused :
      (now later : ℕ) (user_id : ℤ) (id : Text) (r : Request) (s t u : d.State) (b : Bool)
      (p : AuthPrincipal)
      → revoke d now user_id id s ≡ (ok b, t)
      → with_auth tokens (some (session_access d later)) settings parse_user_token r t
        ≡ (admit (some p), u)
      → p.auth_kind ≡ jwt
      → p.session_id ≡ id
      → p.user_id ≢ user_id
  unfolding session_access
  revoked_session_refused now later user_id id r s t u b p h g kind same_id same_user =
      elim (with_auth_sound tokens (some (session_access d later)) settings parse_user_token r t u p
        g) [
          | inl (prefixed, by) ↦
              absurd (ground (arith, ap (λ (q : AuthPrincipal). q.auth_kind) by.is_of))
          | inr (signed, inr by) ↦ absurd (ground (arith, by.given))
          | inr (signed, inl by) ↦
              let asks : lookup_active d later ≡ by.store.lookup_active =
                ap
                  (λ (o : Option (SessionAccess d.State)). elim o [
                    | none ↦ lookup_active d later
                    | some a ↦ a.lookup_active
                  ])
                  by.given in
              let id_eq : by.claims.id ≡ id =
                ap (λ (q : AuthPrincipal). q.session_id) (sym by.is_of) ∙ same_id in
              let user_eq : by.lookup.user_id ≡ user_id =
                by.same_user ∙ (ap (λ (q : AuthPrincipal). q.user_id) (sym by.is_of) ∙ same_user) in
              let answered : lookup_active d later id t ≡ (ok by.lookup, by.after) = rw id_eq at (
                ap (λ (f : Text → Action d.State AuthSessionLookup). f by.claims.id t) asks
                ∙ by.found) in
              revoke_ends_session d doc now later user_id id s t by.after b by.lookup h answered
                user_eq
        ]
