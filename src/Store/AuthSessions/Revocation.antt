-- ===== src/Store/AuthSessions/Revocation.antt =====
-- Sign-out, and the sessions in the table afterwards.
use dorian_back_end.Prelude.{ℕ, ◌≡◌, refl, sym, ap, ◌≢◌, Bool, true, false, arith, ltb, ℤ, eq_ℤ_iff}
use dorian_back_end.Text.{Text, trim_space}
use dorian_back_end.Action.{Result, ok, >>=-eq-ok}
use dorian_back_end.Store.Database.{
  Database, IsDocumented, update, count, find_sound, find-All, All-update_fails,
}
use dorian_back_end.Store.AuthSessions.{
  SessionTables, AuthSessionLookup, has_id, lookup_active, revocable, revoked, revoke_rows, revoke,
  revocable_but, revoke_all_rows, revoke_all_for_user,
}
use dorian_back_end.Store.AuthSessions.Lookup.{lookup_active_sound}

module _ (d : Database SessionTables) (doc : IsDocumented d) where
  open d use {State, content, collates, run}

  -- What an answered `Revoke` does: exactly the session with this id that belongs to the user and is
  -- not revoked yet is marked; every other session and every user stays; the answer says whether
  -- there was one.
  pub revoke_ok :
      (now : ℕ) (user_id : ℤ) (id : Text) (s t : State) (b : Bool)
      → revoke d now user_id id s ≡ (ok b, t)
      → ((content t).sessions
          ≡ update (revocable d user_id (trim_space id)) (revoked d now) (content s).sessions)
        × ((content t).users ≡ (content s).users)
        × (b ≡ ltb 0 (count (revocable d user_id (trim_space id)) (content s).sessions))
  unfolding revoke revoke_rows
  revoke_ok now user_id id s t b h =
      let (n, u, asked, rest) =
        >>=-eq-ok (run ℕ (revoke_rows d now user_id (trim_space id))) _ s h in
      let done = doc.run_ok _ _ s n u asked in
      let same : t ≡ u = ap (λ (p : Result Bool × State). p.1) (sym rest) in
      let told : b ≡ ltb 0 n = ground arith in
      let counted : n ≡ count (revocable d user_id (trim_space id)) (content s).sessions =
        ground arith in
      rw same (
        ap (λ (p : Result ℕ × SessionTables). p.1.sessions) (sym done),
        ap (λ (p : Result ℕ × SessionTables). p.1.users) (sym done),
        rw (told, counted) refl,
      )

  -- In the state that an answered `Revoke` leaves, no lookup of the id, at any time, gives a session of
  -- that user.
  pub revoke_ends_session :
      (now later : ℕ) (user_id : ℤ) (id : Text) (s t u : State) (b : Bool) (l : AuthSessionLookup)
      → revoke d now user_id id s ≡ (ok b, t)
      → lookup_active d later id t ≡ (ok l, u)
      → l.user_id ≢ user_id
  revoke_ends_session now later user_id id s t u b l h g same =
      let ((user, row_found, user_found, l_eq, unrevoked, _), _) =
        lookup_active_sound d doc later id t u l g in
      let rows = (revoke_ok now user_id id s t b h).0 in
      let spared =
        find-All (λ x. revocable d user_id (trim_space id) x ≡ false) (has_id d (trim_space id))
          (content t).sessions
          (rw rows (
            All-update_fails (revocable d user_id (trim_space id)) (revoked d now)
              (content s).sessions (λ x. ground arith)))
          row_found in
      let named = find_sound (has_id d (trim_space id)) (content t).sessions row_found in
      ground (
        arith,
        spared,
        named,
        unrevoked,
        same,
        ap (λ (x : AuthSessionLookup). x.user_id) l_eq,
        (eq_ℤ_iff l.session.user_id user_id).1,
      )

  revoke_all_rows_ok :
      (now : ℕ) (user_id : ℤ) (except : Text) (s t : State) (n : ℕ)
      → revoke_all_for_user d now user_id except s ≡ (ok n, t)
      → (content t).sessions
        ≡ update (revocable_but d user_id (trim_space except)) (revoked d now) (content s).sessions
  unfolding revoke_all_for_user revoke_all_rows
  revoke_all_rows_ok now user_id except s t n h =
      ap (λ (p : Result ℕ × SessionTables). p.1.sessions) (sym (doc.run_ok _ _ s n t h))

  -- In the state that an answered `RevokeAllForUser` leaves, a lookup that gives a session of the user
  -- gives the one that was excepted.
  pub revoke_all_ends_sessions :
      (now later : ℕ) (user_id : ℤ) (except id : Text) (s t u : State) (n : ℕ)
      (l : AuthSessionLookup)
      → revoke_all_for_user d now user_id except s ≡ (ok n, t)
      → lookup_active d later id t ≡ (ok l, u)
      → l.user_id ≡ user_id
      → collates l.session.id (trim_space except) ≡ true
  revoke_all_ends_sessions now later user_id except id s t u n l h g same =
      let ((user, row_found, user_found, l_eq, unrevoked, _), _) =
        lookup_active_sound d doc later id t u l g in
      let rows = revoke_all_rows_ok now user_id except s t n h in
      let spared =
        find-All (λ x. revocable_but d user_id (trim_space except) x ≡ false)
          (has_id d (trim_space id)) (content t).sessions
          (rw rows (
            All-update_fails (revocable_but d user_id (trim_space except)) (revoked d now)
              (content s).sessions (λ x. ground arith)))
          row_found in
      ground (
        arith,
        spared,
        unrevoked,
        same,
        ap (λ (x : AuthSessionLookup). x.user_id) l_eq,
        (eq_ℤ_iff l.session.user_id user_id).1,
      )
