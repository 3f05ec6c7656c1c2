-- ===== src/Store/AuthSessions/Lookup.antt =====
-- The sessions that `LookupActive` accepts.
use dorian_back_end.Prelude.{
  ℕ, ◌<◌, ◌≡◌, refl, sym, ap, ◌∙◌, true, none, some, [], ◌∷◌, arith, positive, Bool-cases, inl, inr,
}
use dorian_back_end.Text.{Text, ◌is◌, trim_space}
use dorian_back_end.Action.{Result, ok, >>=-eq-ok}
use dorian_back_end.Store.Database.{Database, IsDocumented, find, found, found_ok}
use dorian_back_end.Store.AuthSessions.{
  AuthSession, SessionUser, SessionTables, AuthSessionCreateInput, AuthSessionLookup, is_some,
  new_session, has_id, has_user_id, insert_session, create, joined, session_with_user, is_active,
  active_only, lookup_id, lookup_active,
}

module _ (d : Database SessionTables) (doc : IsDocumented d) where
  open d use {State, content, collates, run}

  session_with_user_sound :
      (id : Text) (c : SessionTables) {row : AuthSession} {user : SessionUser}
      → session_with_user d id c ≡ some (row, user)
      → (find (has_id d id) c.sessions ≡ some row)
        × (find (has_user_id d row.user_id) c.users ≡ some user)
  unfolding session_with_user
  session_with_user_sound id c h = ground arith

  -- What the test of an answer lets through.
  active_only_ok :
      (now : ℕ) (row : AuthSession) (user : SessionUser) (s t : State) (l : AuthSessionLookup)
      → active_only d now (row, user) s ≡ (ok l, t)
      → (l ≡ joined d row user) × (row.revoked_at ≡ none) × (now < row.expires_at) × (t ≡ s)
  active_only_ok now row user s t l h = elim (Bool-cases (is_active d now row)) [
    | inl e ↦ (ground arith, ground arith, ground arith, ground arith)
    | inr e ↦ absurd (ground arith)
  ]

  -- What a lookup by an id returns: the table's row and its user's row, active at `now`.
  abbrev pub IsFound : ℕ → Text → State → AuthSessionLookup → Type 0
  IsFound now id s l =
      (user : SessionUser) × (find (has_id d id) (content s).sessions ≡ some l.session)
      × (find (has_user_id d l.user_id) (content s).users ≡ some user)
      × (l ≡ joined d l.session user)
      × (l.session.revoked_at ≡ none)
      × (now < l.session.expires_at)

  lookup_id_ok :
      (now : ℕ) (id : Text) (s t : State) (l : AuthSessionLookup)
      → lookup_id d now id s ≡ (ok l, t)
      → IsFound now id s l × (content t ≡ content s)
  unfolding lookup_id
  lookup_id_ok now id s t l h =
      let (p, u, asked, rest) =
        >>=-eq-ok (run (AuthSession × SessionUser) (λ c. found (session_with_user d id c) c))
          (active_only d now) s h in
      let (hit, kept) = found_ok _ _ (doc.run_ok _ _ s p u asked) in
      let (row_found, user_found) = session_with_user_sound id (content s) hit in
      let (l_eq, unrevoked, later, same) = active_only_ok now (p.0) (p.1) u t l rest in
      rw l_eq ((p.1, row_found, user_found, refl, unrevoked, later), ap content same ∙ kept)

  -- A session that `LookupActive` returns stands in the table under the trimmed id, is not revoked, and
  -- expires later; name, role, status and second factor are those of the user's row. The lookup
  -- changes nothing.
  pub lookup_active_sound :
      (now : ℕ) (id : Text) (s t : State) (l : AuthSessionLookup)
      → lookup_active d now id s ≡ (ok l, t)
      → IsFound now (trim_space id) s l × (content t ≡ content s)
  unfolding lookup_active
  lookup_active_sound now id s t l h = elim (Bool-cases (trim_space id is [])) [
    | inl e ↦ absurd (ground arith)
    | inr e ↦ lookup_id_ok now (trim_space id) s t l (rw e at h)
  ]

  insert_session_ok :
      (row : AuthSession) (c c' : SessionTables)
      → insert_session d row c ≡ (ok tt, c')
      → (find (has_id d row.id) c.sessions ≡ none)
        × (c'.sessions ≡ row ∷ c.sessions)
        × (c'.users ≡ c.users)
        × (is_some (find (has_user_id d row.user_id) c.users) ≡ true)
  unfolding insert_session
  insert_session_ok row c c' h = (ground arith, ground arith, ground arith, ground arith)

  -- An answered `Create` puts one row in front of the table, under an id that no row had, for a user
  -- who exists; the row is the session that is returned.
  pub create_ok :
      (id : Text) (now : ℕ) (input : AuthSessionCreateInput) (s t : State) (row : AuthSession)
      → create d (ok id) now input s ≡ (ok row, t)
      → (row ≡ new_session id now input)
        × (find (has_id d id) (content s).sessions ≡ none)
        × ((content t).sessions ≡ row ∷ (content s).sessions)
        × ((content t).users ≡ (content s).users)
        × (is_some (find (has_user_id d input.user_id) (content s).users) ≡ true)
  unfolding create
  create_ok id now input s t row h = elim (Bool-cases (positive input.user_id)) [
    | inl e ↦
        let (a, u, asked, rest) =
          >>=-eq-ok (run (Unit {0}) (insert_session d (new_session id now input))) _ s
            (rw e at h) in
        let (fresh, inserted, users_kept, user_there) =
          insert_session_ok (new_session id now input) (content s) (content u)
            (doc.run_ok _ _ s a u asked) in
        let same : t ≡ u = ap (λ (p : Result AuthSession × State). p.1) (sym rest) in
        let made : row ≡ new_session id now input = ground arith in
        rw (made, same)
          (
            refl,
            unfold new_session in fresh,
            inserted,
            users_kept,
            unfold new_session in user_there,
          )
    | inr e ↦ absurd (ground arith)
  ]
