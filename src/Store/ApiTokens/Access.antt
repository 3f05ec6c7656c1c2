-- ===== src/Store/ApiTokens/Access.antt =====
-- The tokens that `LookupActiveBySecret` accepts.
use dorian_back_end.Prelude.{
  ◌⊎◌, ◌≤◌, ℕ, ◌≡◌, refl, sym, ap, ◌∙◌, ◌≢◌, true, false, Option, none, some, List, arith, ℤ,
  eq_ℤ_iff, subst, Bool-cases, inl, inr, ◌==◌,
}
use dorian_back_end.Text.{Text, codes, trim_space, equal_fold, has_prefix}
use dorian_back_end.Action.{Result, ok, >>=-eq-ok}
use dorian_back_end.Store.Database.{
  Database, IsDocumented, find, found, found_ok, find_sound, find-All, update, count,
  All-update_fails,
}
use dorian_back_end.Store.ApiTokens.{
  TokenRow, TokenUser, TokenTables, ApiTokenLookup, api_token_prefix, hash_api_token_secret,
  is_live, is_owner, has_expired, looked_up, usable, usable_only, token_with_user,
  lookup_active_by_secret, revocable_token, revoked_token, revoke_token_rows, revoke_token,
  scan_api_token,
}

module _ (digest : Text → Text) (d : Database TokenTables) (doc : IsDocumented d)
    (from_json : Text → Option (List Text)) where
  open d use {State, content, collates, run}

  token_with_user_sound :
      (hash : Text) (c : TokenTables) {row : TokenRow} {user : TokenUser}
      → token_with_user digest d from_json hash c ≡ some (row, user)
      → (find (is_live digest d from_json hash) c.tokens ≡ some row)
        × (find (is_owner digest d from_json row) c.users ≡ some user)
  unfolding token_with_user
  token_with_user_sound hash c h = ground arith

  usable_only_ok :
      (now : ℕ) (row : TokenRow) (user : TokenUser) (s t : State) (l : ApiTokenLookup)
      → usable_only digest d from_json now (row, user) s ≡ (ok l, t)
      → (l ≡ looked_up digest d from_json row user)
        × (usable digest d from_json now row user ≡ true)
        × (t ≡ s)
  usable_only_ok now row user s t l h = elim (Bool-cases (usable digest d from_json now row user)) [
    | inl e ↦ (ground arith, e, ground arith)
    | inr e ↦ absurd (ground arith)
  ]

  -- The row and the user behind an accepted secret.
  pub record IsAccepted (now : ℕ) (secret : Text) (c : TokenTables) (l : ApiTokenLookup)
      : Type 0 where
    pub row : TokenRow
    pub prefixed : has_prefix (trim_space secret) api_token_prefix ≡ true
    pub row_found :
        find
          (is_live digest d from_json (hash_api_token_secret digest (trim_space secret)))
          c.tokens
        ≡ some row
    pub user_found : find (is_owner digest d from_json row) c.users ≡ some l.user
    pub told : l ≡ looked_up digest d from_json row l.user
    pub unexpired : (row.expires_at ≡ none) ⊎ ((t : ℕ) × (row.expires_at ≡ some t) × (now ≤ t))
    pub active : equal_fold l.user.status (codes "Active") ≡ true

  still_valid :
      (now : ℕ) (o : Option ℕ)
      → has_expired digest d from_json now o ≡ false
      → (o ≡ none) ⊎ ((t : ℕ) × (o ≡ some t) × (now ≤ t))
  still_valid now none h = inl refl
  still_valid now (some t) h = inr (t, refl, ground arith)

  accepted :
      (now : ℕ) (secret : Text) (c : TokenTables) (row : TokenRow) (user : TokenUser)
      → has_prefix (trim_space secret) api_token_prefix ≡ true
      → find
          (is_live digest d from_json (hash_api_token_secret digest (trim_space secret)))
          c.tokens
        ≡ some row
      → find (is_owner digest d from_json row) c.users ≡ some user
      → usable digest d from_json now row user ≡ true
      → IsAccepted now secret c (looked_up digest d from_json row user)
  accepted now secret c row user e row_hit user_hit good = record {
    row = row;
    prefixed = e;
    row_found = row_hit;
    user_found = user_hit;
    told = refl;
    unexpired = still_valid now row.expires_at (ground arith);
    active = ground arith;
  }

  -- A secret that `LookupActiveBySecret` accepts has the prefix of API tokens and the hash of a row that is
  -- not revoked and has not expired; its user is in the table and active. The lookup changes nothing.
  pub lookup_active_by_secret_sound :
      (now : ℕ) (secret : Text) (s t : State) (l : ApiTokenLookup)
      → lookup_active_by_secret digest d from_json now secret s ≡ (ok l, t)
      → IsAccepted now secret (content s) l × (content t ≡ content s)
  unfolding lookup_active_by_secret
  lookup_active_by_secret_sound now secret s t l h =
      elim (Bool-cases (has_prefix (trim_space secret) api_token_prefix)) [
        | inl e ↦
            let (p, u, asked, rest) =
              >>=-eq-ok
                (run (TokenRow × TokenUser) (λ c.
                  found
                    (token_with_user digest d from_json
                      (hash_api_token_secret digest (trim_space secret)) c)
                    c))
                (usable_only digest d from_json now) s (rw e at h) in
            let (hit, kept) = found_ok _ _ (doc.run_ok _ _ s p u asked) in
            let (row_hit, user_hit) = token_with_user_sound _ (content s) hit in
            let (l_eq, good, same) = usable_only_ok now (p.0) (p.1) u t l rest in
            (
              subst (IsAccepted now secret (content s)) (sym l_eq)
                  (accepted now secret (content s) (p.0) (p.1) e row_hit user_hit good),
              ap content same ∙ kept,
            )
        | inr e ↦ absurd (ground arith)
      ]

  -- An answered `Revoke` marks exactly the tokens that have the id, belong to the user and are not revoked
  -- yet, of which there is one at least.
  pub revoke_token_ok :
      (now : ℕ) (user_id id : ℤ) (s t : State)
      → revoke_token digest d from_json now user_id id s ≡ (ok tt, t)
      → ((content t).tokens
          ≡ update
              (revocable_token digest d from_json user_id id)
              (revoked_token digest d from_json now)
              (content s).tokens)
        × ((content t).users ≡ (content s).users)
        × (count (revocable_token digest d from_json user_id id) (content s).tokens ≢ 0)
  unfolding revoke_token revoke_token_rows
  revoke_token_ok now user_id id s t h =
      let (n, u, asked, rest) =
        >>=-eq-ok (run ℕ (revoke_token_rows digest d from_json now user_id id)) _ s h in
      let done = doc.run_ok _ _ s n u asked in
      elim (Bool-cases (n == 0)) [
        | inl e ↦ absurd (ground arith)
        | inr e ↦
            let same : t ≡ u = ap (λ (p : Result (Unit {0}) × State). p.1) (sym (rw e at rest)) in
            let counted : n
                ≡ count (revocable_token digest d from_json user_id id) (content s).tokens =
              ground arith in
            (
              rw same (ap (λ (p : Result ℕ × TokenTables). p.1.tokens) (sym done)),
              rw same (ap (λ (p : Result ℕ × TokenTables). p.1.users) (sym done)),
              λ z. ground arith,
            )
      ]

  -- In the state that an answered `Revoke` leaves, no secret is accepted, at any time, as that token of
  -- that user.
  pub revoke_ends_token :
      (now later : ℕ) (user_id id : ℤ) (secret : Text) (s t u : State) (l : ApiTokenLookup)
      → revoke_token digest d from_json now user_id id s ≡ (ok tt, t)
      → lookup_active_by_secret digest d from_json later secret t ≡ (ok l, u)
      → l.token.id ≡ id
      → l.token.user_id ≢ user_id
  unfolding scan_api_token
  revoke_ends_token now later user_id id secret s t u l h g same_id same_user =
      let (hit, _) = lookup_active_by_secret_sound later secret t u l g in
      let rows = (revoke_token_ok now user_id id s t h).0 in
      let spared =
        find-All (λ x. revocable_token digest d from_json user_id id x ≡ false)
          (is_live digest d from_json (hash_api_token_secret digest (trim_space secret)))
          (content t).tokens
          (rw rows (
            All-update_fails (revocable_token digest d from_json user_id id)
              (revoked_token digest d from_json now) (content s).tokens (λ row. ground arith)))
          hit.row_found in
      let live =
        find_sound (is_live digest d from_json (hash_api_token_secret digest (trim_space secret)))
          (content t).tokens hit.row_found in
      let id_eq : hit.row.id ≡ id =
        ap (λ (x : ApiTokenLookup). x.token.id) (sym hit.told) ∙ same_id in
      let user_eq : hit.row.user_id ≡ user_id =
        ap (λ (x : ApiTokenLookup). x.token.user_id) (sym hit.told) ∙ same_user in
      ground (arith, eq_ℤ_iff hit.row.id id, eq_ℤ_iff hit.row.user_id user_id)
