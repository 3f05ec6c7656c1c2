-- ===== src/Store/UserTokens/OneTime.antt =====
-- Links that `Consume` has accepted.
use dorian_back_end.Prelude.{
  ℕ, ◌<◌, ◌≡◌, refl, ◌∙◌, ◌≢◌, true, not, ◌||◌, Option, none, some, List, [], ◌∷◌, ==_iff, arith,
  Bool-cases, inl, inr,
}
use dorian_back_end.Text.{Text, ◌is◌, trim_space}
use dorian_back_end.Action.{Result, ok, err}
use dorian_back_end.Store.Database.{Database, IsDocumented, update, find}
use dorian_back_end.Store.ApiTokens.{hash_api_token_secret}
use dorian_back_end.Store.UserTokens.{
  UserToken, LinkUser, LinkTables, UserTokenPeek, valid_user_token_purpose, is_link, link_with_user,
  usable_link, is_usable_link, lookup, consumed, consume_rows, consume, has_link_id, used_up,
  peek_of, is_user_of,
}

module _ (digest : Text → Text) (d : Database LinkTables) (doc : IsDocumented d) where
  open d use {State, content, collates, run}

  abbrev hash_of : Text → Text
  hash_of secret = hash_api_token_secret digest (trim_space secret)

  usable_link_ok :
      (now : ℕ) (purpose : Text) (o : Option (UserToken × LinkUser)) (row : UserToken)
      (p : UserTokenPeek)
      → usable_link digest d now purpose o ≡ ok (row, p)
      → (user : LinkUser) × (o ≡ some (row, user))
        × (row.used_at ≡ none)
        × (now < row.expires_at)
        × (p ≡ peek_of digest d purpose row user)
  usable_link_ok now purpose none row p h = absurd (ground arith)
  usable_link_ok now purpose (some (x, user)) row p h =
      elim (Bool-cases (is_usable_link digest d now x)) [
        | inl e ↦
            let whole = rw e at h in
            let same : x ≡ row = ground arith in
            let null : x.used_at ≡ none = ground arith in
            let early : now < x.expires_at = ground arith in
            (user, rw same refl, rw same at null, rw same at early, ground arith)
        | inr e ↦ absurd (ground arith)
      ]

  -- The row that a lookup accepts, and its user.
  pub record IsServed (now : ℕ) (secret purpose : Text) (c : LinkTables) (row : UserToken)
      (p : UserTokenPeek) : Type 0 where
    pub user : LinkUser
    pub row_found : find (is_link digest d (hash_of secret) purpose) c.links ≡ some row
    pub user_found : find (is_user_of digest d row) c.users ≡ some user
    pub unused : row.used_at ≡ none
    pub unexpired : now < row.expires_at
    pub purpose_valid : valid_user_token_purpose purpose ≡ true
    pub told : p ≡ peek_of digest d purpose row user

  link_with_user_sound :
      (hash purpose : Text) (c : LinkTables) {row : UserToken} {user : LinkUser}
      → link_with_user digest d hash purpose c ≡ some (row, user)
      → (find (is_link digest d hash purpose) c.links ≡ some row)
        × (find (is_user_of digest d row) c.users ≡ some user)
  unfolding link_with_user
  link_with_user_sound hash purpose c h = ground arith

  lookup_sound :
      (now : ℕ) (secret purpose : Text) (c : LinkTables) (row : UserToken) (p : UserTokenPeek)
      → lookup digest d now secret purpose c ≡ ok (row, p)
      → IsServed now secret purpose c row p
  unfolding lookup
  lookup_sound now secret purpose c row p h =
      elim (Bool-cases ((trim_space secret is []) || not (valid_user_token_purpose purpose))) [
        | inl e ↦ absurd (ground arith)
        | inr e ↦
            let (user, hit, unused, later, told) =
              usable_link_ok now purpose (link_with_user digest d (hash_of secret) purpose c) row p
                (rw e at h) in
            let (row_hit, user_hit) = link_with_user_sound (hash_of secret) purpose c hit in
            record {
              user = user;
              row_found = row_hit;
              user_found = user_hit;
              unused = unused;
              unexpired = later;
              purpose_valid = ground arith;
              told = told;
            }
      ]

  -- A link that is used up is still the one that its hash finds.
  find_after_use :
      (hash purpose : Text) (now id : ℕ) (links : List UserToken) (row : UserToken)
      → find (is_link digest d hash purpose) links ≡ some row
      → row.id ≡ id
      → find
          (is_link digest d hash purpose)
          (update (has_link_id digest d id) (used_up digest d now) links)
        ≡ some (used_up digest d now row)
  unfolding find update
  find_after_use hash purpose now id [] row h e = absurd (ground arith)
  find_after_use hash purpose now id (x ∷ links) row h e =
      elim (Bool-cases (is_link digest d hash purpose x)) [
        | inl hit ↦ let same : x ≡ row = ground arith in rw same (ground (arith, ==_iff row.id id))
        | inr miss ↦ ground (arith, find_after_use hash purpose now id links row)
      ]

  consumed_ok :
      (now : ℕ) (found : Result (UserToken × UserTokenPeek)) (c c' : LinkTables) (p : UserTokenPeek)
      → consumed digest d now found c ≡ (ok p, c')
      → (row : UserToken) × (found ≡ ok (row, p))
        × (c'.links ≡ update (has_link_id digest d row.id) (used_up digest d now) c.links)
        × (c'.users ≡ c.users)
  consumed_ok now (err e) c c' p h = absurd (ground arith)
  consumed_ok now (ok (row, q)) c c' p h =
      let same : q ≡ p = ground arith in (row, rw same refl, ground arith, ground arith)

  -- An answered `Consume` serves a link that is not used and has not expired, of a valid purpose and of a user
  -- in the table, and uses up the rows of its id.
  pub consume_ok :
      (now : ℕ) (secret purpose : Text) (s t : State) (p : UserTokenPeek)
      → consume digest d now secret purpose s ≡ (ok p, t)
      → (row : UserToken) × IsServed now secret purpose (content s) row p
        × ((content t).links
            ≡ update (has_link_id digest d row.id) (used_up digest d now) (content s).links)
        × ((content t).users ≡ (content s).users)
  unfolding consume consume_rows
  consume_ok now secret purpose s t p h =
      let (row, hit, used, kept) =
        consumed_ok now (lookup digest d now secret purpose (content s)) (content s) (content t) p
          (doc.run_ok _ _ s p t h) in
      (row, lookup_sound now secret purpose (content s) row p hit, used, kept)

  -- In the state that an answered `Consume` leaves, at any time, no text with the same hash is served
  -- for the purpose.
  pub link_used_once :
      (now later : ℕ) (secret again purpose : Text) (s t u : State) (p q : UserTokenPeek)
      → consume digest d now secret purpose s ≡ (ok p, t)
      → hash_api_token_secret digest (trim_space again)
        ≡ hash_api_token_secret digest (trim_space secret)
      → consume digest d later again purpose t ≢ (ok q, u)
  link_used_once now later secret again purpose s t u p q h same g =
      let (row, served, used, _) = consume_ok now secret purpose s t p h in
      let (row', served', _, _) = consume_ok later again purpose t u q g in
      let still =
        find_after_use (hash_of secret) purpose now row.id (content s).links row served.row_found
          refl in
      let found_again = rw (used, same) at served'.row_found in
      ground (arith, still ∙ refl, served'.unused)
