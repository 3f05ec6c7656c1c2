-- ===== src/Store/ListeningPorts/Reported.antt =====
-- The rows that `ReplaceByServer` returns.
pub mod Keys
use dorian_back_end.Prelude.{
  ℕ, ◌≡◌, refl, ap, ap₂, subst, sym, ◌∙◌, Bool, true, false, not, ◌&&◌, ◌||◌, Option, none, some,
  List, [], ◌∷◌, ◌++◌, any, arith, ℤ, pos, ◌≤ℤ◌, eq_ℤ, eq_ℤ_iff, leb_ℤ, ltb_ℤ, All, map, Bool-cases,
  Option-cases, inl, inr,
}
use dorian_back_end.Text.{Text, ◌is◌, is_iff, to_upper}
use dorian_back_end.Action.{
  Action, Result, Error, ok, err, ◌>>=◌, >>=-eq-ok, failed, not_found, invalid, expired, no_schema,
  too_long, unavailable,
}
use dorian_back_end.Store.Database.{Database}
use dorian_back_end.Store.ListeningPorts.{
  ListeningPort, ListeningPortInput, PortTables, returned, list_by_server, insert_port, create,
  update_port, confirm, update_row, delete_batch,
}
use dorian_back_end.Store.ListeningPorts.Replace.{
  KeyMap, Key, same_key, input_key, in_keys, normalize_input, lookup_key, or_create, upsert, sync,
  to_delete, clean_up, replace_rows, referenced_ids, index_rows, replace_by_server,
}
use dorian_back_end.Store.ListeningPorts.Reported.Keys.{
  row_key, row_keys, Distinct, InRange, is_reported, in_keys-append, Distinct-append,
  row_keys-append, All-append_one, normalize_input_ok, joined, repeated, moved,
}

-- The state of the loop: the rows so far are in range, and `desiredKeys` are their keys, each once.
record Synced (seen : List Key) (out : List ListeningPort) : Type 0 where
  in_range : All InRange out
  distinct : Distinct (row_keys out)
  same : (k : Key) → in_keys k (row_keys out) ≡ in_keys k seen

module _ (d : Database PortTables) (accepts : ListeningPort → List ListeningPort → Bool) where
  open d use {State, content, run}

  -- A row that is returned has the values of the input.
  create_ok :
      (server_id : ℤ) (input : ListeningPortInput) (s t : State) (row : ListeningPort)
      → create d accepts server_id input s ≡ (ok row, t)
      → (row.port ≡ input.port) × (row.protocol ≡ input.protocol)
  unfolding create
  create_ok server_id input s t row h =
      let (id, u, asked, rest) = >>=-eq-ok (run ℤ (insert_port d accepts server_id input)) _ s h in
      let same : row ≡ returned id server_id input = ground arith in
      (ap (λ (r : ListeningPort). r.port) same, ap (λ (r : ListeningPort). r.protocol) same)

  pub update_row_ok :
      (server_id id : ℤ) (input : ListeningPortInput) (s t : State) (row : ListeningPort)
      → update_row d accepts server_id id input s ≡ (ok row, t)
      → row ≡ returned id server_id input
  unfolding update_row
  update_row_ok server_id id input s t row h =
      let (n, u, asked, rest) =
        >>=-eq-ok (run ℕ (update_port d accepts server_id id input)) _ s h in
      let (a, v, confirmed, last) = >>=-eq-ok (confirm d accepts server_id id n) _ u rest in
      ground arith

  or_create_ok :
      (server_id : ℤ) (input : ListeningPortInput) (p : Result ListeningPort × State) (t : State)
      (row : ListeningPort)
      → ((r : ListeningPort) → p.0 ≡ ok r → (r.port ≡ input.port) × (r.protocol ≡ input.protocol))
      → or_create d accepts server_id input p ≡ (ok row, t)
      → (row.port ≡ input.port) × (row.protocol ≡ input.protocol)
  or_create_ok server_id input (ok r, s) t row given h = given row (ap (λ x. x.0) h)
  or_create_ok server_id input (err not_found, s) t row given h =
      create_ok server_id input s t row h
  or_create_ok server_id input (err failed, s) t row given h = absurd (ground arith)
  or_create_ok server_id input (err invalid, s) t row given h = absurd (ground arith)
  or_create_ok server_id input (err expired, s) t row given h = absurd (ground arith)
  or_create_ok server_id input (err no_schema, s) t row given h = absurd (ground arith)
  or_create_ok server_id input (err too_long, s) t row given h = absurd (ground arith)
  or_create_ok server_id input (err unavailable, s) t row given h = absurd (ground arith)

  upsert_ok :
      (server_id : ℤ) (m : KeyMap) (input : ListeningPortInput) (s t : State) (row : ListeningPort)
      → upsert d accepts server_id m input s ≡ (ok row, t)
      → (row.port ≡ input.port) × (row.protocol ≡ input.protocol)
  unfolding upsert
  upsert_ok server_id m input s t row h = elim (Option-cases (lookup_key (input_key input) m)) [
    | inl e ↦ create_ok server_id input s t row (rw (upsert, e) at h)
    | inr (current, e) ↦
        or_create_ok server_id input (update_row d accepts server_id current.id input s) t row
          (λ r answered.
            let same =
              update_row_ok server_id current.id input s
                (update_row d accepts server_id current.id input s).1 r
                (ap (λ x. (x, (update_row d accepts server_id current.id input s).1)) answered) in
            (ap (λ (x : ListeningPort). x.port) same, ap (λ (x : ListeningPort). x.protocol) same))
          (rw (upsert, e) at h)
  ]

  -- A new key and its row join the loop's state.
  Synced-more :
      (seen : List Key) (out : List ListeningPort) (n : ListeningPortInput) (row : ListeningPort)
      → Synced seen out
      → in_keys (input_key n) seen ≡ false
      → (pos 1 ≤ℤ n.port) × (n.port ≤ℤ pos 65535)
      → (row.port ≡ n.port) × (row.protocol ≡ n.protocol)
      → Synced (input_key n ∷ seen) (out ++ (row ∷ []))
  unfolding in_keys
  Synced-more seen out n row i new range (port, protocol) =
      let key : row_key row ≡ input_key n = ap₂ (λ p q. (p, to_upper q)) port protocol in
      record {
        in_range = All-append_one InRange out row i.in_range (rw port range);
        distinct = subst Distinct (sym (row_keys-append out row)) (
            subst (λ (l : Key). Distinct (row_keys out ++ (l ∷ []))) (sym key)
              (Distinct-append (row_keys out) (input_key n) i.distinct
                (i.same (input_key n) ∙ new)));
        same = λ k.
            subst (λ (ks : List Key). in_keys k ks ≡ in_keys k (input_key n ∷ seen))
              (sym (row_keys-append out row))
              (subst
                (λ (l : Key). in_keys k (row_keys out ++ (l ∷ [])) ≡ in_keys k (input_key n ∷ seen))
                (sym key)
                (in_keys-append k (row_keys out) (input_key n ∷ [])
                  ∙ joined k (row_keys out) seen (input_key n) (i.same k)));
      }

  -- The loop returns the keys that were there and those that are reported.
  sync_ok :
      (server_id : ℤ) (m : KeyMap) (seen desired : List Key) (out rows : List ListeningPort)
      (inputs : List ListeningPortInput) (s t : State)
      → Synced seen out
      → sync d accepts server_id m seen out inputs s ≡ (ok (desired, rows), t)
      → Synced desired rows
        × ((k : Key) → in_keys k desired ≡ (in_keys k seen || is_reported k inputs))
  unfolding sync
  sync_ok server_id m seen desired out rows [] s t i h =
      let keys : desired ≡ seen = ground arith in
      let same : rows ≡ out = ground arith in (rw (keys, same) i, λ k. rw keys (ground arith))
  sync_ok server_id m seen desired out rows (input ∷ inputs) s t i h =
      elim (Option-cases (normalize_input input)) [
        | inl e ↦
            let (synced, found) =
              sync_ok server_id m seen desired out rows inputs s t i (rw (sync, e) at h) in
            (synced, λ k. rw e (found k))
        | inr (n, e) ↦ elim (Bool-cases (in_keys (input_key n) seen)) [
          | inl old ↦
              let (synced, found) =
                sync_ok server_id m seen desired out rows inputs s t i (rw (sync, e, old) at h) in
              (
                synced,
                λ k.
                    found k ∙ sym (rw e (repeated k (input_key n) seen (is_reported k inputs) old)),
              )
          | inr new ↦
              let (row, u, asked, rest) =
                >>=-eq-ok (upsert d accepts server_id m n) _ s (rw (sync, e, new) at h) in
              let (synced, found) =
                sync_ok server_id m (input_key n ∷ seen) desired (out ++ (row ∷ [])) rows inputs u t
                  (Synced-more seen out n row i new (normalize_input_ok input n e)
                    (upsert_ok server_id m n s u row asked))
                  rest in
              (synced, λ k. found k ∙ rw e (moved k (input_key n) seen (is_reported k inputs)))
        ]
      ]

  replace_rows_ok :
      (server_id : ℤ) (inputs : List ListeningPortInput) (x : KeyMap × List ℤ) (s t : State)
      (rows : List ListeningPort)
      → replace_rows d accepts server_id inputs x s ≡ (ok rows, t)
      → (desired : List Key) × Synced desired rows
        × ((k : Key) → in_keys k desired ≡ is_reported k inputs)
  replace_rows_ok server_id inputs (m, duplicates) s t rows h =
      let ((desired, out), u, asked, rest) =
        >>=-eq-ok (sync d accepts server_id m [] [] inputs)
          (clean_up d accepts server_id m duplicates) s h in
      let (a, v, deleted, last) =
        >>=-eq-ok (delete_batch d accepts server_id (to_delete d accepts m duplicates desired)) _ u
          rest in
      let same : rows ≡ out = ground arith in
      let (synced, found) =
        sync_ok server_id m [] desired [] out inputs s u
          (record { in_range = tt; distinct = tt; same = λ k. refl }) asked in
      (desired, rw same synced, λ k. unfold in_keys in found k)

  -- The rows that an answered `ReplaceByServer` returns have ports from 1 to 65535, no two of them have the
  -- same port and protocol, and their ports and protocols are those of the inputs that are in range, with
  -- HTTP where none is given.
  pub replace_by_server_ok :
      (server_id : ℤ) (inputs : List ListeningPortInput) (s t : State) (rows : List ListeningPort)
      → replace_by_server d accepts server_id inputs s ≡ (ok rows, t)
      → All InRange rows
        × Distinct (row_keys rows)
        × ((k : Key) → in_keys k (row_keys rows) ≡ is_reported k inputs)
  unfolding replace_by_server
  replace_by_server_ok server_id inputs s t rows h = elim (Bool-cases (eq_ℤ server_id (pos 0))) [
    | inl e ↦ absurd (cc (rw e at h))
    | inr e ↦
        let (existing, u, listed, rest) =
          >>=-eq-ok (list_by_server d accepts server_id) _ s (rw e at h) in
        let (referenced, v, asked, last) =
          >>=-eq-ok (referenced_ids d accepts server_id) _ u rest in
        let (desired, synced, found) =
          replace_rows_ok server_id inputs (index_rows referenced existing ([], [])) v t rows
            last in
        (synced.in_range, synced.distinct, λ k. synced.same k ∙ found k)
  ]
