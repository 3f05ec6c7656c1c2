-- ===== src/Store/ListeningPorts/Steps.antt =====
-- Predicates that each statement on the ports keeps.
use dorian_back_end.Prelude.{
  ℕ, ◌≡◌, Bool, true, List, [], ◌∷◌, ◌++◌, any, arith, ◌==◌, ℤ, pos, eq_ℤ, Bool-cases, Option-cases,
  inl, inr,
}
use dorian_back_end.Action.{
  Result, ok, err, failed, not_found, invalid, expired, no_schema, too_long, unavailable,
}
use dorian_back_end.Store.Database.{Database, IsDocumented}
use dorian_back_end.Store.Preserves.{Preserves, run-Preserves, >>=-Preserves}
use dorian_back_end.Store.ListeningPorts.{
  ListeningPort, ListeningPortInput, PortTables, unique_int64, select_ports, list_by_server,
  insert_port, create, is_port, update_port, exists_port, confirm, update_row, delete_where, listed,
  delete_ids, delete_batch,
}
use dorian_back_end.Store.ListeningPorts.Replace.{
  KeyMap, Key, select_referenced, none_if_failed, referenced_ids, or_create, upsert, lookup_key,
  input_key, normalize_input, in_keys, sync, to_delete, replace_rows, replace_by_server, index_rows,
}

module _ (d : Database PortTables) (doc : IsDocumented d)
    (accepts : ListeningPort → List ListeningPort → Bool) (server_id : ℤ) (P : PortTables → Type 0)
    (inserts : (input : ListeningPortInput) (c : PortTables)
      → P c
      → P (insert_port d accepts server_id input c).1)
    (updates : (id : ℤ) (input : ListeningPortInput) (c : PortTables)
      → P c
      → P (update_port d accepts server_id id input c).1)
    (deletes : (p : ListeningPort → Bool) (c : PortTables)
      → ((row : ListeningPort) → p row ≡ true → eq_ℤ row.server_id server_id ≡ true)
      → P c
      → P (delete_where d accepts p c).1) where
  open d use {State, content, run}

  exists_port-Preserves :
      (id : ℤ) (c : PortTables) → P c → P (exists_port d accepts server_id id c).1
  exists_port-Preserves id c p = elim (Bool-cases (any (is_port d accepts server_id id) c.ports)) [
    | inl e ↦ rw e p
    | inr e ↦ rw e p
  ]

  pub create-Preserves :
      (input : ListeningPortInput) → Preserves d doc P (create d accepts server_id input)
  unfolding create
  create-Preserves input =
      >>=-Preserves d doc P (run ℤ (insert_port d accepts server_id input)) _
        (run-Preserves d doc P ℤ (insert_port d accepts server_id input) (inserts input))
        (λ id s p. p)

  confirm-Preserves :
      (id : ℤ) (affected : ℕ) → Preserves d doc P (confirm d accepts server_id id affected)
  confirm-Preserves id affected s p = elim (Bool-cases (affected == 0)) [
    | inl e ↦ rw e (
        run-Preserves d doc P (Unit {0}) (exists_port d accepts server_id id)
          (exists_port-Preserves id) s p)
    | inr e ↦ rw e p
  ]

  pub update_row-Preserves :
      (id : ℤ) (input : ListeningPortInput)
      → Preserves d doc P (update_row d accepts server_id id input)
  unfolding update_row
  update_row-Preserves id input =
      >>=-Preserves d doc P (run ℕ (update_port d accepts server_id id input)) _
        (run-Preserves d doc P ℕ (update_port d accepts server_id id input) (updates id input))
        (λ affected.
          >>=-Preserves d doc P (confirm d accepts server_id id affected) _
            (confirm-Preserves id affected) (λ a s p. p))

  pub delete_batch-Preserves :
      (ids : List ℤ) → Preserves d doc P (delete_batch d accepts server_id ids)
  unfolding delete_batch
  delete_batch-Preserves ids = by_ids (unique_int64 ids)
    where
      by_ids : (xs : List ℤ) → Preserves d doc P (delete_ids d accepts server_id xs)
      by_ids [] s p = p
      by_ids (id ∷ rest) s p =
          run-Preserves d doc P (Unit {0})
            (delete_where d accepts (listed d accepts server_id (id ∷ rest)))
            (λ c. deletes (listed d accepts server_id (id ∷ rest)) c (λ row h. ground arith)) s p

  or_create-Preserves :
      (input : ListeningPortInput) (p : Result ListeningPort × State)
      → P (content p.1)
      → P (content (or_create d accepts server_id input p).1)
  or_create-Preserves input (ok row, s) k = k
  or_create-Preserves input (err not_found, s) k = create-Preserves input s k
  or_create-Preserves input (err failed, s) k = k
  or_create-Preserves input (err invalid, s) k = k
  or_create-Preserves input (err expired, s) k = k
  or_create-Preserves input (err no_schema, s) k = k
  or_create-Preserves input (err too_long, s) k = k
  or_create-Preserves input (err unavailable, s) k = k

  upsert-Preserves :
      (m : KeyMap) (input : ListeningPortInput)
      → Preserves d doc P (upsert d accepts server_id m input)
  unfolding upsert
  upsert-Preserves m input s p = elim (Option-cases (lookup_key (input_key input) m)) [
    | inl e ↦ rw (upsert, e) (create-Preserves input s p)
    | inr (row, e) ↦
        rw (upsert, e)
          (or_create-Preserves input (update_row d accepts server_id row.id input s)
            (update_row-Preserves row.id input s p))
  ]

  sync-Preserves :
      (m : KeyMap) (seen : List Key) (out : List ListeningPort) (inputs : List ListeningPortInput)
      → Preserves d doc P (sync d accepts server_id m seen out inputs)
  unfolding sync
  sync-Preserves m seen out [] s p = p
  sync-Preserves m seen out (input ∷ inputs) s p = elim (Option-cases (normalize_input input)) [
    | inl e ↦ rw (sync, e) (sync-Preserves m seen out inputs s p)
    | inr (n, e) ↦ elim (Bool-cases (in_keys (input_key n) seen)) [
      | inl old ↦ rw (sync, e, old) (sync-Preserves m seen out inputs s p)
      | inr new ↦
          rw (sync, e, new)
            (>>=-Preserves d doc P (upsert d accepts server_id m n) _ (upsert-Preserves m n)
              (λ row. sync-Preserves m (input_key n ∷ seen) (out ++ (row ∷ [])) inputs) s p)
    ]
  ]

  pub none_if_failed-Preserves :
      (p : Result (List ℤ) × State) → P (content p.1) → P (content (none_if_failed d accepts p).1)
  none_if_failed-Preserves (ok ids, s) k = k
  none_if_failed-Preserves (err e, s) k = k

  pub replace_by_server-Preserves :
      (inputs : List ListeningPortInput)
      → Preserves d doc P (replace_by_server d accepts server_id inputs)
  unfolding replace_by_server list_by_server select_ports referenced_ids
  replace_by_server-Preserves inputs s p = elim (Bool-cases (eq_ℤ server_id (pos 0))) [
    | inl e ↦ rw e p
    | inr e ↦ rw e (
        >>=-Preserves d doc P (list_by_server d accepts server_id) _
          (run-Preserves d doc P _ (select_ports d accepts server_id) (λ c k. k))
          (λ existing.
            >>=-Preserves d doc P (referenced_ids d accepts server_id) _
              (λ t k.
                none_if_failed-Preserves _
                  (run-Preserves d doc P _ (select_referenced d accepts server_id) (λ c j. j) t k))
              (λ referenced t k. replaced (index_rows referenced existing ([], [])) t k))
          s p)
  ]
    where
      replaced :
          (x : KeyMap × List ℤ) → Preserves d doc P (replace_rows d accepts server_id inputs x)
      replaced (m, duplicates) =
          >>=-Preserves d doc P (sync d accepts server_id m [] [] inputs) _
            (sync-Preserves m [] [] inputs)
            (λ found.
              >>=-Preserves d doc P
                (delete_batch d accepts server_id (to_delete d accepts m duplicates found.0)) _
                (delete_batch-Preserves (to_delete d accepts m duplicates found.0)) (λ a t k. k))
