-- ===== src/Store/ListeningPorts/Leftover.antt =====
-- The rows of the server that `ReplaceByServer` leaves in the table.
pub mod Indexed
pub mod Statements
pub mod Loop
pub mod Positive
use dorian_back_end.Prelude.{
  ℕ, ◌≡◌, refl, ap, subst, sym, ◌∙◌, Bool, true, false, not, ◌&&◌, ◌||◌, Option, none, some, List,
  [], ◌∷◌, ◌++◌, any, keep, map, arith, ℤ, pos, negsuc, ◌+ℤ◌, positive, eq_ℤ, eq_ℤ_iff, All,
  All-weaken, either_branch, Bool-cases, inl, inr,
}
use dorian_back_end.Action.{Action, Result, Error, ok, err, pure, >>=-eq-ok}
use dorian_back_end.Store.Database.{Database, IsDocumented, update, All-update}
use dorian_back_end.Store.Preserves.{run-Preserves}
use dorian_back_end.Store.ListeningPorts.{
  ListeningPort, ListeningPortInput, PortTables, in_ids, unique_from, unique_int64, order_rows,
  of_server, select_ports, list_by_server, insert_port, stored_row, set_to, changes,
  accepted_update, update_port, delete_where, listed, delete_ids, delete_batch,
}
use dorian_back_end.Store.ListeningPorts.Steps.{
  replace_by_server-Preserves, none_if_failed-Preserves,
}
use dorian_back_end.Store.ListeningPorts.Replace.{
  KeyMap, Key, key_of, in_keys, index_rows, select_referenced, none_if_failed, referenced_ids, sync,
  to_delete, clean_up, replace_rows, replace_by_server,
}
use dorian_back_end.Store.ListeningPorts.Leftover.Indexed.{
  ids_of, in_ids-append, in_ids-order_rows, index_rows-ids, index_rows-KeyDistinct, KeyDistinct,
  pending,
}
use dorian_back_end.Store.ListeningPorts.Leftover.Positive.{
  IdsPositive, All-keep, insert_port-IdsPositive, update_port-IdsPositive, delete_where-IdsPositive,
}
use dorian_back_end.Store.ListeningPorts.Leftover.Statements.{All-both}
use dorian_back_end.Store.ListeningPorts.Leftover.Loop.{Accounted, sync-Accounted}

-- `uniqueInt64` loses no id but 0.
in_ids-unique_from :
    (id : ℤ) (seen ids : List ℤ)
    → positive id ≡ true
    → in_ids id ids ≡ true
    → (in_ids id seen || in_ids id (unique_from seen ids)) ≡ true
unfolding unique_from in_ids
in_ids-unique_from id seen [] h there = absurd (ground arith)
in_ids-unique_from id seen (x ∷ ids) h there = elim (Bool-cases (eq_ℤ x id)) [
  | inl e ↦
      subst (λ y. (in_ids id seen || in_ids id (unique_from seen (y ∷ ids))) ≡ true)
        (sym ((eq_ℤ_iff x id).0 e)) (unfold unique_from in unfold in_ids in ground arith)
  | inr e ↦
      ground (arith, in_ids-unique_from id seen ids h, in_ids-unique_from id (x ∷ seen) ids h, e)
]

in_ids_nil : (id : ℤ) → in_ids id [] ≡ false
unfolding in_ids
in_ids_nil id = refl

keep-true :
    (p : ListeningPort → Bool) (rows : List ListeningPort)
    → ((row : ListeningPort) → p row ≡ true)
    → keep p rows ≡ rows
keep-true p [] all = refl
keep-true p (row ∷ rows) all = rw (keep, all row) (ap (λ xs. row ∷ xs) (keep-true p rows all))

pending-ids :
    (m : KeyMap) (desired : List Key) (id : ℤ)
    → in_ids id (ids_of (keep (λ row. not (in_keys (key_of row) desired)) m)) ≡ pending m desired id
unfolding in_ids
pending-ids [] desired id = refl
pending-ids (row ∷ m) desired id = elim (Bool-cases (in_keys (key_of row) desired)) [
  | inl e ↦ rw e (ground (arith, pending-ids m desired id))
  | inr e ↦ rw e (ground (arith, pending-ids m desired id))
]

pending-start : (m : KeyMap) (id : ℤ) → pending m [] id ≡ in_ids id (ids_of m)
unfolding in_ids in_keys
pending-start [] id = refl
pending-start (row ∷ m) id = ground (arith, pending-start m id)

-- The rows that pass a test are among those that are kept.
keep-ids :
    (p : ListeningPort → Bool) (rows : List ListeningPort)
    → All (λ row. p row ≡ true → in_ids row.id (ids_of (keep p rows)) ≡ true) rows
unfolding in_ids
keep-ids p [] = tt
keep-ids p (row ∷ rows) = elim (Bool-cases (p row)) [
  | inl e ↦
      let kept : keep p (row ∷ rows) ≡ row ∷ keep p rows = rw (keep, e) refl in
      subst (λ xs. All (λ other. p other ≡ true → in_ids other.id (ids_of xs) ≡ true) (row ∷ rows))
        (sym kept)
        (
          λ own. ground arith,
          All-weaken _ _ rows (λ other k own. ground (arith, k own)) (keep-ids p rows),
        )
  | inr e ↦
      let kept : keep p (row ∷ rows) ≡ keep p rows = rw (keep, e) refl in
      subst (λ xs. All (λ other. p other ≡ true → in_ids other.id (ids_of xs) ≡ true) (row ∷ rows))
        (sym kept) (λ own. absurd (ground arith), keep-ids p rows)
]

module _ (d : Database PortTables) (doc : IsDocumented d)
    (accepts : ListeningPort → List ListeningPort → Bool) (server_id : ℤ) where
  open d use {State, content, run}

  delete_where_ok :
      (p : ListeningPort → Bool) (c c' : PortTables) {a : Unit {0}}
      → delete_where d accepts p c ≡ (ok a, c')
      → c'.ports ≡ keep (λ row. not (p row)) c.ports
  unfolding delete_where
  delete_where_ok p c c' h = ap (λ (x : Result (Unit {0}) × PortTables). x.1.ports) (sym h)

  delete_batch_ok :
      (ids : List ℤ) (s t : State) (a : Unit {0})
      → delete_batch d accepts server_id ids s ≡ (ok a, t)
      → (content t).ports
        ≡ keep (λ row. not (listed d accepts server_id (unique_int64 ids) row)) (content s).ports
  unfolding delete_batch in_ids
  delete_batch_ok ids s t a h = by_ids (unique_int64 ids) h
    where
      by_ids :
          (xs : List ℤ)
          → delete_ids d accepts server_id xs s ≡ (ok a, t)
          → (content t).ports
            ≡ keep (λ row. not (listed d accepts server_id xs row)) (content s).ports
      by_ids [] k =
          ap (λ (x : Result (Unit {0}) × State). (content x.1).ports) (sym k)
          ∙ sym (
              keep-true (λ row. not (listed d accepts server_id [] row)) (content s).ports
                (λ row. refl))
      by_ids (id ∷ rest) k =
          delete_where_ok (listed d accepts server_id (id ∷ rest)) (content s) (content t)
            (doc.run_ok _ _ s a t k)

  -- A row that is accounted for and was not deleted is one of the rows that are returned.
  left_returned :
      (m : KeyMap) (duplicates : List ℤ) (desired : List Key) (rows : List ListeningPort)
      (row : ListeningPort)
      → positive row.id ≡ true
      → Accounted d doc accepts server_id m duplicates desired rows row
      → not
          (listed d accepts server_id (unique_int64 (to_delete d accepts m duplicates desired)) row)
        ≡ true
      → of_server d accepts server_id row ≡ true
      → in_ids row.id (ids_of rows) ≡ true
  unfolding unique_int64 to_delete
  left_returned m duplicates desired rows row real all stays own =
      let waiting = ids_of (keep (λ other. not (in_keys (key_of other) desired)) m) in
      let unlisted = in_ids-unique_from row.id [] (duplicates ++ waiting) real in
      ground (
        arith,
        all own,
        pending-ids m desired row.id,
        in_ids-append row.id duplicates waiting,
        unlisted,
        in_ids_nil row.id,
      )

  referenced_ids_rows :
      (s t : State) (ids : List ℤ)
      → referenced_ids d accepts server_id s ≡ (ok ids, t)
      → (content t).ports ≡ (content s).ports
  unfolding referenced_ids
  referenced_ids_rows s t ids h =
      ap (λ (x : Result (List ℤ) × State). (content x.1).ports) (sym h)
      ∙ none_if_failed_rows (run (List ℤ) (select_referenced d accepts server_id) s)
          (content s).ports
          (run-Preserves d doc (λ c. c.ports ≡ (content s).ports) (List ℤ)
            (select_referenced d accepts server_id) (λ c k. k) s refl)
    where
      none_if_failed_rows :
          (p : Result (List ℤ) × State) (rows : List ListeningPort)
          → (content p.1).ports ≡ rows
          → (content (none_if_failed d accepts p).1).ports ≡ rows
      none_if_failed_rows (ok x, u) rows k = k
      none_if_failed_rows (err e, u) rows k = k

  -- All rows that a server has are accounted for before the loop.
  start-Accounted :
      (referenced : List ℤ) (rows : List ListeningPort)
      → let indexed =
          index_rows referenced (order_rows (keep (of_server d accepts server_id) rows)) ([], []) in
        All (Accounted d doc accepts server_id indexed.0 indexed.1 [] []) rows
  start-Accounted referenced rows =
      let own = of_server d accepts server_id in
      let existing = order_rows (keep own rows) in
      let indexed = index_rows referenced existing ([], []) in
      All-weaken _ _ rows
        (λ row kept mine. ground (
          arith,
          kept mine,
          in_ids-order_rows row.id (keep own rows),
          index_rows-ids referenced row.id existing [] [],
          pending-start indexed.0 row.id,
          in_ids_nil row.id,
        ))
        (keep-ids own rows)

  replace_rows-Accounted :
      (referenced : List ℤ) (inputs : List ListeningPortInput) (existing rows : List ListeningPort)
      (s t : State)
      → existing ≡ order_rows (keep (of_server d accepts server_id) (content s).ports)
      → IdsPositive (content t)
      → replace_rows d accepts server_id inputs (index_rows referenced existing ([], [])) s
        ≡ (ok rows, t)
      → All
          (λ row. of_server d accepts server_id row ≡ true → in_ids row.id (ids_of rows) ≡ true)
          (content t).ports
  replace_rows-Accounted referenced inputs existing rows s t listing real h =
      let indexed = index_rows referenced existing ([], []) in
      let m = indexed.0 in
      let duplicates = indexed.1 in
      let ((desired, out), u, asked, rest) =
        >>=-eq-ok (sync d accepts server_id m [] [] inputs)
          (clean_up d accepts server_id m duplicates) s h in
      let (a, w, deleted, last) =
        >>=-eq-ok (delete_batch d accepts server_id (to_delete d accepts m duplicates desired)) _ u
          rest in
      let same : out ≡ rows = ground arith in
      let after : w ≡ t = ap (λ (x : Result (List ListeningPort) × State). x.1) last in
      let left =
        ap (λ (x : State). (content x).ports) (sym after)
        ∙ delete_batch_ok (to_delete d accepts m duplicates desired) u w a deleted in
      let begin =
        subst
          (λ (xs : List ListeningPort).
            All
              (Accounted d doc accepts server_id (index_rows referenced xs ([], [])).0
                (index_rows referenced xs ([], [])).1 [] [])
              (content s).ports)
          (sym listing) (start-Accounted referenced (content s).ports) in
      let distinct = index_rows-KeyDistinct referenced existing [] [] tt in
      let all =
        sync-Accounted d doc accepts server_id m duplicates [] desired [] out inputs s u distinct
          asked begin in
      let kept = All-keep _ _ (content u).ports all in
      All-both _ _ _ (content t).ports
        (λ row positive_id (known, stays) own.
          subst (λ (xs : List ListeningPort). in_ids row.id (ids_of xs) ≡ true) same
            (left_returned m duplicates desired out row positive_id known stays own))
        real.0 (subst (All _) (sym left) kept)

  -- Once `ReplaceByServer` has answered, every row that the server has in the table is one of those that
  -- were returned, whatever duplicates and other ports were there before, and whatever the reports hold.
  pub no_row_left_over :
      (inputs : List ListeningPortInput) (s t : State) (rows : List ListeningPort)
      → IdsPositive (content s)
      → replace_by_server d accepts server_id inputs s ≡ (ok rows, t)
      → All
          (λ row. of_server d accepts server_id row ≡ true → in_ids row.id (ids_of rows) ≡ true)
          (content t).ports
  unfolding replace_by_server list_by_server select_ports
  no_row_left_over inputs s t rows real h = elim (Bool-cases (eq_ℤ server_id (pos 0))) [
    | inl e ↦ absurd (cc (rw e at h))
    | inr e ↦
        let (existing, u, listing, rest) =
          >>=-eq-ok (list_by_server d accepts server_id) _ s (rw e at h) in
        let (referenced, v, asked, last) =
          >>=-eq-ok (referenced_ids d accepts server_id) _ u rest in
        let selected = doc.run_ok _ _ s existing u listing in
        let rows_of_v =
          referenced_ids_rows u v referenced asked
          ∙ ap (λ (x : Result (List ListeningPort) × PortTables). x.1.ports) (sym selected) in
        let existing_is : existing
            ≡ order_rows (keep (of_server d accepts server_id) (content s).ports) =
          ground (arith, selected) in
        replace_rows-Accounted referenced inputs existing rows v t
          (existing_is
            ∙ ap (λ xs. order_rows (keep (of_server d accepts server_id) xs)) (sym rows_of_v))
          (subst (λ (x : State). IdsPositive (content x))
            (ap (λ (x : Result (List ListeningPort) × State). x.1) h)
            (replace_by_server-Preserves d doc accepts server_id IdsPositive
              (insert_port-IdsPositive d doc accepts server_id)
              (update_port-IdsPositive d doc accepts server_id)
              (λ p c own k. delete_where-IdsPositive d doc accepts server_id p c k) inputs s real))
          last
  ]
