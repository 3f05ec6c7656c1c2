-- ===== src/Store/ListeningPorts/Leftover/Positive.antt =====
-- Positive ids.
use dorian_back_end.Prelude.{
  ◌≡◌, Bool, true, not, List, [], ◌∷◌, keep, arith, ℤ, pos, negsuc, ◌+ℤ◌, positive, All, All-weaken,
  either_branch, Bool-cases, inl, inr,
}
use dorian_back_end.Store.Database.{Database, IsDocumented, All-update}
use dorian_back_end.Store.ListeningPorts.{
  ListeningPort, ListeningPortInput, PortTables, in_ids, insert_port, stored_row, set_to, changes,
  accepted_update, update_port, delete_where,
}

-- Ids start at 1, as AUTO_INCREMENT gives them.
abbrev pub IdsPositive : PortTables → Type 0
IdsPositive c =
    All (λ (row : ListeningPort). positive row.id ≡ true) c.ports × (positive c.next_port_id ≡ true)

pub All-keep :
    (P : ListeningPort → Type 0) (p : ListeningPort → Bool) (rows : List ListeningPort)
    → All P rows
    → All (λ row. P row × (p row ≡ true)) (keep p rows)
All-keep P p [] all = tt
All-keep P p (row ∷ rows) (q, all) = elim (Bool-cases (p row)) [
  | inl e ↦ rw (keep, e) ((q, e), All-keep P p rows all)
  | inr e ↦ rw (keep, e) (All-keep P p rows all)
]

module _ (d : Database PortTables) (doc : IsDocumented d)
    (accepts : ListeningPort → List ListeningPort → Bool) (server_id : ℤ) where
  positive_next : (id : ℤ) → positive id ≡ true → positive (id +ℤ pos 1) ≡ true
  unfolding ◌+ℤ◌
  positive_next (pos n) h = ground arith
  positive_next (negsuc n) h = absurd (ground arith)

  pub insert_port-IdsPositive :
      (input : ListeningPortInput) (c : PortTables)
      → IdsPositive c
      → IdsPositive (insert_port d accepts server_id input c).1
  unfolding insert_port
  insert_port-IdsPositive input c (rows, next) = elim (Bool-cases (in_ids server_id c.servers)) [
    | inr e ↦ rw e (rows, next)
    | inl e ↦ elim (Bool-cases (accepts (stored_row c.next_port_id server_id input) c.ports)) [
      | inl fits ↦ rw (e, fits) ((next, rows), positive_next c.next_port_id next)
      | inr clash ↦ rw (e, clash) (rows, next)
    ]
  ]

  pub update_port-IdsPositive :
      (id : ℤ) (input : ListeningPortInput) (c : PortTables)
      → IdsPositive c
      → IdsPositive (update_port d accepts server_id id input c).1
  unfolding update_port
  update_port-IdsPositive id input c (rows, next) =
      elim (Bool-cases (accepted_update d accepts server_id id input c.ports)) [
        | inl e ↦ rw e (
          All-update _ (changes d accepts server_id id input) (set_to d accepts input) c.ports
              (λ row p.
                either_branch (λ (r : ListeningPort). positive r.id ≡ true)
                  (changes d accepts server_id id input row) p p)
              rows,
          next,
        )
        | inr e ↦ rw e (rows, next)
      ]

  pub delete_where-IdsPositive :
      (p : ListeningPort → Bool) (c : PortTables)
      → IdsPositive c
      → IdsPositive (delete_where d accepts p c).1
  unfolding delete_where
  delete_where-IdsPositive p c (rows, next) =
      (All-weaken _ _ _ (λ row k. k.0) (All-keep _ (λ row. not (p row)) c.ports rows), next)
