-- ===== src/Store/ListeningPorts/Leftover/Statements.antt =====
-- What the statements on the ports leave in the table.
use dorian_back_end.Prelude.{
  ℕ, ◌≡◌, ap, sym, ◌∙◌, Bool, true, false, ◌||◌, List, [], ◌∷◌, ◌++◌, any, arith, ◌==◌, ℤ, eq_ℤ,
  All, Bool-cases, inl, inr,
}
use dorian_back_end.Action.{Result, ok, err, >>=-eq-ok, >>=-eq-err, not_found}
use dorian_back_end.Store.Database.{Database, IsDocumented, update}
use dorian_back_end.Store.ListeningPorts.{
  ListeningPort, ListeningPortInput, PortTables, in_ids, insert_port, create, stored_row, returned,
  is_port, set_to, changes, update_port, exists_port, confirm, update_row,
}
use dorian_back_end.Store.ListeningPorts.Leftover.Indexed.{ids_of}

any_none :
    (p : ListeningPort → Bool) (rows : List ListeningPort)
    → any p rows ≡ false
    → All (λ row. p row ≡ false) rows
any_none p [] h = tt
any_none p (row ∷ rows) h = (ground arith, any_none p rows (ground arith))

pub ids_of-last :
    (id : ℤ) (out : List ListeningPort) (row : ListeningPort)
    → in_ids id (ids_of (out ++ (row ∷ []))) ≡ (in_ids id (ids_of out) || eq_ℤ row.id id)
unfolding in_ids
ids_of-last id [] row = ground arith
ids_of-last id (other ∷ out) row = ground (arith, ids_of-last id out row)

pub All-both :
    (P Q R : ListeningPort → Type 0) (rows : List ListeningPort)
    → ((row : ListeningPort) → P row → Q row → R row)
    → All P rows
    → All Q rows
    → All R rows
All-both P Q R [] join ps qs = tt
All-both P Q R (row ∷ rows) join (p, ps) (q, qs) = (join row p q, All-both P Q R rows join ps qs)

module _ (d : Database PortTables) (doc : IsDocumented d)
    (accepts : ListeningPort → List ListeningPort → Bool) (server_id : ℤ) where
  open d use {State, content, run}

  ports_of : State → List ListeningPort
  ports_of s = (content s).ports

  insert_port_ok :
      (input : ListeningPortInput) (c c' : PortTables) (id : ℤ)
      → insert_port d accepts server_id input c ≡ (ok id, c')
      → c'.ports ≡ stored_row id server_id input ∷ c.ports
  unfolding insert_port
  insert_port_ok input c c' id h = ground arith

  pub create_ok :
      (input : ListeningPortInput) (s t : State) (row : ListeningPort)
      → create d accepts server_id input s ≡ (ok row, t)
      → (content t).ports ≡ stored_row row.id server_id input ∷ (content s).ports
  unfolding create
  create_ok input s t row h =
      let (id, u, asked, rest) = >>=-eq-ok (run ℤ (insert_port d accepts server_id input)) _ s h in
      let inserted =
        insert_port_ok input (content s) (content u) id (doc.run_ok _ _ s id u asked) in
      let same : row ≡ returned id server_id input = ground arith in
      let after : t ≡ u = ap (λ (p : Result ListeningPort × State). p.1) (sym rest) in
      rw (after, same) inserted

  exists_port_ok :
      (id : ℤ) (c c' : PortTables) {a : Unit {0}}
      → exists_port d accepts server_id id c ≡ (ok a, c')
      → c'.ports ≡ c.ports
  exists_port_ok id c c' h = ground arith

  exists_port_missing :
      (id : ℤ) (c : PortTables)
      → (exists_port d accepts server_id id c).0 ≡ err not_found
      → any (is_port d accepts server_id id) c.ports ≡ false
  exists_port_missing id c h = ground arith

  confirm_ok :
      (id : ℤ) (n : ℕ) (s t : State) (a : Unit {0})
      → confirm d accepts server_id id n s ≡ (ok a, t)
      → (content t).ports ≡ (content s).ports
  confirm_ok id n s t a h = elim (Bool-cases (n == 0)) [
    | inl e ↦ exists_port_ok id (content s) (content t) (doc.run_ok _ _ s a t (rw e at h))
    | inr e ↦ ap (λ (p : Result (Unit {0}) × State). (content p.1).ports) (sym (rw e at h))
  ]

  update_port_ok :
      (id : ℤ) (input : ListeningPortInput) (c c' : PortTables) (n : ℕ)
      → update_port d accepts server_id id input c ≡ (ok n, c')
      → c'.ports ≡ update (changes d accepts server_id id input) (set_to d accepts input) c.ports
  unfolding update_port
  update_port_ok id input c c' n h = ground arith

  update_port_answers :
      (id : ℤ) (input : ListeningPortInput) (c : PortTables)
      → (update_port d accepts server_id id input c).0 ≡ err not_found
      → false ≡ true
  unfolding update_port
  update_port_answers id input c h = ground arith

  confirm_missing :
      (id : ℤ) (n : ℕ) (s t : State)
      → confirm d accepts server_id id n s ≡ (err not_found, t)
      → (any (is_port d accepts server_id id) (content t).ports ≡ false)
        × ((content t).ports ≡ (content s).ports)
  confirm_missing id n s t h = elim (Bool-cases (n == 0)) [
    | inr e ↦ absurd (ground arith)
    | inl e ↦ elim (doc.run_err _ _ s not_found t (rw e at h)) [
      | inl (kind, effect) ↦ elim kind [
        | inl e ↦ absurd (ground arith)
        | inr e ↦ absurd (ground arith)
      ]
      | inr (raised, same) ↦ (
        rw same (exists_port_missing id (content s) raised),
        ap (λ (c : PortTables). c.ports) same,
      )
    ]
  ]

  -- What a row's update leaves, where the row is there and where it is not.
  pub update_row_rows :
      (id : ℤ) (input : ListeningPortInput) (s t : State) (row : ListeningPort)
      → update_row d accepts server_id id input s ≡ (ok row, t)
      → (content t).ports
        ≡ update (changes d accepts server_id id input) (set_to d accepts input) (content s).ports
  unfolding update_row
  update_row_rows id input s t row h =
      let (n, u, asked, rest) =
        >>=-eq-ok (run ℕ (update_port d accepts server_id id input)) _ s h in
      let (a, v, confirmed, last) = >>=-eq-ok (confirm d accepts server_id id n) _ u rest in
      let after : t ≡ v = ap (λ (p : Result ListeningPort × State). p.1) (sym last) in
      ap (λ x. (content x).ports) after
      ∙ (confirm_ok id n u v a confirmed
          ∙ update_port_ok id input (content s) (content u) n (doc.run_ok _ _ s n u asked))

  pub update_row_missing :
      (id : ℤ) (input : ListeningPortInput) (s t : State)
      → update_row d accepts server_id id input s ≡ (err not_found, t)
      → ((content t).ports
          ≡ update
              (changes d accepts server_id id input)
              (set_to d accepts input)
              (content s).ports)
        × All (λ row. is_port d accepts server_id id row ≡ false) (content t).ports
  unfolding update_row
  update_row_missing id input s t h =
      elim (>>=-eq-err (run ℕ (update_port d accepts server_id id input)) _ s h) [
        | inl unanswered ↦ elim (doc.run_err _ _ s not_found t unanswered) [
          | inl (kind, effect) ↦ elim kind [
            | inl e ↦ absurd (ground arith)
            | inr e ↦ absurd (ground arith)
          ]
          | inr (raised, same) ↦ absurd (cc (update_port_answers id input (content s) raised))
        ]
        | inr (n, u, asked, rest) ↦ elim (>>=-eq-err (confirm d accepts server_id id n) _ u rest) [
          | inr (a, v, confirmed, last) ↦ absurd (ground arith)
          | inl missing ↦
              let (gone, same) = confirm_missing id n u t missing in
              (
                same
                    ∙ update_port_ok id input (content s) (content u) n
                        (doc.run_ok _ _ s n u asked),
                any_none _ (content t).ports gone,
              )
        ]
      ]
