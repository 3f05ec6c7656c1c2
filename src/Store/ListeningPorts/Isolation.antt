-- ===== src/Store/ListeningPorts/Isolation.antt =====
-- Operations on the ports of a server, and the rows of the other servers.
use dorian_back_end.Prelude.{
  ◌≡◌, refl, ◌∙◌, Bool, true, not, List, [], ◌∷◌, keep, arith, ℤ, eq_ℤ, Bool-cases, inl, inr,
}
use dorian_back_end.Store.Database.{Database, IsDocumented, update}
use dorian_back_end.Store.Preserves.{run-Preserves}
use dorian_back_end.Store.ListeningPorts.{
  ListeningPort, ListeningPortInput, PortTables, insert_port, create, is_port, set_to, changes,
  accepted_update, update_port, update_row, delete_where, delete, delete_batch,
}
use dorian_back_end.Store.ListeningPorts.Steps.{
  create-Preserves, update_row-Preserves, delete_batch-Preserves, replace_by_server-Preserves,
}
use dorian_back_end.Store.ListeningPorts.Replace.{replace_by_server}

-- The rows of the other servers.
unfoldable pub others : ℤ → List ListeningPort → List ListeningPort
others server_id rows = keep (λ row. not (eq_ℤ row.server_id server_id)) rows

module _ (server_id : ℤ) where
  others-update :
      (p : ListeningPort → Bool) (f : ListeningPort → ListeningPort) (rows : List ListeningPort)
      → ((row : ListeningPort) → p row ≡ true → eq_ℤ row.server_id server_id ≡ true)
      → ((row : ListeningPort) → eq_ℤ (f row).server_id server_id ≡ eq_ℤ row.server_id server_id)
      → others server_id (update p f rows) ≡ others server_id rows
  unfolding others update
  others-update p f [] own keeps = refl
  others-update p f (row ∷ rows) own keeps =
      ground (arith, own row, keeps row, others-update p f rows own keeps)

  others-keep :
      (p : ListeningPort → Bool) (rows : List ListeningPort)
      → ((row : ListeningPort) → p row ≡ true → eq_ℤ row.server_id server_id ≡ true)
      → others server_id (keep (λ row. not (p row)) rows) ≡ others server_id rows
  unfolding others
  others-keep p [] own = refl
  others-keep p (row ∷ rows) own = ground (arith, own row, others-keep p rows own)

module _ (d : Database PortTables) (doc : IsDocumented d)
    (accepts : ListeningPort → List ListeningPort → Bool) (server_id : ℤ)
    (R : List ListeningPort) where
  open d use {State, content, run}

  abbrev Kept : PortTables → Type 0
  Kept c = others server_id c.ports ≡ R

  insert_port-Kept :
      (input : ListeningPortInput) (c : PortTables)
      → Kept c
      → Kept (insert_port d accepts server_id input c).1
  unfolding insert_port others
  insert_port-Kept input c p = ground (arith, p)

  update_port-Kept :
      (id : ℤ) (input : ListeningPortInput) (c : PortTables)
      → Kept c
      → Kept (update_port d accepts server_id id input c).1
  unfolding update_port
  update_port-Kept id input c p =
      let same =
        others-update server_id (changes d accepts server_id id input) (set_to d accepts input)
          c.ports (λ row h. ground arith) (λ row. refl) in
      elim (Bool-cases (accepted_update d accepts server_id id input c.ports)) [
        | inl e ↦ rw e (same ∙ p)
        | inr e ↦ rw e p
      ]

  delete_where-Kept :
      (p : ListeningPort → Bool) (c : PortTables)
      → ((row : ListeningPort) → p row ≡ true → eq_ℤ row.server_id server_id ≡ true)
      → Kept c
      → Kept (delete_where d accepts p c).1
  unfolding delete_where
  delete_where-Kept p c own k = others-keep server_id p c.ports own ∙ k

module _ (d : Database PortTables) (doc : IsDocumented d)
    (accepts : ListeningPort → List ListeningPort → Bool) where
  open d use {State, content}

  -- No operation on the ports of a server changes, adds or removes a row of another server, whatever the
  -- outcome is, also where the server of the database fails in the middle.
  pub other_servers_untouched :
      (server_id id : ℤ) (input : ListeningPortInput) (ids : List ℤ)
      (inputs : List ListeningPortInput) (s : State)
      → let rest = others server_id (content s).ports in
        (others server_id (content (create d accepts server_id input s).1).ports ≡ rest)
        × (others server_id (content (update_row d accepts server_id id input s).1).ports ≡ rest)
        × (others server_id (content (delete d accepts server_id id s).1).ports ≡ rest)
        × (others server_id (content (delete_batch d accepts server_id ids s).1).ports ≡ rest)
        × (others server_id (content (replace_by_server d accepts server_id inputs s).1).ports
            ≡ rest)
  unfolding delete
  other_servers_untouched server_id id input ids inputs s =
      let R = others server_id (content s).ports in
      let K = Kept d doc accepts server_id R in
      let inserts = insert_port-Kept d doc accepts server_id R in
      let updates = update_port-Kept d doc accepts server_id R in
      let deletes = delete_where-Kept d doc accepts server_id R in
      (
        create-Preserves d doc accepts server_id K inserts updates deletes input s refl,
        update_row-Preserves d doc accepts server_id K inserts updates deletes id input s refl,
        run-Preserves d doc K (Unit {0}) (delete_where d accepts (is_port d accepts server_id id))
            (λ c. deletes (is_port d accepts server_id id) c (λ row h. ground arith)) s refl,
        delete_batch-Preserves d doc accepts server_id K inserts updates deletes ids s refl,
        replace_by_server-Preserves d doc accepts server_id K inserts updates deletes inputs s refl,
      )
