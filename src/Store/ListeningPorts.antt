-- ===== src/Store/ListeningPorts.antt =====
-- internal/store/listening_ports.go: the ports on which an edge server listens, and their replacement by
-- what an edge reports. A NULL protocol or status is the empty text, as it is read.
pub mod Replace
pub mod Steps
pub mod Isolation
pub mod Reported
pub mod Leftover
use dorian_back_end.Prelude.{
  ℕ, ◌+◌, ◌≡◌, Bool, true, false, not, ◌&&◌, ◌||◌, Option, none, some, List, [], ◌∷◌, ◌++◌, any,
  keep, map, ◌==◌, if◌then◌else◌, ℤ, pos, eq_ℤ, ltb_ℤ, ◌+ℤ◌,
}
use dorian_back_end.Text.{Text, codes, ◌is◌, trim_space, to_upper, equal_fold}
use dorian_back_end.Action.{Action, Result, ok, err, pure, raise, ◌>>=◌, ◌>>◌, not_found, failed}
use dorian_back_end.Store.Database.{Database, update, count}

pub record ListeningPort : Type 0 where
  pub id : ℤ
  pub server_id : ℤ
  pub port : ℤ
  pub protocol : Text
  pub description : Text
  pub status : Text

pub record ListeningPortInput : Type 0 where
  pub port : ℤ
  pub protocol : Text
  pub description : Text
  pub status : Text

-- `listening_ports` with its AUTO_INCREMENT, the ids of `servers`, and the column `listening_port_id` of
-- `site_listening_ports`.
pub record PortTables : Type 0 where
  pub ports : List ListeningPort
  pub servers : List ℤ
  pub site_ports : List ℤ
  pub next_port_id : ℤ

unfoldable pub in_ids : ℤ → List ℤ → Bool
in_ids id ids = any (λ other. eq_ℤ other id) ids

-- `uniqueInt64`: without 0, each once; `seen` are those before.
unfoldable pub unique_from : List ℤ → List ℤ → List ℤ
unfolding in_ids
unique_from seen [] = []
unique_from seen (id ∷ ids) =
    let skipped = unique_from seen ids in
    let kept = unique_from (id ∷ seen) ids in
    if eq_ℤ id (pos 0) then skipped else if in_ids id seen then skipped else id ∷ kept

unfoldable pub unique_int64 : List ℤ → List ℤ
unique_int64 ids = unique_from [] ids

-- ORDER BY port ASC, id DESC.
abbrev pub comes_before : ListeningPort → ListeningPort → Bool
comes_before a b = ltb_ℤ a.port b.port || (eq_ℤ a.port b.port && ltb_ℤ b.id a.id)

unfoldable pub insert_row : ListeningPort → List ListeningPort → List ListeningPort
insert_row row [] = row ∷ []
insert_row row (other ∷ rows) =
    let rest = insert_row row rows in
    if comes_before other row then other ∷ rest else row ∷ other ∷ rows

unfoldable pub order_rows : List ListeningPort → List ListeningPort
order_rows [] = []
order_rows (row ∷ rows) = insert_row row (order_rows rows)

-- The row that an INSERT or an UPDATE stores for an input.
abbrev pub stored_row : ℤ → ℤ → ListeningPortInput → ListeningPort
stored_row id server_id input = record {
  id = id;
  server_id = server_id;
  port = input.port;
  protocol = trim_space input.protocol;
  description = input.description;
  status = trim_space input.status;
}

-- The row that the store returns.
abbrev pub returned : ℤ → ℤ → ListeningPortInput → ListeningPort
returned id server_id input = record {
  id = id;
  server_id = server_id;
  port = input.port;
  protocol = input.protocol;
  description = input.description;
  status = input.status;
}

abbrev pub same_values : ListeningPort → ListeningPort → Bool
same_values a b =
    eq_ℤ a.port b.port
    && (a.protocol is b.protocol)
    && (a.description is b.description)
    && (a.status is b.status)

-- `accepts row rows` is what the schema demands of a row that joins the rows: its types, and the key on
-- server, port and protocol.
module _ (d : Database PortTables) (accepts : ListeningPort → List ListeningPort → Bool) where
  open d use {State, content, run}

  abbrev pub of_server : ℤ → ListeningPort → Bool
  of_server server_id row = eq_ℤ row.server_id server_id

  unfoldable pub select_ports : ℤ → PortTables → Result (List ListeningPort) × PortTables
  select_ports server_id c = (ok (order_rows (keep (of_server server_id) c.ports)), c)

  unfoldable pub list_by_server : ℤ → Action State (List ListeningPort)
  list_by_server server_id = run (List ListeningPort) (select_ports server_id)

  -- The foreign key on `servers` makes a missing server `errNotFound`.
  unfoldable pub insert_port : ℤ → ListeningPortInput → PortTables → Result ℤ × PortTables
  insert_port server_id input c =
      let row = stored_row c.next_port_id server_id input in
      if not (in_ids server_id c.servers)
      then (err not_found, c)
      else if not (accepts row c.ports)
      then (err failed, c)
      else (
        ok c.next_port_id,
        record c { ports = row ∷ c.ports; next_port_id = c.next_port_id +ℤ pos 1 },
      )

  unfoldable pub create : ℤ → ListeningPortInput → Action State ListeningPort
  create server_id input = do
    id ← run ℤ (insert_port server_id input)
    pure (returned id server_id input)

  -- WHERE id = ? AND server_id = ?
  abbrev pub is_port : ℤ → ℤ → ListeningPort → Bool
  is_port server_id id row = eq_ℤ row.id id && of_server server_id row

  abbrev pub set_to : ListeningPortInput → ListeningPort → ListeningPort
  set_to input row = stored_row row.id row.server_id input

  -- MySQL counts the rows whose values change.
  abbrev pub changes : ℤ → ℤ → ListeningPortInput → ListeningPort → Bool
  changes server_id id input row =
      is_port server_id id row && not (same_values row (set_to input row))

  -- Whether the schema takes every row that the UPDATE changes, beside the others.
  abbrev pub accepted_update : ℤ → ℤ → ListeningPortInput → List ListeningPort → Bool
  accepted_update server_id id input rows = not (
      any
        (λ row.
          changes server_id id input row
          && not (accepts (set_to input row) (keep (λ other. not (eq_ℤ other.id row.id)) rows)))
        rows)

  unfoldable pub update_port : ℤ → ℤ → ListeningPortInput → PortTables → Result ℕ × PortTables
  update_port server_id id input c =
      if accepted_update server_id id input c.ports
      then (
        ok (count (changes server_id id input) c.ports),
        record c { ports = update (changes server_id id input) (set_to input) c.ports },
      )
      else (err failed, c)

  -- SELECT 1 FROM listening_ports WHERE id = ? AND server_id = ?
  abbrev pub exists_port : ℤ → ℤ → PortTables → Result (Unit {0}) × PortTables
  exists_port server_id id c =
      if any (is_port server_id id) c.ports then (ok tt, c) else (err not_found, c)

  abbrev pub confirm : ℤ → ℤ → ℕ → Action State (Unit {0})
  confirm server_id id affected =
      if affected == 0 then run (Unit {0}) (exists_port server_id id) else pure tt

  unfoldable pub update_row : ℤ → ℤ → ListeningPortInput → Action State ListeningPort
  update_row server_id id input = do
    affected ← run ℕ (update_port server_id id input)
    confirm server_id id affected
    pure (returned id server_id input)

  -- DELETE; the rows of `site_listening_ports` that refer to a deleted row go with it.
  unfoldable pub delete_where : (ListeningPort → Bool) → PortTables → Result (Unit {0}) × PortTables
  delete_where p c =
      let gone = map (λ (row : ListeningPort). row.id) (keep p c.ports) in
      (
        ok tt,
        record c {
          ports = keep (λ row. not (p row)) c.ports;
          site_ports = keep (λ id. not (in_ids id gone)) c.site_ports;
        },
      )

  unfoldable pub delete : ℤ → ℤ → Action State (Unit {0})
  delete server_id id = run (Unit {0}) (delete_where (is_port server_id id))

  abbrev pub listed : ℤ → List ℤ → ListeningPort → Bool
  listed server_id ids row = in_ids row.id ids && of_server server_id row

  -- No ids, no statement.
  abbrev pub delete_ids : ℤ → List ℤ → Action State (Unit {0})
  delete_ids server_id [] = pure tt
  delete_ids server_id (id ∷ rest) = run (Unit {0}) (delete_where (listed server_id (id ∷ rest)))

  unfoldable pub delete_batch : ℤ → List ℤ → Action State (Unit {0})
  delete_batch server_id ids = delete_ids server_id (unique_int64 ids)
