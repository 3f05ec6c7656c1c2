-- ===== src/Examples/Ports.antt =====
-- A server with a duplicate of a port and a port that is no longer reported, beside another server.
use dorian_back_end.Prelude.{
  ◌≡◌, refl, Bool, true, false, none, some, List, [], ◌∷◌, ℤ, pos, All, keep, ◌++◌,
}
use dorian_back_end.Text.{Text, codes}
use dorian_back_end.Store.Database.{Database}
use dorian_back_end.Store.ListeningPorts.{
  ListeningPort, ListeningPortInput, PortTables, in_ids, of_server, create, update_row, delete,
  delete_batch,
}
use dorian_back_end.Store.ListeningPorts.Replace.{Key, in_keys, replace_by_server}
use dorian_back_end.Store.ListeningPorts.Isolation.{others, other_servers_untouched}
use dorian_back_end.Store.ListeningPorts.Reported.{replace_by_server_ok}
use dorian_back_end.Store.ListeningPorts.Reported.Keys.{InRange, Distinct, row_keys, is_reported}
use dorian_back_end.Store.ListeningPorts.Leftover.{no_row_left_over}
use dorian_back_end.Store.ListeningPorts.Leftover.Indexed.{ids_of}
use dorian_back_end.Examples.Servers.{memory_database, memory_database-IsDocumented}

abbrev db : Database PortTables
db = memory_database

abbrev anything : ListeningPort → List ListeningPort → Bool
anything row rows = true

abbrev row : ℤ → ℤ → ℤ → Text → ListeningPort
row id server_id port protocol = record {
  id = id;
  server_id = server_id;
  port = port;
  protocol = protocol;
  description = [];
  status = codes "ENABLE";
}

abbrev tables : PortTables
tables = record {
  ports =
      row (pos 1) (pos 1) (pos 80) (codes "HTTP")
      ∷ row (pos 2) (pos 1) (pos 80) (codes "http")
      ∷ row (pos 3) (pos 1) (pos 81) (codes "HTTP")
      ∷ row (pos 4) (pos 2) (pos 80) (codes "HTTP")
      ∷ [];
  servers = pos 1 ∷ pos 2 ∷ [];
  site_ports = pos 2 ∷ [];
  next_port_id = pos 5;
}

abbrev input : ℤ → Text → ListeningPortInput
input port protocol = record { port = port; protocol = protocol; description = []; status = [] }

abbrev reports : List ListeningPortInput
reports =
    input (pos 80) []
    ∷ input (pos 0) (codes "HTTP")
    ∷ input (pos 443) (codes " https")
    ∷ input (pos 80) (codes "HTTP")
    ∷ []

abbrev after : PortTables
after = (replace_by_server db anything (pos 1) reports tables).1

abbrev returned : List ListeningPort
returned =
    row (pos 2) (pos 1) (pos 80) (codes "HTTP") ∷ row (pos 5) (pos 1) (pos 443) (codes "HTTPS") ∷ []

replace_by_server_ok_example :
    All InRange returned
    × Distinct (row_keys returned)
    × ((k : Key) → in_keys k (row_keys returned) ≡ is_reported k reports)
unfolding replace_by_server dorian_back_end.Store.ListeningPorts.list_by_server
    dorian_back_end.Store.ListeningPorts.select_ports
    dorian_back_end.Store.ListeningPorts.Replace.referenced_ids
    dorian_back_end.Store.ListeningPorts.Replace.sync
    dorian_back_end.Store.ListeningPorts.Replace.normalize_input in_keys
    dorian_back_end.Store.ListeningPorts.Replace.upsert
    dorian_back_end.Store.ListeningPorts.Replace.lookup_key
    dorian_back_end.Store.ListeningPorts.Replace.index_rows
    dorian_back_end.Store.ListeningPorts.order_rows dorian_back_end.Store.ListeningPorts.insert_row
    dorian_back_end.Store.ListeningPorts.Replace.place dorian_back_end.Text.◌is◌
    dorian_back_end.Text.to_upper
    dorian_back_end.Store.ListeningPorts.Replace.normalize_listening_protocol
    dorian_back_end.Text.equal_fold dorian_back_end.Prelude.◌+ℤ◌
    dorian_back_end.Store.Database.count dorian_back_end.Store.Database.update
    dorian_back_end.Store.ListeningPorts.Replace.prefer
    dorian_back_end.Store.ListeningPorts.Replace.to_delete create delete_batch
    dorian_back_end.Store.ListeningPorts.delete_where in_ids
    dorian_back_end.Store.ListeningPorts.insert_port
    dorian_back_end.Store.ListeningPorts.unique_from
    dorian_back_end.Store.ListeningPorts.unique_int64
    dorian_back_end.Store.ListeningPorts.update_port update_row dorian_back_end.Text.Equal.fold_char
    dorian_back_end.Text.Equal.lower_char dorian_back_end.Text.Equal.upper_char
    dorian_back_end.Text.is_space dorian_back_end.Text.trim_left dorian_back_end.Text.trim_space
replace_by_server_ok_example =
    replace_by_server_ok db anything (pos 1) reports tables after returned refl

no_row_left_over_example :
    All
      (λ (r : ListeningPort).
        of_server db anything (pos 1) r ≡ true → in_ids r.id (ids_of returned) ≡ true)
      after.ports
unfolding replace_by_server dorian_back_end.Store.ListeningPorts.list_by_server
    dorian_back_end.Store.ListeningPorts.select_ports
    dorian_back_end.Store.ListeningPorts.Replace.referenced_ids
    dorian_back_end.Store.ListeningPorts.Replace.sync
    dorian_back_end.Store.ListeningPorts.Replace.normalize_input in_keys
    dorian_back_end.Store.ListeningPorts.Replace.upsert
    dorian_back_end.Store.ListeningPorts.Replace.lookup_key
    dorian_back_end.Store.ListeningPorts.Replace.index_rows
    dorian_back_end.Store.ListeningPorts.order_rows dorian_back_end.Store.ListeningPorts.insert_row
    dorian_back_end.Store.ListeningPorts.Replace.place dorian_back_end.Text.◌is◌
    dorian_back_end.Text.to_upper
    dorian_back_end.Store.ListeningPorts.Replace.normalize_listening_protocol
    dorian_back_end.Text.equal_fold dorian_back_end.Prelude.◌+ℤ◌
    dorian_back_end.Store.Database.count dorian_back_end.Store.Database.update
    dorian_back_end.Store.ListeningPorts.Replace.prefer
    dorian_back_end.Store.ListeningPorts.Replace.to_delete create delete_batch
    dorian_back_end.Store.ListeningPorts.delete_where in_ids
    dorian_back_end.Store.ListeningPorts.insert_port
    dorian_back_end.Store.ListeningPorts.unique_from
    dorian_back_end.Store.ListeningPorts.unique_int64
    dorian_back_end.Store.ListeningPorts.update_port update_row dorian_back_end.Text.Equal.fold_char
    dorian_back_end.Text.Equal.lower_char dorian_back_end.Text.Equal.upper_char
    dorian_back_end.Text.is_space dorian_back_end.Text.trim_left dorian_back_end.Text.trim_space
no_row_left_over_example =
    no_row_left_over db memory_database-IsDocumented anything (pos 1) reports tables after returned
      ((refl, (refl, (refl, (refl, tt)))), refl) refl

other_servers_untouched_example :
    let rest = others (pos 1) tables.ports in
    (others (pos 1) (create db anything (pos 1) (input (pos 90) []) tables).1.ports ≡ rest)
    × (others (pos 1) (update_row db anything (pos 1) (pos 4) (input (pos 90) []) tables).1.ports
        ≡ rest)
    × (others (pos 1) (delete db anything (pos 1) (pos 4) tables).1.ports ≡ rest)
    × (others (pos 1) (delete_batch db anything (pos 1) (pos 4 ∷ pos 1 ∷ []) tables).1.ports ≡ rest)
    × (others (pos 1) after.ports ≡ rest)
other_servers_untouched_example =
    other_servers_untouched db memory_database-IsDocumented anything (pos 1) (pos 4)
      (input (pos 90) []) (pos 4 ∷ pos 1 ∷ []) reports tables
