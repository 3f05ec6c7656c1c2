-- ===== src/Store/ListeningPorts/Replace.antt =====
-- internal/store/listening_ports.go: `ReplaceByServer`.
use dorian_back_end.Prelude.{
  Bool, true, false, not, ◌&&◌, ◌||◌, Option, none, some, List, [], ◌∷◌, ◌++◌, any, keep, map,
  if◌then◌else◌, ℤ, pos, eq_ℤ, ltb_ℤ, leb_ℤ,
}
use dorian_back_end.Text.{Text, codes, ◌is◌, trim_space, to_upper, equal_fold}
use dorian_back_end.Action.{Action, Result, ok, err, pure, raise, ◌>>=◌, ◌>>◌, not_found}
use dorian_back_end.Store.Database.{Database}
use dorian_back_end.Store.ListeningPorts.{
  ListeningPort, ListeningPortInput, PortTables, in_ids, of_server, list_by_server, create,
  update_row, delete_batch,
}

unfoldable pub normalize_listening_protocol : Text → Text
normalize_listening_protocol value =
    if equal_fold (trim_space value) (codes "HTTPS")
    then codes "HTTPS"
    else if equal_fold (trim_space value) (codes "HTTP")
    then codes "HTTP"
    else trim_space value

-- A port and a protocol in upper case.
abbrev pub Key : Type 0
Key = ℤ × Text

abbrev pub same_key : Key → Key → Bool
same_key (p, x) (q, y) = eq_ℤ p q && (x is y)

abbrev pub key_of : ListeningPort → Key
key_of row = (row.port, to_upper (normalize_listening_protocol row.protocol))

abbrev pub keyed : Key → ListeningPort → Bool
keyed k row = same_key (key_of row) k

-- `existingByKey`: its rows, each under its own key.
abbrev pub KeyMap : Type 0
KeyMap = List ListeningPort

unfoldable pub prefer : List ℤ → ListeningPort → ListeningPort → Bool
prefer referenced candidate current =
    let candidate_ref = in_ids candidate.id referenced in
    let current_ref = in_ids current.id referenced in
    if candidate_ref && not current_ref
    then true
    else if not candidate_ref && current_ref
    then false
    else ltb_ℤ candidate.id current.id

-- A row goes into the map, and the id of the row that loses to another goes to the duplicates.
unfoldable pub place : List ℤ → ListeningPort → KeyMap → KeyMap × List ℤ
place referenced row [] = (row ∷ [], [])
place referenced row (current ∷ m) =
    let (placed, duplicates) = place referenced row m in
    if keyed (key_of row) current
    then if prefer referenced row current
      then (row ∷ m, current.id ∷ [])
      else (current ∷ m, row.id ∷ [])
    else (current ∷ placed, duplicates)

-- The loop over the existing rows.
unfoldable pub index_rows : List ℤ → List ListeningPort → KeyMap × List ℤ → KeyMap × List ℤ
index_rows referenced [] (m, duplicates) = (m, duplicates)
index_rows referenced (row ∷ rows) (m, duplicates) =
    let (placed, more) = place referenced row m in
    index_rows referenced rows (placed, duplicates ++ more)

unfoldable pub lookup_key : Key → KeyMap → Option ListeningPort
lookup_key k [] = none
lookup_key k (row ∷ m) = if keyed k row then some row else lookup_key k m

abbrev pub or_default : Text → Text → Text
or_default value default = if value is [] then default else value

-- An input that is kept: its port is in range; protocol and status have their defaults.
unfoldable pub normalize_input : ListeningPortInput → Option ListeningPortInput
normalize_input input =
    if leb_ℤ input.port (pos 0) || ltb_ℤ (pos 65535) input.port
    then none
    else some (record {
      port = input.port;
      protocol = or_default (normalize_listening_protocol input.protocol) (codes "HTTP");
      description = trim_space input.description;
      status = or_default (trim_space input.status) (codes "ENABLE");
    })

abbrev pub input_key : ListeningPortInput → Key
input_key input = (input.port, to_upper input.protocol)

-- `desiredKeys`.
unfoldable pub in_keys : Key → List Key → Bool
in_keys k keys = any (λ other. same_key other k) keys

module _ (d : Database PortTables) (accepts : ListeningPort → List ListeningPort → Bool) where
  open d use {State, content, run}

  -- The ids of the server's rows that some site has selected.
  abbrev pub select_referenced : ℤ → PortTables → Result (List ℤ) × PortTables
  select_referenced server_id c = (
    ok (
        keep (λ id. any (λ row. eq_ℤ row.id id && of_server d accepts server_id row) c.ports)
          c.site_ports),
    c,
  )

  abbrev pub none_if_failed : Result (List ℤ) × State → Result (List ℤ) × State
  none_if_failed (ok ids, s) = (ok ids, s)
  none_if_failed (err e, s) = (ok [], s)

  -- A failure of this query is ignored.
  unfoldable pub referenced_ids : ℤ → Action State (List ℤ)
  referenced_ids server_id s = none_if_failed (run (List ℤ) (select_referenced server_id) s)

  -- A row that was deleted meanwhile is created.
  abbrev pub or_create :
      ℤ → ListeningPortInput → Result ListeningPort × State → Result ListeningPort × State
  or_create server_id input (ok row, s) = (ok row, s)
  or_create server_id input (err not_found, s) = create d accepts server_id input s
  or_create server_id input (err e, s) = (err e, s)

  unfoldable pub upsert : ℤ → KeyMap → ListeningPortInput → Action State ListeningPort
  upsert server_id m input s = elim (lookup_key (input_key input) m) [
    | none ↦ create d accepts server_id input s
    | some current ↦ or_create server_id input (update_row d accepts server_id current.id input s)
  ]

  -- The loop over the inputs, with `desiredKeys` and `out`.
  unfoldable pub sync :
      ℤ
      → KeyMap
      → List Key
      → List ListeningPort
      → List ListeningPortInput
      → Action State (List Key × List ListeningPort)
  sync server_id m seen out [] = pure (seen, out)
  sync server_id m seen out (input ∷ inputs) = elim (normalize_input input) [
    | none ↦ sync server_id m seen out inputs
    | some normalized ↦
        if in_keys (input_key normalized) seen
        then sync server_id m seen out inputs
        else upsert server_id m normalized >>= λ row.
            sync server_id m (input_key normalized ∷ seen) (out ++ (row ∷ [])) inputs
  ]

  -- `toDelete`: the order of a Go map is not fixed, and a DELETE … IN does not depend on it.
  unfoldable pub to_delete : KeyMap → List ℤ → List Key → List ℤ
  to_delete m duplicates desired =
      duplicates
      ++ map (λ (row : ListeningPort). row.id) (keep (λ row. not (in_keys (key_of row) desired)) m)

  abbrev pub clean_up :
      ℤ → KeyMap → List ℤ → List Key × List ListeningPort → Action State (List ListeningPort)
  clean_up server_id m duplicates (desired, out) = do
    delete_batch d accepts server_id (to_delete m duplicates desired)
    pure out

  abbrev pub replace_rows :
      ℤ → List ListeningPortInput → KeyMap × List ℤ → Action State (List ListeningPort)
  replace_rows server_id inputs (m, duplicates) =
      sync server_id m [] [] inputs >>= clean_up server_id m duplicates

  unfoldable pub replace_by_server : ℤ → List ListeningPortInput → Action State (List ListeningPort)
  replace_by_server server_id inputs = if eq_ℤ server_id (pos 0) then raise not_found else (do
    existing ← list_by_server d accepts server_id
    referenced ← referenced_ids server_id
    replace_rows server_id inputs (index_rows referenced existing ([], [])))
