-- ===== src/Remotesvc/BoundPorts.antt =====
-- internal/remotesvc/bound_ports.go: the listening TCP ports in the output of a script that runs on a
-- remote host. A Go map is an association list.
pub mod Sorted
pub mod Listed
use dorian_back_end.Prelude.{
  ℕ, zero, suc, Bool, true, false, not, ◌&&◌, ◌||◌, Option, none, some, List, [], ◌∷◌, length,
  if◌then◌else◌, ℤ, pos, eq_ℤ, ltb_ℤ,
}
use dorian_back_end.Text.{Text, codes, ◌is◌, trim_space, split, split2, parse_int}

pub record BoundPort : Type 0 where
  pub port : ℤ
  pub address : Text
  pub process : Text

-- `current`: the fields of the record that is being read.
abbrev pub Fields : Type 0
Fields = List (Text × Text)

unfoldable pub field : Text → Fields → Text
field key [] = []
field key ((k, v) ∷ fields) = if k is key then v else field key fields

unfoldable pub set_field : Text → Text → Fields → Fields
set_field key value [] = (key, value) ∷ []
set_field key value ((k, v) ∷ fields) =
    let rest = set_field key value fields in
    if k is key then (key, value) ∷ fields else (k, v) ∷ rest

abbrev pub or_any : Text → Text
or_any address = if address is [] then codes "*" else address

abbrev pub entry_at : Fields → Option ℤ → Option BoundPort
entry_at fields none = none
entry_at fields (some port) =
    if ltb_ℤ port (pos 1) || ltb_ℤ (pos 65535) port
    then none
    else some (record {
      port = port;
      address = or_any (trim_space (field (codes "ADDR") fields));
      process = trim_space (field (codes "PROC") fields);
    })

unfoldable pub entry_of : Fields → Option BoundPort
entry_of fields = entry_at fields (parse_int (trim_space (field (codes "PORT") fields)))

-- An entry goes into the map where its port is new, or where it alone names the process.
unfoldable pub remember : BoundPort → List BoundPort → List BoundPort
remember entry [] = entry ∷ []
remember entry (existing ∷ seen) =
    let rest = remember entry seen in
    if eq_ℤ existing.port entry.port
    then (if not (entry.process is []) && (existing.process is [])
        then entry ∷ seen
        else existing ∷ seen)
    else existing ∷ rest

abbrev pub remember_if : Option BoundPort → List BoundPort → List BoundPort
remember_if none seen = seen
remember_if (some entry) seen = remember entry seen

unfoldable pub flush : Option Fields → List BoundPort → List BoundPort
flush none seen = seen
flush (some fields) seen = remember_if (entry_of fields) seen

-- `current` and `seen`.
abbrev pub Reading : Type 0
Reading = Option Fields × List BoundPort

abbrev pub or_empty : Option Fields → Fields
or_empty none = []
or_empty (some fields) = fields

abbrev pub read_field : Reading → Option (Text × Text) → Reading
read_field (current, seen) none = (current, seen)
read_field (current, seen) (some (key, value)) =
    (some (set_field (trim_space key) (trim_space value) (or_empty current)), seen)

-- One line, without the spaces around it.
unfoldable pub read_line : Reading → Text → Reading
read_line (current, seen) line =
    if line is []
    then (current, seen)
    else if line is codes "---"
    then (none, flush current seen)
    else read_field (current, seen) (split2 line b'=')

unfoldable pub read_lines : Reading → List Text → List BoundPort
read_lines (current, seen) [] = flush current seen
read_lines reading (line ∷ lines) = read_lines (read_line reading (trim_space line)) lines

-- `ports[i]` and `ports[j]` after their comparison.
abbrev pub lower : BoundPort → BoundPort → BoundPort
lower x y = if ltb_ℤ y.port x.port then y else x

abbrev pub higher : BoundPort → BoundPort → BoundPort
higher x y = if ltb_ℤ y.port x.port then x else y

-- The inner loop: `ports[i]` and the ports behind it, with its value before the loop.
unfoldable pub sweep : BoundPort → List BoundPort → BoundPort × List BoundPort
sweep x [] = (x, [])
sweep x (y ∷ ys) = let (least, rest) = sweep (lower x y) ys in (least, higher x y ∷ rest)

-- The outer loop, with the number of positions that are left.
unfoldable pub sort_from : ℕ → List BoundPort → List BoundPort
sort_from zero ports = ports
sort_from (suc n) [] = []
sort_from (suc n) (x ∷ xs) = let (least, rest) = sweep x xs in least ∷ sort_from n rest

unfoldable pub parse_bound_ports_output : Text → List BoundPort
parse_bound_ports_output raw =
    let seen = read_lines (none, []) (split raw b'\n') in sort_from (length seen) seen
