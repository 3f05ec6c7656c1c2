-- ===== src/Remotesvc/BoundPorts/Listed.antt =====
-- The ports that `parseBoundPortsOutput` returns, and the records of the output.
use dorian_back_end.Prelude.{
  ℕ, zero, suc, ◌≡◌, refl, sym, ◌∙◌, ap, Bool, true, false, not, ◌&&◌, ◌||◌, Option, none, some,
  List, [], ◌∷◌, length, any, arith, ℤ, pos, eq_ℤ, eq_ℤ_iff, leb_ℤ, ltb_ℤ, either_branch,
  Bool-cases, inl, inr, if◌then◌else◌,
}
use dorian_back_end.Text.{Text, codes, ◌is◌, is_iff, trim_space, split, split2, parse_int}
use dorian_back_end.Remotesvc.BoundPorts.{
  BoundPort, Fields, field, set_field, or_empty, entry_at, entry_of, remember, remember_if, flush,
  read_field, read_line, read_lines, lower, sweep, sort_from, parse_bound_ports_output,
}

-- Whether an entry has the port.
abbrev pub is_listed : ℤ → List BoundPort → Bool
is_listed port ports = any (λ (entry : BoundPort). eq_ℤ port entry.port) ports

-- The part of a line before `=`, and the part after it, without spaces around them.
abbrev trimmed : Option (Text × Text) → Option (Text × Text)
trimmed none = none
trimmed (some (key, value)) = some (trim_space key, trim_space value)

abbrev value_at : Text → Option (Text × Text) → Text → Text
value_at key none earlier = earlier
value_at key (some (k, value)) earlier = if k is key then value else earlier

-- The value that the last line `key=value` gives the key, or the empty text. The lines stand from the
-- last to the first.
abbrev pub value_of : Text → List Text → Text
value_of key [] = []
value_of key (line ∷ lines) = value_at key (trimmed (split2 line b'=')) (value_of key lines)

abbrev is_number : ℤ → Option ℤ → Bool
is_number port none = false
is_number port (some n) = leb_ℤ (pos 1) n && leb_ℤ n (pos 65535) && eq_ℤ port n

-- Whether a record names the port: the text after `PORT=` is that number, and in range.
abbrev pub describes : ℤ → List Text → Bool
describes port lines = is_number port (parse_int (trim_space (value_of (codes "PORT") lines)))

-- The records of the output: the lines without spaces around them, cut at each line of three dashes. The
-- lines of a record stand from the last to the first; `lines` are those of the first record so far.
abbrev pub records : List Text → List Text → List (List Text)
records lines [] = lines ∷ []
records lines (line ∷ rest) =
    if trim_space line is codes "---"
    then lines ∷ records [] rest
    else records (trim_space line ∷ lines) rest

absorbed : (a b c l : Bool) → b ≡ c → a ≡ c → (a || l) ≡ ((b || l) || c)
absorbed a b c l h k = ground (arith, h, k)

or_false : (a : Bool) → (a || false) ≡ a
or_false true = refl
or_false false = refl

or_assoc : (a b c : Bool) → (a || (b || c)) ≡ ((a || b) || c)
or_assoc true b c = refl
or_assoc false b c = refl

is_listed-remember :
    (port : ℤ) (entry : BoundPort) (seen : List BoundPort)
    → is_listed port (remember entry seen) ≡ (is_listed port seen || eq_ℤ port entry.port)
unfolding remember
is_listed-remember port entry [] = ground arith
is_listed-remember port entry (existing ∷ seen) =
    let L = is_listed port seen in
    elim (Bool-cases (eq_ℤ existing.port entry.port)) [
      | inl e ↦
          let same = ap (eq_ℤ port) ((eq_ℤ_iff existing.port entry.port).0 e) in
          rw e (
            either_branch
              (λ l. is_listed port l ≡ ((eq_ℤ port existing.port || L) || eq_ℤ port entry.port))
              (not (entry.process is []) && (existing.process is []))
              (absorbed (eq_ℤ port entry.port) (eq_ℤ port existing.port) (eq_ℤ port entry.port) L
                same refl)
              (absorbed (eq_ℤ port existing.port) (eq_ℤ port existing.port) (eq_ℤ port entry.port) L
                same same))
      | inr e ↦ rw e (
          ap (λ b. eq_ℤ port existing.port || b) (is_listed-remember port entry seen)
          ∙ or_assoc (eq_ℤ port existing.port) L (eq_ℤ port entry.port))
    ]

-- `current` holds what the lines of the record give its keys.
abbrev Holds : Option Fields → List Text → Type 0
Holds current lines = (key : Text) → field key (or_empty current) ≡ value_of key lines

is_sym : (x y : Text) → (x is y) ≡ (y is x)
is_sym x y = ground (arith, (is_iff x y).0, (is_iff x y).1, (is_iff y x).0, (is_iff y x).1)

field-set_field :
    (key k : Text) (value : Text) (fields : Fields)
    → field key (set_field k value fields) ≡ (if k is key then value else field key fields)
unfolding field set_field
field-set_field key k value [] = refl
field-set_field key k value ((j, v) ∷ fields) = elim (Bool-cases (j is k)) [
  | inl e ↦
      let same = (is_iff j k).0 e in
      elim (Bool-cases (k is key)) [
        | inl here ↦ rw (e, here) refl
        | inr other ↦ let too : (j is key) ≡ false = rw same other in rw (e, other, too) refl
      ]
  | inr e ↦ elim (Bool-cases (j is key)) [
    | inl here ↦
        let same = (is_iff j key).0 here in
        let apart : (k is key) ≡ false = rw (← same) (is_sym k j ∙ e) in rw (e, here, apart) refl
    | inr other ↦ rw (e, other) (field-set_field key k value fields)
  ]
]

-- A line that is no separator adds what it says to the fields, and leaves `seen` alone.
read_field-Holds :
    (current : Option Fields) (seen : List BoundPort) (lines : List Text) (f : Option (Text × Text))
    → Holds current lines
    → ((read_field (current, seen) f).1 ≡ seen)
      × ((key : Text)
          → field key (or_empty (read_field (current, seen) f).0)
            ≡ value_at key (trimmed f) (value_of key lines))
read_field-Holds current seen lines none holds = (refl, holds)
read_field-Holds current seen lines (some (k, value)) holds = (
  refl,
  λ key.
      field-set_field key (trim_space k) (trim_space value) (or_empty current)
      ∙ ap (λ v. if trim_space k is key then trim_space value else v) (holds key),
)

split2-nil : (line : Text) → (line is []) ≡ true → split2 line b'=' ≡ none
unfolding ◌is◌ split2
split2-nil [] h = refl
split2-nil (c ∷ line) h = absurd (ground arith)

read_line-Holds :
    (current : Option Fields) (seen : List BoundPort) (lines : List Text) (line : Text)
    → (line is codes "---") ≡ false
    → Holds current lines
    → ((read_line (current, seen) line).1 ≡ seen)
      × Holds (read_line (current, seen) line).0 (line ∷ lines)
unfolding read_line
read_line-Holds current seen lines line other holds = elim (Bool-cases (line is [])) [
  | inl e ↦ rw e (refl, λ key. rw (split2-nil line e) (holds key))
  | inr e ↦ rw (e, other) (read_field-Holds current seen lines (split2 line b'=') holds)
]

is_number-entry_at :
    (port : ℤ) (fields : Fields) (n : Option ℤ) (seen : List BoundPort)
    → is_listed port (remember_if (entry_at fields n) seen)
      ≡ (is_listed port seen || is_number port n)
is_number-entry_at port fields none seen = sym (or_false (is_listed port seen))
is_number-entry_at port fields (some n) seen =
    elim (Bool-cases (ltb_ℤ n (pos 1) || ltb_ℤ (pos 65535) n)) [
      | inl out ↦
          let low : (leb_ℤ (pos 1) n && leb_ℤ n (pos 65535)) ≡ false = ground arith in
          rw (out, low) (sym (or_false (is_listed port seen)))
      | inr within ↦
          let fits : (leb_ℤ (pos 1) n && leb_ℤ n (pos 65535)) ≡ true = ground arith in
          rw (within, fits) (is_listed-remember port _ seen)
    ]

is_listed-flush :
    (port : ℤ) (current : Option Fields) (seen : List BoundPort) (lines : List Text)
    → Holds current lines
    → is_listed port (flush current seen) ≡ (is_listed port seen || describes port lines)
unfolding flush entry_of field parse_int trim_space
is_listed-flush port none seen lines holds =
    rw (← holds (codes "PORT")) (sym (or_false (is_listed port seen)))
is_listed-flush port (some fields) seen lines holds =
    rw (← holds (codes "PORT"))
      (is_number-entry_at port fields (parse_int (trim_space (field (codes "PORT") fields))) seen)

read_line-dashes :
    (current : Option Fields) (seen : List BoundPort) (line : Text)
    → (line is codes "---") ≡ true
    → read_line (current, seen) line ≡ (none, flush current seen)
unfolding read_line ◌is◌
read_line-dashes current seen [] h = absurd (ground arith)
read_line-dashes current seen (c ∷ line) h = rw h refl

is_listed-read_lines :
    (port : ℤ) (current : Option Fields) (seen : List BoundPort) (lines rest : List Text)
    → Holds current lines
    → is_listed port (read_lines (current, seen) rest)
      ≡ (is_listed port seen || any (describes port) (records lines rest))
unfolding read_lines
is_listed-read_lines port current seen lines [] holds =
    is_listed-flush port current seen lines holds
    ∙ ap (λ b. is_listed port seen || b) (sym (or_false (describes port lines)))
is_listed-read_lines port current seen lines (line ∷ rest) holds =
    let t = trim_space line in
    elim (Bool-cases (t is codes "---")) [
      | inl e ↦
          rw (e, read_line-dashes current seen t e)
            (is_listed-read_lines port none (flush current seen) [] rest
                (λ key. unfold field in refl)
              ∙ ap (λ b. b || any (describes port) (records [] rest))
                  (is_listed-flush port current seen lines holds)
              ∙ sym (
                  or_assoc (is_listed port seen) (describes port lines)
                    (any (describes port) (records [] rest))))
      | inr e ↦
          let (kept, more) = read_line-Holds current seen lines t e holds in
          rw e (
            is_listed-read_lines port (read_line (current, seen) t).0
              (read_line (current, seen) t).1 (t ∷ lines) rest more
            ∙ ap (λ s. is_listed port s || any (describes port) (records (t ∷ lines) rest)) kept)
    ]

is_listed-sweep :
    (port : ℤ) (x : BoundPort) (ys : List BoundPort)
    → (eq_ℤ port (sweep x ys).0.port || is_listed port (sweep x ys).1)
      ≡ (eq_ℤ port x.port || is_listed port ys)
unfolding sweep
is_listed-sweep port x [] = refl
is_listed-sweep port x (y ∷ ys) = ground (arith, is_listed-sweep port (lower x y) ys)

is_listed-sort_from :
    (port : ℤ) (n : ℕ) (ports : List BoundPort)
    → is_listed port (sort_from n ports) ≡ is_listed port ports
unfolding sort_from
is_listed-sort_from port zero ports = refl
is_listed-sort_from port (suc n) [] = refl
is_listed-sort_from port (suc n) (x ∷ xs) =
    let rest = is_listed-sort_from port n (sweep x xs).1 in
    ap (λ b. eq_ℤ port (sweep x xs).0.port || b) rest ∙ is_listed-sweep port x xs

-- A port is returned exactly where some record of the output names it: the number after its last `PORT=`
-- is the port, and in range. A record is the lines up to the next line of three dashes, or up to the end.
pub is_listed-parse_bound_ports_output :
    (raw : Text) (port : ℤ)
    → is_listed port (parse_bound_ports_output raw)
      ≡ any (describes port) (records [] (split raw b'\n'))
unfolding parse_bound_ports_output
is_listed-parse_bound_ports_output raw port =
    let seen = read_lines (none, []) (split raw b'\n') in
    is_listed-sort_from port (length seen) seen
    ∙ is_listed-read_lines port none [] [] (split raw b'\n') (λ key. unfold field in refl)
