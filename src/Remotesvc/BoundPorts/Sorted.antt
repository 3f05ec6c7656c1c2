-- ===== src/Remotesvc/BoundPorts/Sorted.antt =====
-- The list that `parseBoundPortsOutput` returns.
use dorian_back_end.Prelude.{
  ℕ, zero, suc, ◌≡◌, refl, sym, subst, ap, true, false, Option, none, some, List, [], ◌∷◌, length,
  All, All-weaken, either_branch, Bool-cases, not, ◌&&◌, arith, ℤ, pos, eq_ℤ, ltb_ℤ, ◌≤ℤ◌, ◌<ℤ◌,
  Option-cases, inl, inr,
}
use dorian_back_end.Text.{Text, codes, ◌is◌, trim_space, split, split2, parse_int}
use dorian_back_end.Remotesvc.BoundPorts.{
  BoundPort, Fields, Reading, field, entry_at, entry_of, remember, flush, read_field, read_line,
  read_lines, or_any, lower, higher, sweep, sort_from, parse_bound_ports_output,
}

abbrev pub IsListening : BoundPort → Type 0
IsListening entry =
    (pos 1 ≤ℤ entry.port) × (entry.port ≤ℤ pos 65535) × ((entry.address is []) ≡ false)

abbrev Apart : ℤ → List BoundPort → Type 0
Apart port ports = All (λ (entry : BoundPort). eq_ℤ port entry.port ≡ false) ports

abbrev Distinct : List BoundPort → Type 0
Distinct [] = Unit
Distinct (entry ∷ ports) = Apart entry.port ports × Distinct ports

-- The ports rise from one entry to the next.
abbrev pub Rising : List BoundPort → Type 0
Rising [] = Unit
Rising (entry ∷ ports) = All (λ (other : BoundPort). entry.port <ℤ other.port) ports × Rising ports

remember-All :
    (P : BoundPort → Type 0) (entry : BoundPort) (seen : List BoundPort)
    → P entry
    → All P seen
    → All P (remember entry seen)
unfolding remember
remember-All P entry [] p all = (p, tt)
remember-All P entry (existing ∷ seen) p (q, all) =
    let rest = remember-All P entry seen p all in
    either_branch (All P) (eq_ℤ existing.port entry.port)
      (either_branch (All P) (not (entry.process is []) && (existing.process is [])) (p, all)
        (q, all))
      (q, rest)

Apart-same : (p q : ℤ) (ports : List BoundPort) → eq_ℤ p q ≡ true → Apart p ports → Apart q ports
Apart-same p q ports same =
    All-weaken (λ (entry : BoundPort). eq_ℤ p entry.port ≡ false)
      (λ (entry : BoundPort). eq_ℤ q entry.port ≡ false) ports (λ entry apart. ground arith)

remember-Distinct :
    (entry : BoundPort) (seen : List BoundPort) → Distinct seen → Distinct (remember entry seen)
unfolding remember
remember-Distinct entry [] distinct = (tt, tt)
remember-Distinct entry (existing ∷ seen) (apart, distinct) =
    elim (Bool-cases (eq_ℤ existing.port entry.port)) [
      | inl same ↦ rw same (
          either_branch Distinct (not (entry.process is []) && (existing.process is []))
            (Apart-same existing.port entry.port seen same apart, distinct) (apart, distinct))
      | inr other ↦ rw other (
        remember-All (λ (e : BoundPort). eq_ℤ existing.port e.port ≡ false) entry seen other apart,
        remember-Distinct entry seen distinct,
      )
    ]

-- What the map holds.
abbrev Held : List BoundPort → Type 0
Held seen = All IsListening seen × Distinct seen

or_any-some : (address : Text) → (or_any address is []) ≡ false
unfolding ◌is◌
or_any-some [] = refl
or_any-some (c ∷ address) = refl

entry_at-IsListening :
    (fields : Fields) (port : Option ℤ) (entry : BoundPort)
    → entry_at fields port ≡ some entry
    → IsListening entry
entry_at-IsListening fields none entry h = absurd (ground arith)
entry_at-IsListening fields (some port) entry h =
    ground (arith, or_any-some (trim_space (field (codes "ADDR") fields)))

entry_of-IsListening :
    (fields : Fields) (entry : BoundPort) → entry_of fields ≡ some entry → IsListening entry
unfolding entry_of
entry_of-IsListening fields entry h =
    entry_at-IsListening fields (parse_int (trim_space (field (codes "PORT") fields))) entry h

flush-Held :
    (current : Option Fields) (seen : List BoundPort) → Held seen → Held (flush current seen)
unfolding flush
flush-Held none seen held = held
flush-Held (some fields) seen held = elim (Option-cases (entry_of fields)) [
  | inl e ↦ rw e held
  | inr (entry, e) ↦ rw e (
    remember-All IsListening entry seen (entry_of-IsListening fields entry e) held.0,
    remember-Distinct entry seen held.1,
  )
]

read_field-seen :
    (reading : Reading) (f : Option (Text × Text)) → (read_field reading f).1 ≡ reading.1
read_field-seen (current, seen) none = refl
read_field-seen (current, seen) (some (key, value)) = refl

read_line-Held :
    (reading : Reading) (line : Text) → Held reading.1 → Held (read_line reading line).1
unfolding read_line
read_line-Held (current, seen) line held =
    let kept = subst Held (sym (read_field-seen (current, seen) (split2 line b'='))) held in
    either_branch (λ (r : Reading). Held r.1) (line is []) held
      (either_branch (λ (r : Reading). Held r.1) (line is codes "---")
        (flush-Held current seen held) kept)

read_lines-Held :
    (reading : Reading) (lines : List Text) → Held reading.1 → Held (read_lines reading lines)
unfolding read_lines
read_lines-Held (current, seen) [] held = flush-Held current seen held
read_lines-Held (current, seen) (line ∷ lines) held =
    read_lines-Held (read_line (current, seen) (trim_space line)) lines
      (read_line-Held (current, seen) (trim_space line) held)

sweep-length : (x : BoundPort) (ys : List BoundPort) → length (sweep x ys).1 ≡ length ys
unfolding sweep
sweep-length x [] = refl
sweep-length x (y ∷ ys) = ap (λ n. suc n) (sweep-length (lower x y) ys)

sweep-All :
    (P : BoundPort → Type 0) (x : BoundPort) (ys : List BoundPort)
    → P x
    → All P ys
    → P (sweep x ys).0 × All P (sweep x ys).1
unfolding sweep
sweep-All P x [] p all = (p, tt)
sweep-All P x (y ∷ ys) p (q, all) =
    let (least, rest) =
      sweep-All P (lower x y) ys (either_branch P (ltb_ℤ y.port x.port) q p) all in
    (least, (either_branch P (ltb_ℤ y.port x.port) p q, rest))

-- The entry that is swept to the front has the least port of all.
abbrev Swept : BoundPort → BoundPort × List BoundPort → Type 0
Swept x (least, rest) =
    (least.port ≤ℤ x.port)
    × All (λ (other : BoundPort). least.port <ℤ other.port) rest
    × Distinct rest

-- One comparison, after which the lower port is swept on through `ys`.
both_ways :
    (x y : BoundPort) (ys : List BoundPort)
    → eq_ℤ x.port y.port ≡ false
    → Apart x.port ys
    → Apart y.port ys
    → Swept (lower x y) (sweep (lower x y) ys)
    → Swept x ((sweep (lower x y) ys).0, higher x y ∷ (sweep (lower x y) ys).1)
both_ways x y ys other apart_x apart_y (below, all, rest) = (
  ground arith,
  (ground arith, all),
  (
    (sweep-All (λ (e : BoundPort). eq_ℤ (higher x y).port e.port ≡ false) (lower x y) ys
        (ground arith)
        (either_branch (λ (e : BoundPort). Apart e.port ys) (ltb_ℤ y.port x.port) apart_x
          apart_y)).1,
    rest,
  ),
)

swept : (x : BoundPort) (ys : List BoundPort) → Apart x.port ys → Distinct ys → Swept x (sweep x ys)
unfolding sweep
swept x [] apart distinct = (omega arith, tt, tt)
swept x (y ∷ ys) (new, apart) (fresh, distinct) = both_ways x y ys new apart fresh (
    either_branch (λ (e : BoundPort). Swept e (sweep e ys)) (ltb_ℤ y.port x.port)
      (swept y ys fresh distinct) (swept x ys apart distinct))

sort_from-All :
    (P : BoundPort → Type 0) (n : ℕ) (ports : List BoundPort)
    → All P ports
    → All P (sort_from n ports)
unfolding sort_from
sort_from-All P zero ports all = all
sort_from-All P (suc n) [] all = tt
sort_from-All P (suc n) (x ∷ xs) (p, all) =
    let (least, rest) = sweep-All P x xs p all in (least, sort_from-All P n (sweep x xs).1 rest)

sort_from-Rising :
    (n : ℕ) (ports : List BoundPort)
    → length ports ≡ n
    → Distinct ports
    → Rising (sort_from n ports)
unfolding sort_from
sort_from-Rising zero [] same distinct = tt
sort_from-Rising zero (x ∷ xs) same distinct = absurd (omega (arith, same))
sort_from-Rising (suc n) [] same distinct = tt
sort_from-Rising (suc n) (x ∷ xs) same (apart, distinct) =
    let (below, all, rest) = swept x xs apart distinct in
    (
      sort_from-All (λ (other : BoundPort). (sweep x xs).0.port <ℤ other.port) n (sweep x xs).1 all,
      sort_from-Rising n (sweep x xs).1 (omega (arith, same, sweep-length x xs)) rest,
    )

-- Whatever the script printed, the entries that are returned have ports from 1 to 65535 that rise from
-- one entry to the next, and no empty address.
pub parse_bound_ports_output_ok :
    (raw : Text)
    → All IsListening (parse_bound_ports_output raw) × Rising (parse_bound_ports_output raw)
unfolding parse_bound_ports_output
parse_bound_ports_output_ok raw =
    let seen = read_lines (none, []) (split raw b'\n') in
    let (all, distinct) = read_lines-Held (none, []) (split raw b'\n') (tt, tt) in
    (
      sort_from-All IsListening (length seen) seen all,
      sort_from-Rising (length seen) seen refl distinct,
    )
