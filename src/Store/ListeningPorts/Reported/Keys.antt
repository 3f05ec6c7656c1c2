-- ===== src/Store/ListeningPorts/Reported/Keys.antt =====
-- Lists of keys, and what a normalised input is.
use dorian_back_end.Prelude.{
  ◌≡◌, refl, ap, ap₂, sym, ◌∙◌, Bool, true, false, ◌||◌, Option, none, some, List, [], ◌∷◌, ◌++◌,
  any, arith, pos, ◌≤ℤ◌, eq_ℤ_iff, All, map, Bool-cases, inl, inr,
}
use dorian_back_end.Text.{Text, ◌is◌, is_iff, to_upper}
use dorian_back_end.Store.ListeningPorts.{ListeningPort, ListeningPortInput}
use dorian_back_end.Store.ListeningPorts.Replace.{
  Key, same_key, input_key, in_keys, normalize_input,
}

abbrev pub row_key : ListeningPort → Key
row_key row = (row.port, to_upper row.protocol)

abbrev pub row_keys : List ListeningPort → List Key
row_keys rows = map row_key rows

abbrev pub Distinct : List Key → Type 0
Distinct [] = Unit
Distinct (k ∷ ks) = (in_keys k ks ≡ false) × Distinct ks

abbrev pub InRange : ListeningPort → Type 0
InRange row = (pos 1 ≤ℤ row.port) × (row.port ≤ℤ pos 65535)

abbrev has_input_key : Key → Option ListeningPortInput → Bool
has_input_key k none = false
has_input_key k (some input) = same_key (input_key input) k

-- Whether an input that is in range has the key.
abbrev pub is_reported : Key → List ListeningPortInput → Bool
is_reported k inputs = any (λ input. has_input_key k (normalize_input input)) inputs

is_sym : (x y : Text) → (x is y) ≡ (y is x)
is_sym x y = ground (arith, (is_iff x y).0, (is_iff x y).1, (is_iff y x).0, (is_iff y x).1)

pub same_key_sym : (k l : Key) → same_key k l ≡ same_key l k
same_key_sym (p, x) (q, y) = ground (arith, is_sym x y)

pub same_key_eq : (a b : Key) → same_key a b ≡ true → a ≡ b
same_key_eq (p, x) (q, y) h =
    ap₂ (λ v w. (v, w)) ((eq_ℤ_iff p q).0 (ground arith)) ((is_iff x y).0 (ground arith))

pub in_keys-append :
    (k : Key) (ks ls : List Key) → in_keys k (ks ++ ls) ≡ (in_keys k ks || in_keys k ls)
unfolding in_keys
in_keys-append k [] ls = refl
in_keys-append k (l ∷ ks) ls = ground (arith, in_keys-append k ks ls)

pub Distinct-append :
    (ks : List Key) (k : Key) → Distinct ks → in_keys k ks ≡ false → Distinct (ks ++ (k ∷ []))
unfolding in_keys
Distinct-append [] k distinct new = (refl, tt)
Distinct-append (l ∷ ks) k (fresh, distinct) new = (
  ground (arith, in_keys-append l ks (k ∷ []), same_key_sym l k, fresh),
  Distinct-append ks k distinct (ground arith),
)

pub row_keys-append :
    (rows : List ListeningPort) (row : ListeningPort)
    → row_keys (rows ++ (row ∷ [])) ≡ row_keys rows ++ (row_key row ∷ [])
row_keys-append [] row = refl
row_keys-append (other ∷ rows) row = ap (λ ks. row_key other ∷ ks) (row_keys-append rows row)

pub All-append_one :
    (P : ListeningPort → Type 0) (rows : List ListeningPort) (row : ListeningPort)
    → All P rows
    → P row
    → All P (rows ++ (row ∷ []))
All-append_one P [] row all p = (p, tt)
All-append_one P (other ∷ rows) row (q, all) p = (q, All-append_one P rows row all p)

-- A normalised input is in range.
pub normalize_input_ok :
    (input n : ListeningPortInput)
    → normalize_input input ≡ some n
    → (pos 1 ≤ℤ n.port) × (n.port ≤ℤ pos 65535)
unfolding normalize_input
normalize_input_ok input n h = ground arith

pub joined :
    (k : Key) (ks seen : List Key) (l : Key)
    → in_keys k ks ≡ in_keys k seen
    → (in_keys k ks || in_keys k (l ∷ [])) ≡ in_keys k (l ∷ seen)
unfolding in_keys
joined k ks seen l same = ground (arith, same)

-- A key that stands among others adds nothing to them.
pub repeated :
    (k l : Key) (seen : List Key) (R : Bool)
    → in_keys l seen ≡ true
    → (in_keys k seen || (same_key l k || R)) ≡ (in_keys k seen || R)
repeated k l seen R old = elim (Bool-cases (same_key l k)) [
  | inl e ↦
      let there = ap (λ x. in_keys x seen) (sym (same_key_eq l k e)) ∙ old in ground (arith, there)
  | inr e ↦ rw e refl
]

pub moved :
    (k l : Key) (seen : List Key) (R : Bool)
    → (in_keys k (l ∷ seen) || R) ≡ (in_keys k seen || (same_key l k || R))
unfolding in_keys
moved k l seen R = ground arith
