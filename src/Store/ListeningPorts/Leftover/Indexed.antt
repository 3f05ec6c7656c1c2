-- ===== src/Store/ListeningPorts/Leftover/Indexed.antt =====
-- The map of the existing rows and the list of duplicates.
use dorian_back_end.Prelude.{
  ◌≡◌, refl, ap, subst, ◌∙◌, Bool, true, false, not, ◌&&◌, ◌||◌, none, some, List, [], ◌∷◌, ◌++◌,
  any, map, arith, ℤ, eq_ℤ, Bool-cases, inl, inr,
}
use dorian_back_end.Store.ListeningPorts.{
  ListeningPort, in_ids, insert_row, order_rows, comes_before,
}
use dorian_back_end.Store.ListeningPorts.Replace.{
  KeyMap, Key, key_of, keyed, prefer, place, index_rows, lookup_key, in_keys,
}
use dorian_back_end.Store.ListeningPorts.Reported.Keys.{same_key_eq, same_key_sym}

abbrev pub ids_of : List ListeningPort → List ℤ
ids_of rows = map (λ (row : ListeningPort). row.id) rows

pub in_ids-append :
    (id : ℤ) (xs ys : List ℤ) → in_ids id (xs ++ ys) ≡ (in_ids id xs || in_ids id ys)
unfolding in_ids
in_ids-append id [] ys = refl
in_ids-append id (x ∷ xs) ys = ground (arith, in_ids-append id xs ys)

in_ids-insert_row :
    (id : ℤ) (row : ListeningPort) (rows : List ListeningPort)
    → in_ids id (ids_of (insert_row row rows)) ≡ (eq_ℤ row.id id || in_ids id (ids_of rows))
unfolding in_ids insert_row
in_ids-insert_row id row [] = refl
in_ids-insert_row id row (other ∷ rows) = elim (Bool-cases (comes_before other row)) [
  | inl e ↦ rw e (ground (arith, in_ids-insert_row id row rows))
  | inr e ↦ rw e refl
]

pub in_ids-order_rows :
    (id : ℤ) (rows : List ListeningPort)
    → in_ids id (ids_of (order_rows rows)) ≡ in_ids id (ids_of rows)
unfolding order_rows in_ids
in_ids-order_rows id [] = refl
in_ids-order_rows id (row ∷ rows) =
    in_ids-insert_row id row (order_rows rows) ∙ ground (arith, in_ids-order_rows id rows)

module _ (referenced : List ℤ) where
  place-ids :
      (id : ℤ) (row : ListeningPort) (m : KeyMap)
      → let placed = place referenced row m in
        (in_ids id (ids_of placed.0) || in_ids id placed.1)
        ≡ (eq_ℤ row.id id || in_ids id (ids_of m))
  unfolding place in_ids
  place-ids id row [] = ground arith
  place-ids id row (current ∷ m) = elim (Bool-cases (keyed (key_of row) current)) [
    | inr e ↦ rw e (ground (arith, place-ids id row m))
    | inl e ↦ elim (Bool-cases (prefer referenced row current)) [
      | inl p ↦ rw (e, p) (ground arith)
      | inr p ↦ rw (e, p) (ground arith)
    ]
  ]

  pub index_rows-ids :
      (id : ℤ) (rows : List ListeningPort) (m : KeyMap) (duplicates : List ℤ)
      → let indexed = index_rows referenced rows (m, duplicates) in
        (in_ids id (ids_of indexed.0) || in_ids id indexed.1)
        ≡ (in_ids id (ids_of m) || in_ids id duplicates || in_ids id (ids_of rows))
  unfolding index_rows in_ids
  index_rows-ids id [] m duplicates = ground arith
  index_rows-ids id (row ∷ rows) m duplicates =
      let placed = place referenced row m in
      index_rows-ids id rows placed.0 (duplicates ++ placed.1)
      ∙ ground (arith, place-ids id row m, in_ids-append id duplicates placed.1)

-- Each key stands once.
abbrev pub KeyDistinct : KeyMap → Type 0
KeyDistinct [] = Unit
KeyDistinct (row ∷ m) = (lookup_key (key_of row) m ≡ none) × KeyDistinct m

lookup_key-none :
    (k : Key) (row : ListeningPort) (m : KeyMap)
    → lookup_key k (row ∷ m) ≡ none
    → (keyed k row ≡ false) × (lookup_key k m ≡ none)
unfolding lookup_key
lookup_key-none k row m h = elim (Bool-cases (keyed k row)) [
  | inl e ↦ absurd (cc (rw e at h))
  | inr e ↦ (e, rw e at h)
]

lookup_key_skip :
    (k : Key) (row : ListeningPort) (m : KeyMap)
    → keyed k row ≡ false
    → lookup_key k m ≡ none
    → lookup_key k (row ∷ m) ≡ none
unfolding lookup_key
lookup_key_skip k row m other missing = rw other missing

module _ (referenced : List ℤ) where
  place-missing :
      (k : Key) (row : ListeningPort) (m : KeyMap)
      → lookup_key k m ≡ none
      → keyed k row ≡ false
      → lookup_key k (place referenced row m).0 ≡ none
  unfolding place
  place-missing k row [] missing other = lookup_key_skip k row [] other missing
  place-missing k row (current ∷ m) missing other =
      let (apart, rest) = lookup_key-none k current m missing in
      elim (Bool-cases (keyed (key_of row) current)) [
        | inr e ↦ rw e (
            lookup_key_skip k current (place referenced row m).0 apart
              (place-missing k row m rest other))
        | inl e ↦ elim (Bool-cases (prefer referenced row current)) [
          | inl p ↦ rw (e, p) (lookup_key_skip k row m other rest)
          | inr p ↦ rw (e, p) missing
        ]
      ]

  place-KeyDistinct :
      (row : ListeningPort) (m : KeyMap) → KeyDistinct m → KeyDistinct (place referenced row m).0
  unfolding place lookup_key
  place-KeyDistinct row [] distinct = (refl, tt)
  place-KeyDistinct row (current ∷ m) (fresh, distinct) =
      elim (Bool-cases (keyed (key_of row) current)) [
        | inr e ↦ rw e (
          place-missing (key_of current) row m fresh
              (same_key_sym (key_of row) (key_of current) ∙ e),
          place-KeyDistinct row m distinct,
        )
        | inl e ↦ elim (Bool-cases (prefer referenced row current)) [
          | inl p ↦
              rw (e, p)
                (
                  subst (λ (k : Key). lookup_key k m ≡ none)
                      (same_key_eq (key_of current) (key_of row) e) fresh,
                  distinct,
                )
          | inr p ↦ rw (e, p) (fresh, distinct)
        ]
      ]

  pub index_rows-KeyDistinct :
      (rows : List ListeningPort) (m : KeyMap) (duplicates : List ℤ)
      → KeyDistinct m
      → KeyDistinct (index_rows referenced rows (m, duplicates)).0
  unfolding index_rows
  index_rows-KeyDistinct [] m duplicates distinct = distinct
  index_rows-KeyDistinct (row ∷ rows) m duplicates distinct =
      let placed = place referenced row m in
      index_rows-KeyDistinct rows placed.0 (duplicates ++ placed.1)
        (place-KeyDistinct row m distinct)

-- Whether a row of the map with this id waits for its key.
abbrev pub pending : KeyMap → List Key → ℤ → Bool
pending m seen id =
    any (λ (row : ListeningPort). eq_ℤ row.id id && not (in_keys (key_of row) seen)) m

-- A key without a row settles nothing.
pub pending-missing :
    (m : KeyMap) (seen : List Key) (k : Key) (id : ℤ)
    → lookup_key k m ≡ none
    → pending m (k ∷ seen) id ≡ pending m seen id
unfolding in_keys
pending-missing [] seen k id missing = refl
pending-missing (row ∷ m) seen k id missing =
    let (apart, rest) = lookup_key-none k row m missing in
    ground (arith, pending-missing m seen k id rest, apart, same_key_sym (key_of row) k)

-- A key settles its own row and no other.
pub pending-found :
    (m : KeyMap) (seen : List Key) (k : Key) (id : ℤ) (found : ListeningPort)
    → KeyDistinct m
    → lookup_key k m ≡ some found
    → pending m seen id ≡ true
    → (eq_ℤ found.id id || pending m (k ∷ seen) id) ≡ true
unfolding in_keys lookup_key
pending-found [] seen k id found distinct there waits = absurd (ground arith)
pending-found (row ∷ m) seen k id found (fresh, distinct) there waits =
    elim (Bool-cases (keyed k row)) [
      | inl e ↦
          let missing =
            subst (λ (l : Key). lookup_key l m ≡ none) (same_key_eq (key_of row) k e) fresh in
          let same : row ≡ found = ground arith in
          ground (arith, pending-missing m seen k id missing, ap (λ (r : ListeningPort). r.id) same)
      | inr e ↦ ground (
        arith,
        pending-found m seen k id found distinct (rw e at there),
        same_key_sym (key_of row) k,
      )
    ]
