-- ===== src/Store/Database.antt =====
-- The MySQL server behind database/sql: an interface that runs one statement, or one transaction, at
-- once. A statement is given by what it does to the tables that it names (`C`); its text stands in
-- the source.
use dorian_back_end.Prelude.{
  ◌≡◌, refl, ◌⊎◌, Bool, true, false, Option, none, some, List, [], ◌∷◌, ℕ, ◌+◌, arith,
  if◌then◌else◌, All, Bool-cases, inl, inr, subst,
}
use dorian_back_end.Text.{Text}
use dorian_back_end.Action.{Action, Result, Error, ok, err, failed, no_schema, not_found}

pub record Database (C : Type 0) : Type 1 where
  pub State : Type 0
  pub content : State → C
  -- `=` between texts under the columns' collation
  pub collates : Text → Text → Bool
  pub run : (A : Type 0) → (C → Result A × C) → Action State A

pub record IsDocumented {C : Type 0} (d : Database C) : Type 1 where
  pub run_ok :
      (A : Type 0) (f : C → Result A × C) (s : d.State) (a : A) (t : d.State)
      → d.run A f s ≡ (ok a, t)
      → f (d.content s) ≡ (ok a, d.content t)
  -- the server failed, and the transaction took effect as a whole or not at all; or it raised its own
  -- error and was rolled back
  pub run_err :
      (A : Type 0) (f : C → Result A × C) (s : d.State) (e : Error) (t : d.State)
      → d.run A f s ≡ (err e, t)
      → (((e ≡ failed) ⊎ (e ≡ no_schema))
          × ((d.content t ≡ d.content s) ⊎ (d.content t ≡ (f (d.content s)).1)))
        ⊎ (((f (d.content s)).0 ≡ err e) × (d.content t ≡ d.content s))
  pub collates_refl : (x : Text) → d.collates x x ≡ true

module _ {A : Type 0} where
  -- UPDATE … SET … WHERE: the rows that pass the test are changed.
  unfoldable pub update : (A → Bool) → (A → A) → List A → List A
  update p f [] = []
  update p f (x ∷ xs) = (if p x then f x else x) ∷ update p f xs

  -- The number of rows that pass the test, which an UPDATE that changes each of them reports.
  unfoldable pub count : (A → Bool) → List A → ℕ
  count p [] = 0
  count p (x ∷ xs) = (if p x then 1 else 0) + count p xs

  -- SELECT of one row.
  unfoldable pub find : (A → Bool) → List A → Option A
  find p [] = none
  find p (x ∷ xs) = if p x then some x else find p xs

  -- A row that is found passes the test.
  pub find_sound : (p : A → Bool) (xs : List A) {a : A} → find p xs ≡ some a → p a ≡ true
  unfolding find
  find_sound p [] h = ground arith
  find_sound p (x ∷ xs) {a = a} h = ground (arith, find_sound p xs {a = a})

  -- A row that is found after an update was found before it, or is the changed row.
  pub find-update_ne :
      (p q : A → Bool) (f : A → A) (xs : List A)
      → ((x : A) → q x ≡ true → p x ≡ false)
      → ((x : A) → q x ≡ true → p (f x) ≡ false)
      → find p (update q f xs) ≡ find p xs
  unfolding find update
  find-update_ne p q f [] before after = refl
  find-update_ne p q f (x ∷ xs) before after =
      ground (arith, before x, after x, find-update_ne p q f xs before after)

  -- An update that keeps the test changes the row that is found.
  pub find-update :
      (p q : A → Bool) (f : A → A) (xs : List A)
      → ((x : A) → p (f x) ≡ p x)
      → find p (update q f xs)
        ≡ elim (find p xs) [ none ↦ none | some x ↦ some (if q x then f x else x) ]
  unfolding find update
  find-update p q f [] keeps = refl
  find-update p q f (x ∷ xs) keeps = ground (arith, keeps x, find-update p q f xs keeps)

-- The answer of a SELECT for one row: `sql.ErrNoRows` becomes `errNotFound`.
abbrev pub found : {A C : Type 0} → Option A → C → Result A × C
found none c = (err not_found, c)
found (some a) c = (ok a, c)

pub found_ok :
    {A C : Type 0} (o : Option A) (c : C) {a : A} {c' : C}
    → found o c ≡ (ok a, c')
    → (o ≡ some a) × (c' ≡ c)
found_ok none c h = ground arith
found_ok (some x) c h = (ground arith, ground arith)

module _ {A : Type 0} where
  -- After an update whose rows fail its test, no row passes the test.
  pub All-update_fails :
      (p : A → Bool) (f : A → A) (xs : List A)
      → ((x : A) → p (f x) ≡ false)
      → All (λ x. p x ≡ false) (update p f xs)
  unfolding update
  All-update_fails p f [] fails = tt
  All-update_fails p f (x ∷ xs) fails = (ground (arith, fails x), All-update_fails p f xs fails)

  -- A row that is found is one of the rows.
  pub find-All :
      (P : A → Type 0) (p : A → Bool) (xs : List A) {a : A} → All P xs → find p xs ≡ some a → P a
  unfolding find
  find-All P p [] all h = absurd (ground arith)
  find-All P p (x ∷ xs) {a = a} (px, all) h = elim (Bool-cases (p x)) [
    | inl e ↦ let same : x ≡ a = ground arith in subst P same px
    | inr e ↦ find-All P p xs all (rw e at h)
  ]

module _ {A : Type 0} where
  -- What an update keeps of each row, it keeps of all rows.
  pub All-update :
      (P : A → Type 0) (q : A → Bool) (f : A → A) (xs : List A)
      → ((x : A) → P x → P (if q x then f x else x))
      → All P xs
      → All P (update q f xs)
  unfolding update
  All-update P q f [] keeps all = tt
  All-update P q f (x ∷ xs) keeps (px, all) = (keeps x px, All-update P q f xs keeps all)

  -- What an update gives each row, whatever it was, all rows have.
  pub All-updated :
      (P : A → Type 0) (q : A → Bool) (f : A → A) (xs : List A)
      → ((x : A) → P (if q x then f x else x))
      → All P (update q f xs)
  unfolding update
  All-updated P q f [] gives = tt
  All-updated P q f (x ∷ xs) gives = (gives x, All-updated P q f xs gives)

  -- No row is counted if none passes the test.
  pub count-All : (p : A → Bool) (xs : List A) → All (λ x. p x ≡ false) xs → count p xs ≡ 0
  unfolding count
  count-All p [] all = refl
  count-All p (x ∷ xs) (px, all) = ground (arith, px, count-All p xs all)
