-- ===== src/Action.antt =====
-- Operations that change a state and may fail: what was written before an error stays written.
use dorian_back_end.Prelude.{◌≡◌, refl, ◌∙◌, ap, ap₂, ◌⊎◌, inl, inr}

-- The errors that the source tells apart; `no_schema` is the database's error that a table or a column is
-- unknown (MySQL 1146 and 1054), and `failed` is any other error of a server or of the operating system.
pub data Error : Type 0 where
  failed no_schema not_found invalid expired too_long unavailable : Error

pub data Result {ℓ} (A : Type ℓ) : Type ℓ where
  ok : A → Result A
  err : Error → Result A

abbrev pub Action : Type 0 → Type 0 → Type 0
Action S A = S → Result A × S

module _ {S A : Type 0} where
  abbrev pub pure : A → Action S A
  pure a s = (ok a, s)

  abbrev pub raise : Error → Action S A
  raise e s = (err e, s)

module _ {S A B : Type 0} where
  abbrev continue : Result A → (A → Action S B) → Action S B
  continue (ok a) f s = f a s
  continue (err e) f s = (err e, s)

  infixl 5 ◌>>=◌ ◌>>◌
  abbrev pub ◌>>=◌ : Action S A → (A → Action S B) → Action S B
  ◌>>=◌ m f s = let (r, s') = m s in continue r f s'

  abbrev pub ◌>>◌ : Action S A → Action S B → Action S B
  m >> n = m >>= λ _. n

-- The parts of an action that gave a result.
module _ {S A B : Type 0} where
  pub >>=-eq-ok :
      (m : Action S A) (f : A → Action S B) (s : S) {b : B} {t : S}
      → (m >>= f) s ≡ (ok b, t)
      → (a : A) × (u : S) × (m s ≡ (ok a, u)) × (f a u ≡ (ok b, t))
  >>=-eq-ok m f s {b = b} {t = t} h = split (m s) refl
    where
      split :
          (p : Result A × S) → m s ≡ p → (a : A) × (u : S) × (m s ≡ (ok a, u)) × (f a u ≡ (ok b, t))
      split (ok a, u) e = (a, u, e, rw e at h)
      split (err x, u) e = absurd (cc (rw e at h))

  -- The part of an action that failed.
  pub >>=-eq-err :
      (m : Action S A) (f : A → Action S B) (s : S) {e : Error} {t : S}
      → (m >>= f) s ≡ (err e, t)
      → (m s ≡ (err e, t)) ⊎ ((a : A) × (u : S) × (m s ≡ (ok a, u)) × (f a u ≡ (err e, t)))
  >>=-eq-err m f s {e = e} {t = t} h = split (m s) refl
    where
      split :
          (p : Result A × S)
          → m s ≡ p
          → (m s ≡ (err e, t)) ⊎ ((a : A) × (u : S) × (m s ≡ (ok a, u)) × (f a u ≡ (err e, t)))
      split (ok a, u) k = inr (a, u, k, rw k at h)
      split (err x, u) k =
          let same : x ≡ e = cc (rw k at h) in
          inl (k ∙ ap₂ (λ y z. (err y, z)) same (ap (λ (q : Result B × S). q.1) (rw k at h)))
