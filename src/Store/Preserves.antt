-- ===== src/Store/Preserves.antt =====
-- Predicates on a state that every statement of an action keeps.
use dorian_back_end.Prelude.{◌≡◌, refl, ap, sym, subst, inl, inr}
use dorian_back_end.Action.{Action, Result, ok, err, ◌>>=◌}
use dorian_back_end.Store.Database.{Database, IsDocumented}

module _ {C : Type 0} (d : Database C) (doc : IsDocumented d) (P : C → Type 0) where
  abbrev pub Preserves : {A : Type 0} → Action d.State A → Type 0
  Preserves m = (s : d.State) → P (d.content s) → P (d.content (m s).1)

  pub run-Preserves :
      (A : Type 0) (f : C → Result A × C) → ((c : C) → P c → P (f c).1) → Preserves (d.run A f)
  run-Preserves A f keeps s p = by_outcome (d.run A f s) refl
    where
      by_outcome : (q : Result A × d.State) → d.run A f s ≡ q → P (d.content q.1)
      by_outcome (ok a, t) h =
          subst P (ap (λ (x : Result A × C). x.1) (doc.run_ok A f s a t h)) (keeps (d.content s) p)
      by_outcome (err e, t) h = elim (doc.run_err A f s e t h) [
        | inl (kind, inl same) ↦ subst P (sym same) p
        | inl (kind, inr applied) ↦ subst P (sym applied) (keeps (d.content s) p)
        | inr (raised, same) ↦ subst P (sym same) p
      ]

  pub >>=-Preserves :
      {A B : Type 0} (m : Action d.State A) (f : A → Action d.State B)
      → Preserves m
      → ((a : A) → Preserves (f a))
      → Preserves (m >>= f)
  >>=-Preserves {A = A} m f first rest s p = by_outcome (m s) (first s p)
    where
      by_outcome :
          (q : Result A × d.State)
          → P (d.content q.1)
          → P (d.content (((λ (t : d.State). q) >>= f) s).1)
      by_outcome (ok a, t) k = rest a t k
      by_outcome (err e, t) k = k
