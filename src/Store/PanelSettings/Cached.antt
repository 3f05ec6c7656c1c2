-- ===== src/Store/PanelSettings/Cached.antt =====
-- What the cache of the settings answers.
use dorian_back_end.Prelude.{
  ℕ, ◌-◌, ◌≤◌, ◌≡◌, refl, sym, ap, true, false, some, List, [], ◌∷◌, arith, ltb, ℤ, none,
  Bool-cases, inl, inr, ◌⊎◌, ◌↔◌,
}
use dorian_back_end.Text.{Text, codes, ◌is◌, is_refl, is_iff, trim_space, to_lower, equal_fold}
use dorian_back_end.Action.{Result, ok, err, failed}
use dorian_back_end.Store.Database.{Database}
use dorian_back_end.Store.PanelSettings.{
  Setting, TextMap, Scanned, PanelSettings, read_key, load_rows, select_all, stale, cached, get,
  set, stored, write_through, cache_ttl, everyone, admins, require_mfa_applies,
  normalize_require_mfa,
}

-- The policy forces two-factor sign-in on everyone, on administrators, or on nobody.
pub require_mfa_applies_iff :
    (policy role : Text)
    → (require_mfa_applies policy role ≡ true) ↔ (
        (to_lower (trim_space policy) ≡ everyone)
        ⊎ ((to_lower (trim_space policy) ≡ admins)
            × (equal_fold (trim_space role) (codes "Admin") ≡ true)))
unfolding require_mfa_applies normalize_require_mfa ◌is◌
require_mfa_applies_iff policy role =
    let all_iff = is_iff (to_lower (trim_space policy)) everyone in
    let admins_iff = is_iff (to_lower (trim_space policy)) admins in
    ground (arith, all_iff, admins_iff)

module _ (d : Database (List Setting)) (cursor : List Setting → List Scanned) where
  open d use {State, content, run}

  stored_ok :
      (key value : Text) (p q : PanelSettings d cursor) (r : Result (Unit {0}) × State)
      → stored d cursor key value p r ≡ (ok tt, q)
      → (q.cache ≡ write_through d cursor key value p.cache) × (q.loaded ≡ p.loaded)
  stored_ok key value p q (ok a, s) h = (
    ap (λ (x : Result (Unit {0}) × PanelSettings d cursor). x.1.cache) (sym h),
    ap (λ (x : Result (Unit {0}) × PanelSettings d cursor). x.1.loaded) (sym h),
  )
  stored_ok key value p q (err e, s) h = absurd (ground arith)

  set_ok :
      (now : ℕ) (key value : Text) (by : ℤ) (p q : PanelSettings d cursor)
      → set d cursor now key value by p ≡ (ok tt, q)
      → (q.cache ≡ write_through d cursor (trim_space key) value p.cache) × (q.loaded ≡ p.loaded)
  unfolding set
  set_ok now key value by p q h = elim (Bool-cases (trim_space key is [])) [
    | inl e ↦ absurd (ground arith)
    | inr e ↦ stored_ok (trim_space key) value p q _ (rw e at h)
  ]

  stale-some :
      (at : ℕ) (m : TextMap) (p : PanelSettings d cursor)
      → p.cache ≡ some m
      → (stale d cursor at p ≡ ltb cache_ttl (at - p.loaded))
        × ((key : Text) → cached d cursor key p ≡ read_key key m)
  stale-some at m p loaded = (rw loaded refl, λ key. rw loaded refl)

  get_fresh :
      (at later : ℕ) (key : Text) (m : TextMap) (p : PanelSettings d cursor)
      → p.cache ≡ some m
      → at - p.loaded ≤ cache_ttl
      → get d cursor at later key p ≡ (ok (read_key key m), p)
  unfolding get
  get_fresh at later key m p loaded young =
      let (age, reads) = stale-some at m p loaded in
      let fresh : stale d cursor at p ≡ false = ground (arith, age) in rw (fresh, reads key) refl

  -- After an answered `Set`, a `Get` of the trimmed key within the cache's time reads the value that was
  -- written, without asking the server, if the cache was loaded.
  pub set_then_get :
      (now later at : ℕ) (key value : Text) (by : ℤ) (m : TextMap) (p q : PanelSettings d cursor)
      → set d cursor now key value by p ≡ (ok tt, q)
      → p.cache ≡ some m
      → at - p.loaded ≤ cache_ttl
      → get d cursor at later (trim_space key) q ≡ (ok value, q)
  unfolding set get read_key
  set_then_get now later at key value by m p q h loaded young =
      let (written, kept) = set_ok now key value by p q h in
      let cache_now : q.cache ≡ some ((trim_space key, value) ∷ m) = rw loaded at written in
      let reads : read_key (trim_space key) ((trim_space key, value) ∷ m) ≡ value =
        ground (arith, is_refl (trim_space key)) in
      rw reads at (get_fresh at later (trim_space key) _ q cache_now (omega (arith, young, kept)))

  -- What `Get` may do with a loaded cache: it answers from the cache that it leaves, or it fails and
  -- leaves the cache, where the server had selected the rows and one of them could not be scanned.
  pub data Got (key : Text) (p : PanelSettings d cursor)
      : Result Text × PanelSettings d cursor → Type 0 where
    answers :
        {value : Text} {n : TextMap} {q : PanelSettings d cursor}
        → q.cache ≡ some n
        → value ≡ read_key key n
        → Got key p (ok value, q)
    unreadable :
        {rows : List Setting} {s : State} {q : PanelSettings d cursor}
        → run (List Setting) (select_all d cursor) p.server ≡ (ok rows, s)
        → load_rows (cursor rows) [] ≡ none
        → q.cache ≡ p.cache
        → q.loaded ≡ p.loaded
        → Got key p (err failed, q)
