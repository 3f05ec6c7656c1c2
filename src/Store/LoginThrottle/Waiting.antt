-- ===== src/Store/LoginThrottle/Waiting.antt =====
-- The time that `RetryAfter` reports.
use dorian_back_end.Prelude.{
  ℕ, suc, ◌+◌, ◌-◌, ◌≤◌, ◌<◌, ◌≡◌, sym, subst, ◌∙◌, ap, ◌⊎◌, inl, inr, true, false, some, List, [],
  ◌∷◌, ◌++◌, arith, if◌then◌else◌, ℤ, pos, pos_part, ◌≤ℤ◌, ltb_ℤ, Bool-cases, All, All-weaken,
}
use dorian_back_end.Text.{Text, is_refl, member}
use dorian_back_end.Action.{Result, ok, >>=-eq-ok}
use dorian_back_end.Store.Redis.{Redis, IsDocumented, Keyspace, absent, cell, live, remaining}
use dorian_back_end.Store.LoginThrottle.{
  LoginThrottleConfig, fail_account_key, lock_account_key, blank, account_key, lock_keys,
  longest_wait, retry_after, record_failure,
}
use dorian_back_end.Store.LoginThrottle.Lockout.{Failures, locked_at_limit}

ltb→≤ℤ : (a b : ℤ) → ltb_ℤ a b ≡ true → a ≤ℤ b
ltb→≤ℤ a b h = ground arith

ltb→≥ℤ : (a b : ℤ) → ltb_ℤ a b ≡ false → b ≤ℤ a
ltb→≥ℤ a b h = ground arith

-- What a key has left at some time between two.
abbrev pub HasLeft : Keyspace → ℕ → ℕ → Text → ℤ → Type 0
HasLeft m from until k v = (at : ℕ) × (from ≤ at) × (at ≤ until) × (v ≡ remaining at (m k))

abbrev IsCovered : Keyspace → ℕ → ℕ → ℤ → Text → Type 0
IsCovered m from until w k = (v : ℤ) × HasLeft m from until k v × (v ≤ℤ w)

-- `w` is the longest of `wait` and of the times that the keys have left, each read between two times.
pub record IsLongest (m : Keyspace) (from until : ℕ) (keys : List Text) (wait w : ℤ) : Type 0 where
  pub from_start : wait ≤ℤ w
  pub from_keys : All (IsCovered m from until w) keys
  pub attained : (w ≡ wait) ⊎ ((k : Text) × (member k keys ≡ true) × HasLeft m from until k w)

module _ (m : Keyspace) (from middle until : ℕ) (order : from ≤ middle) where
  HasLeft-earlier : (k : Text) (v : ℤ) → HasLeft m middle until k v → HasLeft m from until k v
  HasLeft-earlier k v (at, late, early, e) = (at, omega (arith, order, late), early, e)

  IsLongest-earlier :
      (keys : List Text) (wait w : ℤ)
      → IsLongest m middle until keys wait w
      → IsLongest m from until keys wait w
  IsLongest-earlier keys wait w l = record {
    from_start = l.from_start;
    from_keys =
        All-weaken (IsCovered m middle until w) (IsCovered m from until w) keys
          (λ k (v, left, le). (v, HasLeft-earlier k v left, le)) (l.from_keys);
    attained = elim l.attained [
      | inl e ↦ inl e
      | inr (k, held, left) ↦ inr (k, held, HasLeft-earlier k w left)
    ];
  }

module _ (m : Keyspace) (from until : ℕ) (k : Text) (keys : List Text) (wait w ttl : ℤ)
    (read : HasLeft m from until k ttl) where
  IsLongest-of_rest :
      ttl ≤ℤ wait → IsLongest m from until keys wait w → IsLongest m from until (k ∷ keys) wait w
  IsLongest-of_rest h l = record {
    from_start = l.from_start;
    from_keys = ((ttl, read, omega (arith, h, l.from_start)), l.from_keys);
    attained = elim l.attained [
      | inl e ↦ inl e
      | inr (j, held, left) ↦ inr (j, unfold member in ground (arith, held), left)
    ];
  }

  IsLongest-of_key :
      wait ≤ℤ ttl → IsLongest m from until keys ttl w → IsLongest m from until (k ∷ keys) wait w
  IsLongest-of_key h l = record {
    from_start = omega (arith, h, l.from_start);
    from_keys = ((ttl, read, l.from_start), l.from_keys);
    attained = elim l.attained [
      | inl e ↦ inr (k, unfold member in ground (arith, is_refl k), rw e read)
      | inr (j, held, left) ↦ inr (j, unfold member in ground (arith, held), left)
    ];
  }

  IsLongest-cons :
      IsLongest m from until keys (if ltb_ℤ wait ttl then ttl else wait) w
      → IsLongest m from until (k ∷ keys) wait w
  IsLongest-cons l = elim (Bool-cases (ltb_ℤ wait ttl)) [
    | inl more ↦ IsLongest-of_key (ltb→≤ℤ wait ttl more) (rw more at l)
    | inr less ↦ IsLongest-of_rest (ltb→≥ℤ wait ttl less) (rw less at l)
  ]

module _ (r : Redis) (doc : IsDocumented r) (digest : Text → Text) (cfg : LoginThrottleConfig) where
  open r use {State, view, clock, pttl}

  longest_wait_ok :
      (keys : List Text) (wait w : ℤ) (s t : State)
      → longest_wait r digest cfg keys wait s ≡ (ok w, t)
      → IsLongest (view s) (clock s) (clock t) keys wait w × (view t ≡ view s) × (clock s ≤ clock t)
  unfolding longest_wait
  longest_wait_ok [] wait w s t h =
      let same : w ≡ wait = ground arith in
      let stays = ap (λ (p : Result ℤ × State). p.1) (sym h) in
      (
        record { from_start = rw same (omega arith); from_keys = tt; attained = inl same },
        ap view stays,
        omega (arith, ap clock stays),
      )
  longest_wait_ok (k ∷ keys) wait w s t h =
      let (ttl, u, asked, rest) = >>=-eq-ok (pttl k) _ s h in
      let (forward, ttl_eq, kept) = doc.pttl_ok k s ttl u asked in
      let (longest, kept', forward') = longest_wait_ok keys _ w u t rest in
      (
        IsLongest-cons (view s) (clock s) (clock t) k keys wait w ttl
            (clock u, forward, forward', ttl_eq)
            (IsLongest-earlier (view s) (clock s) (clock u) (clock t) forward keys _ w (
              subst
                (λ (m : Keyspace).
                  IsLongest m (clock u) (clock t) keys (if ltb_ℤ wait ttl then ttl else wait) w)
                kept longest)),
        kept' ∙ kept,
        omega (arith, forward, forward'),
      )

  -- An answered `RetryAfter` changes no key, and reports the longest time that the locks of the
  -- account and of the IP had left when they were asked for, or 0 if none had any.
  pub retry_after_ok :
      (ip account : Text) (w : ℤ) (s t : State)
      → retry_after r digest cfg ip account s ≡ (ok w, t)
      → IsLongest (view s) (clock s) (clock t) (lock_keys digest ip account) (pos 0) w
        × (view t ≡ view s)
        × (clock s ≤ clock t)
  unfolding retry_after
  retry_after_ok ip account w s t h = longest_wait_ok (lock_keys digest ip account) (pos 0) w s t h

  left_until :
      (at e until : ℕ) → at ≤ until → until < e → pos (e - until) ≤ℤ remaining at (cell 1 (some e))
  left_until at e until early h = ground arith

  -- With a lock on the account, the wait is at least what that lock has left in the end.
  account_locked :
      (ip account : Text) (w : ℤ) (m : Keyspace) (from until e : ℕ)
      → blank account ≡ false
      → m (lock_account_key ++ account_key digest account) ≡ cell 1 (some e)
      → until < e
      → IsLongest m from until (lock_keys digest ip account) (pos 0) w
      → pos (e - until) ≤ℤ w
  unfolding lock_keys
  account_locked ip account w m from until e named locked some_left l =
      let (v, (at, late, early, same), le) = (rw named at l.from_keys).0 in
      let left =
        subst (λ (x : ℤ). pos (e - until) ≤ℤ x) (sym (same ∙ ap (remaining at) locked))
          (left_until at e until early some_left) in
      omega (arith, le, left)

  -- From a state without a count of the account, let as many failures of it be answered, within the window
  -- of the first, as its limit. A check that is answered while the lockout after the last one lasts makes
  -- the caller wait for what is left of it at least.
  pub lockout_enforced :
      (ip from_ip account : Text) (L n : ℕ) (s t u x y : State) (w : ℤ)
      → cfg.max_account_failures ≡ pos L
      → L ≡ suc n
      → blank account ≡ false
      → live (clock s) (view s (fail_account_key ++ account_key digest account)) ≡ absent
      → Failures r doc digest cfg account s n t
      → record_failure r digest cfg from_ip account t ≡ (ok tt, u)
      → clock u < clock s + pos_part cfg.window
      → view x (lock_account_key ++ account_key digest account)
        ≡ view u (lock_account_key ++ account_key digest account)
      → retry_after r digest cfg ip account x ≡ (ok w, y)
      → clock y < clock t + pos_part cfg.lockout
      → pos (clock t + pos_part cfg.lockout - clock y) ≤ℤ w
  lockout_enforced ip from_ip account L n s t u x y w limit last named no_count f failed early kept
        h soon =
      let ((e, long, locked), _) =
        locked_at_limit r doc digest cfg account L limit named s no_count n from_ip last f failed
          early in
      let waits =
        account_locked ip account w (view x) (clock x) (clock y) e named (kept ∙ locked)
          (omega (arith, long, soon)) (retry_after_ok ip account w x y h).0 in
      omega (arith, waits, long, soon)
