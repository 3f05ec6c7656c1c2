-- ===== src/Examples/Servers.antt =====
-- A Redis and a database in memory, where no command fails.
use dorian_back_end.Prelude.{◌≡◌, inr, arith, ap, ◌∙◌, sym, some, ◌+◌, ◌≤◌, ℕ, suc}
use dorian_back_end.Text.{◌is◌, is_refl}
use dorian_back_end.Action.{Result, Error, ok, err}
use dorian_back_end.Store.Redis
use dorian_back_end.Store.Redis.{
  Redis, Keyspace, Cell, absent, cell, put, bumped, value, expiring, remaining, live,
}
use dorian_back_end.Store.Database
use dorian_back_end.Store.Database.{Database}

-- Every command takes one millisecond.
abbrev pub memory_redis : Redis
memory_redis = record {
  State = Keyspace × ℕ;
  view = λ s. s.0;
  clock = λ s. s.1;
  pttl = λ k (m, t). (ok (remaining (suc t) (m k)), (m, suc t));
  incr = λ k (m, t).
      (ok (value (live (suc t) (m k)) + 1), (put m k (bumped (live (suc t) (m k))), suc t));
  expire = λ k d (m, t). (ok tt, (put m k (expiring (suc t + d) (live (suc t) (m k))), suc t));
  del = λ k (m, t). (ok tt, (put m k absent, suc t));
  set_and_del = λ lock d counter (m, t).
      (ok tt, (put (put m lock (cell 1 (some (suc t + d)))) counter absent, suc t));
}

-- What an answer says of the action's result.
answered :
    {A S : Type 0} {a b : A} {s t : S}
    → ◌≡◌ {A = Result A × S} (ok a, s) (ok b, t)
    → (b ≡ a) × (t ≡ s)
answered h = (ground arith, sym (ap (λ p. p.1) h))

-- An effect on the keys that takes one millisecond and depends on the time.
ticked :
    (m : Keyspace) (t : ℕ) (f : ℕ → Keyspace) (s' : Keyspace × ℕ)
    → s' ≡ (f (suc t), suc t)
    → (t ≤ s'.1) × (s'.0 ≡ f s'.1)
ticked m t f (m', t') h =
    let later = ap (λ (p : Keyspace × ℕ). p.1) h in
    (omega (arith, later), ap (λ (p : Keyspace × ℕ). p.0) h ∙ ap f (sym later))

pub memory_redis-IsDocumented : Redis.IsDocumented memory_redis
memory_redis-IsDocumented = record {
  pttl_ok = λ k (m, t) v s' h.
      let (e, moved) = answered h in
      let (order, same) = ticked m t (λ now. m) s' moved in
      (order, e ∙ ap (λ (p : Keyspace × ℕ). remaining p.1 (m k)) (sym moved), same);
  incr_ok = λ k (m, t) n s' h.
      let (e, moved) = answered h in
      let (order, same) = ticked m t (λ now. put m k (bumped (live now (m k)))) s' moved in
      (order, e ∙ ap (λ (p : Keyspace × ℕ). value (live p.1 (m k)) + 1) (sym moved), same);
  expire_ok = λ k d (m, t) s' h.
      ticked m t (λ now. put m k (expiring (now + d) (live now (m k)))) s' (answered h).1;
  del_ok = λ k (m, t) s' h. ticked m t (λ now. put m k absent) s' (answered h).1;
  set_and_del_ok = λ lock d counter (m, t) s' h.
      ticked m t (λ now. put (put m lock (cell 1 (some (now + d)))) counter absent) s'
        (answered h).1;
}

module _ {C : Type 0} where
  -- A transaction that raises an error leaves the tables as they were.
  abbrev pub rolled_back : {A : Type 0} → C → Result A × C → Result A × C
  rolled_back c (ok a, c') = (ok a, c')
  rolled_back c (err e, c') = (err e, c)

  abbrev pub memory_database : Database C
  memory_database = record {
    State = C;
    content = λ c. c;
    collates = λ x y. x is y;
    run = λ A f c. rolled_back c (f c);
  }

  committed :
      {A : Type 0} (c : C) {t : C} {a : A} (r : Result A × C)
      → rolled_back c r ≡ (ok a, t)
      → r ≡ (ok a, t)
  committed c (ok a, c') h = h
  committed c (err e, c') h = absurd (ground arith)

  undone :
      {A : Type 0} (c : C) {t : C} {e : Error} (r : Result A × C)
      → rolled_back c r ≡ (err e, t)
      → (r.0 ≡ err e) × (t ≡ c)
  undone c (ok a, c') h = absurd (ground arith)
  undone c (err e, c') h = (ap (λ p. p.0) h, sym (ap (λ p. p.1) h))

  pub memory_database-IsDocumented : Database.IsDocumented memory_database
  memory_database-IsDocumented = record {
    run_ok = λ A f c a t h. committed c (f c) h;
    run_err = λ A f c e t h. inr (undone c (f c) h);
    collates_refl = is_refl;
  }
