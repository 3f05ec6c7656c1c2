-- ===== src/Store/UserMfa/Replay.antt =====
-- Steps and recovery codes that were accepted, and what other requests do in between.
use dorian_back_end.Prelude.{
  ℕ, ◌≡◌, refl, sym, ap, Bool, true, false, some, [], arith, ◌==◌, ℤ, ◌≤ℤ◌, All, All-weaken,
  Bool-cases, inl, inr, ◌⊎◌,
}
use dorian_back_end.Text.{Text, ◌is◌}
use dorian_back_end.Action.{Result, ok, >>=-eq-ok}
use dorian_back_end.Store.Database.{
  Database, IsDocumented, update, count, All-update, All-update_fails, count-All,
}
use dorian_back_end.Store.UserMfa.Asked.{ask_ok}
use dorian_back_end.Store.UserMfa.{
  ask, MfaTables, is_user, behind, stepped, advance_rows, advance_step, set_pending_secret,
  redeemable, redeemed, redeem_rows, redeem, consume_recovery_code, write_users,
  normalize_recovery_code,
}

module _ (d : Database MfaTables) (doc : IsDocumented d) (digest : Text → Text) where
  open d use {State, content, collates, run}

  -- Requests that the server answers, of any user: codes are checked and setups are started, and
  -- nobody enables or disables two-factor sign-in or draws new recovery codes; `unchanged` is anything
  -- that leaves these tables as they are.
  pub data Later (s : State) : State → Type 0 where
    start : Later s s
    advanced :
        {t u : State} (id step : ℤ) (b : Bool)
        → Later s t
        → advance_step d digest id step t ≡ (ok b, u)
        → Later s u
    redeemed_code :
        {t u : State} (now : ℕ) (id : ℤ) (code : Text) (b : Bool)
        → Later s t
        → consume_recovery_code d digest now id code t ≡ (ok b, u)
        → Later s u
    setup_started :
        {t u : State} (id : ℤ) (text : Text)
        → Later s t
        → set_pending_secret d digest id text t ≡ (ok tt, u)
        → Later s u
    unchanged : {t u : State} → Later s t → content u ≡ content t → Later s u

  -- An answered `AdvanceStep` updates the rows behind the step, and says whether there was one.
  advance_step_ok :
      (id step : ℤ) (s t : State) (b : Bool)
      → advance_step d digest id step s ≡ (ok b, t)
      → (content t
          ≡ write_users d digest (behind d digest id step) (stepped d digest step) (content s))
        × (b ≡ (count (behind d digest id step) (content s).users == 1))
  unfolding advance_step advance_rows
  advance_step_ok id step s t b h =
      let (n, u, asked, rest) = >>=-eq-ok (ask d digest ℕ (advance_rows d digest id step)) _ s h in
      let done = ask_ok d doc digest _ _ s n u asked in
      let same : t ≡ u = ap (λ (p : Result Bool × State). p.1) (sym rest) in
      let told : b ≡ (n == 1) = ground arith in
      let counted : n ≡ count (behind d digest id step) (content s).users = ground arith in
      (rw same (ap (λ (p : Result ℕ × MfaTables). p.1) (sym done)), rw (told, counted) refl)

  abbrev spend : ℕ → ℤ → Text → MfaTables → MfaTables
  spend now id hash c = record c {
    recovery_codes = update (redeemable d digest id hash) (redeemed d digest now) c.recovery_codes;
  }

  redeem_ok :
      (now : ℕ) (id : ℤ) (hash : Text) (s t : State) (b : Bool)
      → redeem d digest now id hash s ≡ (ok b, t)
      → (content t ≡ spend now id hash (content s))
        × (b ≡ (count (redeemable d digest id hash) (content s).recovery_codes == 1))
  unfolding redeem redeem_rows
  redeem_ok now id hash s t b h =
      let (n, u, asked, rest) =
        >>=-eq-ok (ask d digest ℕ (redeem_rows d digest now id hash)) _ s h in
      let done = ask_ok d doc digest _ _ s n u asked in
      let same : t ≡ u = ap (λ (p : Result Bool × State). p.1) (sym rest) in
      let told : b ≡ (n == 1) = ground arith in
      let counted : n ≡ count (redeemable d digest id hash) (content s).recovery_codes =
        ground arith in
      (rw same (ap (λ (p : Result ℕ × MfaTables). p.1) (sym done)), rw (told, counted) refl)

  -- An answered `ConsumeRecoveryCode` leaves the tables alone, or redeems one hash.
  consume_cases :
      (now : ℕ) (id : ℤ) (code : Text) (s t : State) (b : Bool)
      → consume_recovery_code d digest now id code s ≡ (ok b, t)
      → (content t ≡ content s) ⊎ ((hash : Text) × (content t ≡ spend now id hash (content s)))
  unfolding consume_recovery_code
  consume_cases now id code s t b h = elim (Bool-cases (normalize_recovery_code code is [])) [
    | inl e ↦ inl (ap (λ (p : Result Bool × State). content (p.1)) (sym (rw e at h)))
    | inr e ↦
        let hash = digest (normalize_recovery_code code) in
        inr (hash, (redeem_ok now id hash s t b (rw e at h)).0)
  ]

  -- What every update of the two kinds keeps, holds later.
  module _ (P : MfaTables → Type 0)
      (advances : (id step : ℤ) (c : MfaTables)
        → P c
        → P (write_users d digest (behind d digest id step) (stepped d digest step) c))
      (spends : (now : ℕ) (id : ℤ) (hash : Text) (c : MfaTables) → P c → P (spend now id hash c))
      (pends : (id : ℤ) (text : Text) (c : MfaTables)
        → P c
        → P (
            write_users d digest
              (is_user d digest id)
              (λ row. record row { totp_pending_secret = some text })
              c)) where
    Later_induction : {s t : State} → Later s t → P (content s) → P (content t)
    unfolding set_pending_secret
    Later_induction start p = p
    Later_induction (unchanged {t = t} {u = u} before e) p = rw e (Later_induction before p)
    Later_induction (advanced {t = t} {u = u} id step b before h) p =
        rw ((advance_step_ok id step t u b h).0)
          (advances id step (content t) (Later_induction before p))
    Later_induction (redeemed_code {t = t} {u = u} now id code b before h) p =
        elim (consume_cases now id code t u b h) [
          | inl e ↦ rw e (Later_induction before p)
          | inr (hash, e) ↦ rw e (spends now id hash (content t) (Later_induction before p))
        ]
    Later_induction (setup_started {t = t} {u = u} id text before h) p =
        rw
          (ap (λ (q : Result (Unit {0}) × MfaTables). q.1) (sym (ask_ok d doc digest _ _ t tt u h)))
          (pends id text (content t) (Later_induction before p))

  abbrev pub StepUsed : ℤ → ℤ → MfaTables → Type 0
  StepUsed id step c = All (λ row. behind d digest id step row ≡ false) c.users

  StepUsed-Later :
      {s t : State} (id step : ℤ)
      → Later s t
      → StepUsed id step (content s)
      → StepUsed id step (content t)
  StepUsed-Later id step =
      Later_induction (StepUsed id step)
        (λ id' step' c used. All-update _ _ _ c.users (λ row h. ground arith) used)
        (λ now id' hash c used. used)
        (λ id' text c used. All-update _ _ _ c.users (λ row h. ground arith) used)

  -- A step that no row is behind is refused later, and so is every earlier one.
  pub used_step_refused :
      (id step again : ℤ) (t u v : State) (second : Bool)
      → StepUsed id step (content t)
      → Later t u
      → again ≤ℤ step
      → advance_step d digest id again u ≡ (ok second, v)
      → second ≡ false
  used_step_refused id step again t u v second used between le g =
      let still = StepUsed-Later id step between used in
      let none_behind = All-weaken _ _ (content u).users (λ row h. ground arith) still in
      rw
        (
          (advance_step_ok id again u v second g).1,
          count-All (behind d digest id again) (content u).users none_behind,
        )
        refl

  -- Once `AdvanceStep` has answered for a step, it refuses that step and every earlier one of the user,
  -- after any number of further checks of codes and started setups, of any user.
  pub step_accepted_once :
      (id step again : ℤ) (s t u v : State) (first second : Bool)
      → advance_step d digest id step s ≡ (ok first, t)
      → Later t u
      → again ≤ℤ step
      → advance_step d digest id again u ≡ (ok second, v)
      → second ≡ false
  step_accepted_once id step again s t u v first second h between le g =
      used_step_refused id step again t u v second
        (rw ((advance_step_ok id step s t first h).0)
          (All-update_fails _ _ (content s).users (λ row. ground arith)))
        between le g

  abbrev CodeSpent : ℤ → Text → MfaTables → Type 0
  CodeSpent id hash c = All (λ row. redeemable d digest id hash row ≡ false) c.recovery_codes

  CodeSpent-Later :
      {s t : State} (id : ℤ) (hash : Text)
      → Later s t
      → CodeSpent id hash (content s)
      → CodeSpent id hash (content t)
  CodeSpent-Later id hash =
      Later_induction (CodeSpent id hash) (λ id' step' c spent. spent)
        (λ now id' hash' c spent. All-update _ _ _ c.recovery_codes (λ row h. ground arith) spent)
        (λ id' text c spent. spent)

  -- A recovery code that `ConsumeRecoveryCode` has accepted is refused from then on, in every spelling
  -- that normalises alike, after any number of further checks of codes and started setups, of any user.
  pub recovery_code_accepted_once :
      (now later : ℕ) (id : ℤ) (code again : Text) (s t u v : State) (second : Bool)
      → consume_recovery_code d digest now id code s ≡ (ok true, t)
      → Later t u
      → normalize_recovery_code again ≡ normalize_recovery_code code
      → consume_recovery_code d digest later id again u ≡ (ok second, v)
      → second ≡ false
  unfolding consume_recovery_code
  recovery_code_accepted_once now later id code again s t u v second h between same g =
      elim (Bool-cases (normalize_recovery_code code is [])) [
        | inl e ↦ ground arith
        | inr e ↦
            let hash = digest (normalize_recovery_code code) in
            let spent : CodeSpent id hash (content t) =
              rw ((redeem_ok now id hash s t true (rw e at h)).0)
                (All-update_fails _ _ (content s).recovery_codes (λ row. ground arith)) in
            let still = CodeSpent-Later id hash between spent in
            rw
              (
                (redeem_ok later id hash u v second (rw (same, e) at g)).1,
                count-All (redeemable d digest id hash) (content u).recovery_codes still,
              )
              refl
      ]
