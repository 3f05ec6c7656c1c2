-- ===== src/Api/SignIn/Once.antt =====
-- The check of a second factor over its store.
use dorian_back_end.Prelude.{
  ℕ, ◌≡◌, refl, ap, sym, ◌∙◌, Bool, true, Option, some, List, [], arith, ℤ, ◌≤ℤ◌, Bool-cases,
  Option-cases, inl, inr,
}
use dorian_back_end.Text.{Text, ◌is◌, trim_space, remove_all}
use dorian_back_end.Action.{Result, ok, err, >>=-eq-ok}
use dorian_back_end.Store.Database.{Database, IsDocumented, found_ok}
use dorian_back_end.Store.UserMfa.Asked.{ask_ok}
use dorian_back_end.Store.UserMfa.{ask, MfaTables, MfaUser, select_user, secret, advance_step}
use dorian_back_end.Store.UserMfa.Replay.{Later, unchanged, step_accepted_once}
use dorian_back_end.Api.SignIn.SecondFactor.{is_code, check_code, verify_second_factor}
use dorian_back_end.Api.SignIn.Wired.{mfa_access}

module _ (d : Database MfaTables) (doc : IsDocumented d) (digest : Text → Text)
    (validate : Text → Text → ℤ → Option ℤ) where
  open d use {State, content, run}

  -- An answered `Secret` leaves the tables as they are.
  pub secret_keeps :
      (id : ℤ) (s t : State) (p : Text × ℤ)
      → secret d digest id s ≡ (ok p, t)
      → content t ≡ content s
  unfolding secret
  secret_keeps id s t p h =
      let (user, u, asked, rest) =
        >>=-eq-ok (ask d digest MfaUser (select_user d digest id)) _ s h in
      ap (λ (q : Result (Text × ℤ) × State). content q.1) (sym rest)
      ∙ (found_ok _ _ (ask_ok d doc digest _ _ s user u asked)).1

  module _ (now : ℕ) (raws : Result (List Text)) where
    -- A six-digit code that is accepted: the step that it was accepted at.
    pub record AtStep (id : ℤ) (raw : Text) (s t : State) : Type 0 where
      pub key : Text
      pub last_step : ℤ
      pub step : ℤ
      pub read_in : State
      pub read : secret d digest id s ≡ (ok (key, last_step), read_in)
      pub matched : validate key (remove_all b' ' (trim_space raw)) last_step ≡ some step
      pub advanced : advance_step d digest id step read_in ≡ (ok true, t)

    check_code_ok :
        (id : ℤ) (raw how : Text) (s t : State) (p : Result (Text × ℤ) × State)
        → secret d digest id s ≡ p
        → check_code (mfa_access d digest now raws) validate id (remove_all b' ' (trim_space raw)) p
          ≡ ((ok true, how), t)
        → AtStep id raw s t
    check_code_ok id raw how s t (err e, u) asked h = absurd (ground arith)
    check_code_ok id raw how s t (ok (key, last_step), u) asked h =
        let compact = remove_all b' ' (trim_space raw) in
        elim (Bool-cases (key is [])) [
          | inl e ↦ absurd (cc (rw e at h))
          | inr e ↦ elim (Option-cases (validate key compact last_step)) [
            | inl k ↦ absurd (cc (rw k at (rw e at h)))
            | inr (step, k) ↦ record {
              key = key;
              last_step = last_step;
              step = step;
              read_in = u;
              read = asked;
              matched = k;
              advanced =
                  ap (λ (q : (Result Bool × Text) × State). (q.0.0, q.1)) (rw k at (rw e at h));
            }
          ]
        ]

    pub verify_code_ok :
        (id : ℤ) (raw how : Text) (s t : State)
        → is_code (mfa_access d digest now raws) validate (remove_all b' ' (trim_space raw)) ≡ true
        → verify_second_factor (mfa_access d digest now raws) validate id raw s
          ≡ ((ok true, how), t)
        → AtStep id raw s t
    unfolding verify_second_factor
    verify_code_ok id raw how s t six h = elim (Bool-cases (trim_space raw is [])) [
      | inl e ↦ absurd (cc (rw e at h))
      | inr e ↦ check_code_ok id raw how s t (secret d digest id s) refl (rw six at (rw e at h))
    ]

  -- Two six-digit codes that are accepted for a user, one after the other and with any further checks
  -- between, were accepted at steps that rise: no accepted step is ever accepted again.
  pub accepted_steps_rise :
      (now later : ℕ) (raws raws' : Result (List Text)) (id : ℤ) (raw again how how' : Text)
      (s t u w : State)
      → is_code (mfa_access d digest now raws) validate (remove_all b' ' (trim_space raw)) ≡ true
      → is_code (mfa_access d digest now raws) validate (remove_all b' ' (trim_space again)) ≡ true
      → verify_second_factor (mfa_access d digest now raws) validate id raw s ≡ ((ok true, how), t)
      → Later d doc digest t u
      → verify_second_factor (mfa_access d digest later raws') validate id again u
        ≡ ((ok true, how'), w)
      → (first : AtStep now raws id raw s t) × (second : AtStep later raws' id again u w) × ¬ (
          second.step ≤ℤ first.step)
  accepted_steps_rise now later raws raws' id raw again how how' s t u w six six' h between g =
      let first = verify_code_ok now raws id raw how s t six h in
      let second = verify_code_ok later raws' id again how' u w six' g in
      (
        first,
        second,
        λ le. absurd (
            cc (
              step_accepted_once d doc digest id first.step second.step first.read_in t
                second.read_in w true true first.advanced
                (unchanged between (secret_keeps id u second.read_in _ second.read)) le
                second.advanced)),
      )
