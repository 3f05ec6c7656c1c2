-- ===== src/Auth/Totp/Accept.antt =====
-- The codes that `ValidateTOTP` accepts, and their steps.
use dorian_back_end.Prelude.{
  ℕ, ◌/◌, ◌≡◌, ◌≢◌, refl, ◌∙◌, ◌⊎◌, Option, none, some, List, [], ◌∷◌, arith, ℤ, pos, negsuc, ◌+ℤ◌,
  ◌<ℤ◌, leb_ℤ, Bool-cases, inl, inr, Option-cases,
}
use dorian_back_end.Text.{Text, ◌is◌, is_iff, trim_space, remove_all, byte_length, to_upper}
use dorian_back_end.Auth.Totp.{
  totp_period, totp_digits, offsets, totp_code, usable_key, matching_step, validate_totp,
}

usable_key_ok :
    (o : Option (List ℕ)) (key : List ℕ) → usable_key o ≡ some key → (o ≡ some key) × (key ≢ [])
unfolding usable_key
usable_key_ok none key h = absurd (ground arith)
usable_key_ok (some []) key h = absurd (ground arith)
usable_key_ok (some (b ∷ bs)) key h = (h, ground arith)

module _ (mac : List ℕ → List ℕ → List ℕ) where
  -- The steps that the loop visits.
  data InWindow (current : ℕ) (step : ℤ) : List ℤ → Type 0 where
    at : {o : ℤ} {os : List ℤ} → step ≡ pos current +ℤ o → InWindow current step (o ∷ os)
    after : {o : ℤ} {os : List ℤ} → InWindow current step os → InWindow current step (o ∷ os)

  -- A step one before the clock's, the clock's own, or one after it.
  abbrev pub IsNear : ℕ → ℤ → Type 0
  IsNear current step =
      (step ≡ pos current +ℤ negsuc 0) ⊎ (step ≡ pos current) ⊎ (step ≡ pos current +ℤ pos 1)

  +ℤ-pos_zero : (n : ℕ) → pos n +ℤ pos 0 ≡ pos n
  unfolding ◌+ℤ◌
  +ℤ-pos_zero n = ground arith

  InWindow-IsNear : (current : ℕ) (step : ℤ) → InWindow current step offsets → IsNear current step
  InWindow-IsNear current step (at e) = inl e
  InWindow-IsNear current step (after (at e)) = inr (inl (e ∙ +ℤ-pos_zero current))
  InWindow-IsNear current step (after (after (at e))) = inr (inr e)
  InWindow-IsNear current step (after (after (after w))) = elim w [ ]

  matching_step_sound :
      (key : List ℕ) (code : Text) (current : ℕ) (last_step : ℤ) (os : List ℤ) (step : ℤ)
      → matching_step mac key code current last_step os ≡ some step
      → (last_step <ℤ step) × (totp_code mac key step ≡ code) × InWindow current step os
  unfolding matching_step
  matching_step_sound key code current last_step [] step h = absurd (ground arith)
  matching_step_sound key code current last_step (o ∷ os) step h =
      let here = pos current +ℤ o in
      let rest = matching_step_sound key code current last_step os step in
      elim (Bool-cases (leb_ℤ here last_step)) [
        | inl old ↦ let (a, b, c) = rest (rw old at h) in (a, b, after c)
        | inr new ↦ elim (Bool-cases (totp_code mac key here is code)) [
          | inl e ↦
              let same : here ≡ step = ground arith in
              rw (← same) (ground arith, (is_iff _ _).0 e, at refl)
          | inr e ↦ let (a, b, c) = rest (rw e at (rw new at h)) in (a, b, after c)
        ]
      ]

  module _ (decode : Text → Option (List ℕ)) where
    -- An accepted code has six bytes once its spaces are taken out, the secret decodes to a key that is
    -- not empty, and the step that is returned lies behind the last accepted one, at most one step from
    -- the clock's, and has exactly this code.
    pub validate_totp_sound :
        (secret code : Text) (now : ℕ) (last_step step : ℤ)
        → validate_totp mac decode secret code now last_step ≡ some step
        → (key : List ℕ) × (decode (to_upper (trim_space secret)) ≡ some key)
          × (key ≢ [])
          × (byte_length (remove_all b' ' (trim_space code)) ≡ totp_digits)
          × (last_step <ℤ step)
          × (totp_code mac key step ≡ remove_all b' ' (trim_space code))
          × IsNear (now / 30) step
    unfolding validate_totp
    validate_totp_sound secret code now last_step step h =
        let digits = remove_all b' ' (trim_space code) in
        elim (Option-cases (usable_key (decode (to_upper (trim_space secret))))) [
          | inl e ↦ absurd (ground arith)
          | inr (key, e) ↦
              let six : byte_length digits ≡ totp_digits = ground arith in
              let hit : matching_step mac key digits (now / totp_period) last_step offsets
                  ≡ some step =
                ground arith in
              let (decoded, nonempty) = usable_key_ok _ key e in
              let (new, coded, near) =
                matching_step_sound key digits (now / totp_period) last_step offsets step hit in
              (
                key,
                decoded,
                nonempty,
                six,
                new,
                coded,
                InWindow-IsNear (now / totp_period) step near,
              )
        ]
