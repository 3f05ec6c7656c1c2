-- ===== src/Api/MfaSettings/Enrolment.antt =====
-- Enrolment over the second-factor store, followed by a sign-in.
use dorian_back_end.Prelude.{ℕ, ◌≡◌, Option, some, List, ℤ, pos}
use dorian_back_end.Text.{Text}
use dorian_back_end.Action.{Result, ok}
use dorian_back_end.Store.Database.{Database, IsDocumented}
use dorian_back_end.Store.UserMfa.{MfaTables, enable, pending_secret}

module _ (d : Database MfaTables) (doc : IsDocumented d) (digest : Text → Text)
    (validate : Text → Text → ℤ → Option ℤ) where
  open d use {State, content, run}

  -- What `enable` checked: the pending secret, and a step whose code was given.
  pub record Enabled (now : ℕ) (raws : Result (List Text)) (id : ℤ) (code : Text) (s t : State)
      (shown : List Text) : Type 0 where
    pub pending : Text
    pub step : ℤ
    pub read_in : State
    pub read : pending_secret d digest id s ≡ (ok pending, read_in)
    pub matched : validate pending code (pos 0) ≡ some step
    pub enabled : enable d digest raws now id pending step read_in ≡ (ok shown, t)
