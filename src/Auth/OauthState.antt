-- ===== src/Auth/OauthState.antt =====
-- internal/auth/oauth_state.go: the signed `state` of an OAuth round trip. JSON, base64, HMAC-SHA256 and
-- the nonce are parameters. The clock is in milliseconds, the time of issue in seconds.
pub mod RoundTrip
use dorian_back_end.Prelude.{
  ℕ, ◌+◌, ◌*◌, ◌/◌, ◌≡◌, Bool, true, false, not, ◌&&◌, ◌||◌, Option, none, some, List, [], ◌∷◌,
  ◌++◌, ltb, if◌then◌else◌, ℤ, pos, positive, pos_part, ltb_ℤ,
}
use dorian_back_end.Text.{Text, codes, ◌is◌, trim_space, has_prefix, contains, split}
use dorian_back_end.Action.{Result, Error, ok, err, invalid, expired}

pub record OauthState : Type 0 where
  pub nonce : Text
  pub provider : Text
  pub redirect : Text
  pub remember : Bool
  pub issued_at : ℤ

abbrev pub oauth_state_ttl : ℕ
oauth_state_ttl = 600000

unfoldable pub sanitize_oauth_redirect : Text → Text
sanitize_oauth_redirect redirect =
    let r = trim_space redirect in
    if r is []
    then codes "/app"
    else if not (has_prefix r (codes "/")) || has_prefix r (codes "//")
    then codes "/app"
    else if contains r 13 || contains r 10
    then codes "/app"
    else r

abbrev pub state_with : Text → Bool → ℕ → Text → Text → OauthState
state_with provider remember now redirect nonce = record {
  nonce = nonce;
  provider = trim_space provider;
  redirect = sanitize_oauth_redirect redirect;
  remember = remember;
  issued_at = pos (now / 1000);
}

-- `drawn` is what `randomNonce(16)` returned.
unfoldable pub new_oauth_state : Result Text → Text → Text → Bool → ℕ → Result OauthState
new_oauth_state (err e) provider redirect remember now = err e
new_oauth_state (ok nonce) provider redirect remember now =
    ok (state_with provider remember now redirect nonce)

-- The parameters: `json.Marshal` and `json.Unmarshal` of a state, base64 of a text and of a MAC, and the MAC
-- itself under a key. A MAC is a list of bytes.
pub record Codec : Type 0 where
  pub to_json : OauthState → Text
  pub from_json : Text → Option OauthState
  pub encode : List ℕ → Text
  pub decode : Text → Option (List ℕ)
  pub mac : Text → Text → List ℕ

module _ (c : Codec) where
  open c use {to_json, from_json, encode, decode, mac}

  unfoldable pub encode_oauth_state : OauthState → Text → Result Text
  encode_oauth_state state secret =
      if trim_space secret is []
      then err invalid
      else (let payload = encode (to_json state) in
          ok (payload ++ (b'.' ∷ encode (mac (trim_space secret) payload))))

  -- `time.Since(issued) > ttl || issued.After(now + 1 min)`; the clock is at `now` for both.
  abbrev pub out_of_time : ℕ → ℤ → Bool
  out_of_time now issued =
      ltb (pos_part issued * 1000 + oauth_state_ttl) now
      || ltb (now + 60000) (pos_part issued * 1000)

  abbrev pub checked : ℕ → OauthState → Result OauthState
  checked now state =
      if (state.nonce is []) || (state.provider is []) || not (positive state.issued_at)
      then err invalid
      else if out_of_time now state.issued_at
      then err expired
      else ok (record state { redirect = sanitize_oauth_redirect state.redirect })

  abbrev pub parsed : ℕ → Option OauthState → Result OauthState
  parsed now none = err invalid
  parsed now (some state) = checked now state

  abbrev pub payload_of : ℕ → Option (List ℕ) → Result OauthState
  payload_of now none = err invalid
  payload_of now (some payload) = parsed now (from_json payload)

  -- `hmac.Equal` on the decoded signature.
  abbrev pub signed : List ℕ → Option (List ℕ) → Bool
  signed expected none = false
  signed expected (some got) = expected is got

  abbrev pub of_parts : Text → ℕ → List Text → Result OauthState
  of_parts secret now (payload ∷ sig ∷ []) =
      if (payload is []) || (sig is [])
      then err invalid
      else if not (signed (mac secret payload) (decode sig))
      then err invalid
      else payload_of now (decode payload)
  of_parts secret now parts = err invalid

  unfoldable pub decode_oauth_state : Text → Text → ℕ → Result OauthState
  decode_oauth_state raw secret now =
      if (trim_space secret is []) || (trim_space raw is [])
      then err invalid
      else of_parts (trim_space secret) now (split (trim_space raw) b'.')
