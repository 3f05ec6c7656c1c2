-- ===== src/Auth/OauthState/RoundTrip.antt =====
-- States that are encoded and decoded, and the pages that they lead to.
use dorian_back_end.Prelude.{
  subst, ℕ, ◌+◌, ◌*◌, ◌≤◌, ◌≡◌, ◌≢◌, pos, negsuc, pos_part, positive, ◌<ℤ◌, ℤ, refl, inl, inr, true,
  false, not, ◌||◌, Option, none, some, List, [], ◌∷◌, ◌++◌, arith, Bool-cases, Option-cases,
}
use dorian_back_end.Text.{
  Text, codes, ◌is◌, is_iff, is_refl, trim_space, has_prefix, contains, split,
}
use dorian_back_end.Text.Affix.{strip}
use dorian_back_end.Text.Split.{append_is_nil, split-flat, split-append}
use dorian_back_end.Action.{ok}
use dorian_back_end.Auth.OauthState.{
  OauthState, sanitize_oauth_redirect, Codec, encode_oauth_state, decode_oauth_state, out_of_time,
  checked, payload_of, signed, of_parts,
}

-- A redirect within the panel: it starts with one slash and has no line break.
pub record IsLocal (r : Text) : Type 0 where
  pub rooted : has_prefix r (codes "/") ≡ true
  pub no_host : has_prefix r (codes "//") ≡ false
  pub no_return : contains r 13 ≡ false
  pub no_newline : contains r 10 ≡ false

IsLocal-app : IsLocal (codes "/app")
unfolding has_prefix contains strip
IsLocal-app = record { rooted = refl; no_host = refl; no_return = refl; no_newline = refl }

IsLocal-checked :
    (r : Text)
    → (not (has_prefix r (codes "/")) || has_prefix r (codes "//")) ≡ false
    → (contains r 13 || contains r 10) ≡ false
    → IsLocal r
IsLocal-checked r roots breaks = record {
  rooted = ground arith;
  no_host = ground arith;
  no_return = ground arith;
  no_newline = ground arith;
}

-- `sanitizeOAuthRedirect` always gives a redirect within the panel.
pub sanitize_oauth_redirect-IsLocal : (redirect : Text) → IsLocal (sanitize_oauth_redirect redirect)
unfolding sanitize_oauth_redirect
sanitize_oauth_redirect-IsLocal redirect =
    let r = trim_space redirect in
    elim (Bool-cases (r is [])) [
      | inl e ↦ rw e IsLocal-app
      | inr e ↦ elim (Bool-cases (not (has_prefix r (codes "/")) || has_prefix r (codes "//"))) [
        | inl away ↦ rw (e, away) IsLocal-app
        | inr roots ↦ elim (Bool-cases (contains r 13 || contains r 10)) [
          | inl broken ↦ rw (e, roots, broken) IsLocal-app
          | inr whole ↦ rw (e, roots, whole) (IsLocal-checked r roots whole)
        ]
      ]
    ]

module _ (c : Codec) where
  open c use {to_json, from_json, encode, decode, mac}

  -- What the documentation of base64 says of some bytes: decoding gives them back, the text has no
  -- dot, and it is empty only for no bytes.
  pub record IsBase64 (bytes : List ℕ) : Type 0 where
    pub inverse : decode (encode bytes) ≡ some bytes
    pub no_dot : contains (encode bytes) b'.' ≡ false
    pub nonempty : (bytes is []) ≡ false → (encode bytes is []) ≡ false

  -- What the libraries document, at a state and a key: JSON is read back, JSON and MACs are not empty, and
  -- the base64 alphabet has no space.
  pub record IsDocumented (state : OauthState) (key : Text) : Type 0 where
    pub json_inverse : from_json (to_json state) ≡ some state
    pub json_nonempty : (to_json state is []) ≡ false
    pub mac_nonempty : (mac key (encode (to_json state)) is []) ≡ false
    pub payload : IsBase64 (to_json state)
    pub signature : IsBase64 (mac key (encode (to_json state)))
    pub unspaced :
        let text = encode (to_json state) ++ (b'.' ∷ encode (mac key (encode (to_json state)))) in
        trim_space text ≡ text

  module _ (state : OauthState) (secret : Text) (doc : IsDocumented state (trim_space secret)) where
    abbrev key : Text
    key = trim_space secret

    abbrev payload : Text
    payload = encode (to_json state)

    abbrev sig : Text
    sig = encode (mac key payload)

    parts_decoded : (now : ℕ) → of_parts c key now (payload ∷ sig ∷ []) ≡ checked c now state
    parts_decoded now =
        rw
          (
            doc.payload.nonempty doc.json_nonempty,
            doc.signature.nonempty doc.mac_nonempty,
            doc.signature.inverse,
            is_refl (mac key payload),
            doc.payload.inverse,
            doc.json_inverse,
          )
          refl

    -- Where JSON and base64 give back what was encoded, a state that was encoded is decoded under the same
    -- secret to what its checks leave of it: itself with the redirect sanitised, if it is complete and in
    -- time.
    pub decode-encode :
        (raw : Text) (now : ℕ)
        → encode_oauth_state c state secret ≡ ok raw
        → decode_oauth_state c raw secret now ≡ checked c now state
    unfolding encode_oauth_state decode_oauth_state
    decode-encode raw now h = elim (Bool-cases (key is [])) [
      | inl e ↦ absurd (ground arith)
      | inr e ↦
          let same : payload ++ (b'.' ∷ sig) ≡ raw = ground arith in
          rw
            (
              ← same,
              e,
              doc.unspaced,
              append_is_nil payload sig b'.',
              split-append payload sig b'.' doc.payload.no_dot,
              split-flat sig b'.' doc.signature.no_dot,
            )
            (parts_decoded now)
    ]

  -- What an accepted state rests on: two parts around one dot, of which the second is the MAC of the
  -- first under the secret, and the first decodes to the state, less the sanitising of its redirect; it is
  -- complete and in time, and its redirect stays within the panel.
  pub record IsGenuine (key : Text) (now : ℕ) (parts : List Text) (state : OauthState)
      : Type 0 where
    pub signed_part : Text
    pub signature : Text
    pub two_parts : parts ≡ signed_part ∷ signature ∷ []
    pub verified : decode signature ≡ some (mac key signed_part)
    pub text : List ℕ
    pub given : OauthState
    pub payload_decoded : decode signed_part ≡ some text
    pub payload_read : from_json text ≡ some given
    pub is_given : state ≡ record given { redirect = sanitize_oauth_redirect given.redirect }
    pub has_nonce : state.nonce ≢ []
    pub has_provider : state.provider ≢ []
    pub is_dated : pos 0 <ℤ state.issued_at
    pub not_old : now ≤ pos_part state.issued_at * 1000 + 600000
    pub not_ahead : pos_part state.issued_at * 1000 ≤ now + 60000
    pub stays : IsLocal state.redirect

  -- What `checked` demands of a state that was read, and what it makes of it.
  record IsChecked (now : ℕ) (given state : OauthState) : Type 0 where
    is_given : state ≡ record given { redirect = sanitize_oauth_redirect given.redirect }
    has_nonce : state.nonce ≢ []
    has_provider : state.provider ≢ []
    is_dated : pos 0 <ℤ state.issued_at
    not_old : now ≤ pos_part state.issued_at * 1000 + 600000
    not_ahead : pos_part state.issued_at * 1000 ≤ now + 60000

  positive_above : (n : ℤ) → positive n ≡ true → pos 0 <ℤ n
  positive_above (pos n) h = ground arith
  positive_above (negsuc n) h = absurd (ground arith)

  not_nil : (s : Text) → (s is []) ≡ false → s ≢ []
  not_nil s h e = absurd (ground (arith, h, (is_iff s []).1 e))

  in_time :
      (now : ℕ) (issued : ℤ)
      → out_of_time c now issued ≡ false
      → (now ≤ pos_part issued * 1000 + 600000) × (pos_part issued * 1000 ≤ now + 60000)
  in_time now issued h = (ground arith, ground arith)

  checked_sound :
      (now : ℕ) (given state : OauthState)
      → checked c now given ≡ ok state
      → IsChecked now given state
  checked_sound now given state h =
      elim (Bool-cases
        ((given.nonce is []) || (given.provider is []) || not (positive given.issued_at))) [
          | inl e ↦ absurd (ground arith)
          | inr complete ↦ elim (Bool-cases (out_of_time c now given.issued_at)) [
            | inl e ↦ absurd (ground arith)
            | inr young ↦
                let same : record given { redirect = sanitize_oauth_redirect given.redirect }
                    ≡ state =
                  ground arith in
                let (not_old, not_ahead) = in_time now given.issued_at young in
                subst (IsChecked now given) same (record {
                  is_given = refl;
                  has_nonce = not_nil given.nonce (ground arith);
                  has_provider = not_nil given.provider (ground arith);
                  is_dated = positive_above given.issued_at (ground arith);
                  not_old = not_old;
                  not_ahead = not_ahead;
                })
          ]
        ]

  payload_of_sound :
      (now : ℕ) (o : Option (List ℕ)) (state : OauthState)
      → payload_of c now o ≡ ok state
      → (text : List ℕ) × (given : OauthState) × (o ≡ some text)
        × (from_json text ≡ some given)
        × IsChecked now given state
  payload_of_sound now none state h = absurd (ground arith)
  payload_of_sound now (some text) state h = elim (Option-cases (from_json text)) [
    | inl e ↦ absurd (ground arith)
    | inr (given, e) ↦ (text, given, refl, e, checked_sound now given state (rw e at h))
  ]

  signed_sound :
      (expected : List ℕ) (o : Option (List ℕ)) → signed c expected o ≡ true → o ≡ some expected
  signed_sound expected none h = absurd (ground arith)
  signed_sound expected (some got) h = ground (arith, is_iff expected got)

  of_parts_sound :
      (key : Text) (now : ℕ) (parts : List Text) (state : OauthState)
      → of_parts c key now parts ≡ ok state
      → IsGenuine key now parts state
  of_parts_sound key now [] state h = absurd (ground arith)
  of_parts_sound key now (a ∷ []) state h = absurd (ground arith)
  of_parts_sound key now (a ∷ b ∷ x ∷ rest) state h = absurd (ground arith)
  of_parts_sound key now (a ∷ b ∷ []) state h = elim (Bool-cases ((a is []) || (b is []))) [
    | inl e ↦ absurd (ground arith)
    | inr e ↦ elim (Bool-cases (signed c (mac key a) (decode b))) [
      | inl good ↦
          let (text, given, decoded, read, sound) =
            payload_of_sound now (decode a) state (rw (e, good) at h) in
          record {
            signed_part = a;
            signature = b;
            two_parts = refl;
            verified = signed_sound (mac key a) (decode b) good;
            text = text;
            given = given;
            payload_decoded = decoded;
            payload_read = read;
            is_given = sound.is_given;
            has_nonce = sound.has_nonce;
            has_provider = sound.has_provider;
            is_dated = sound.is_dated;
            not_old = sound.not_old;
            not_ahead = sound.not_ahead;
            stays = rw (sound.is_given) (sanitize_oauth_redirect-IsLocal given.redirect);
          }
      | inr bad ↦ absurd (ground arith)
    ]
  ]

  -- A state that `DecodeOAuthState` accepts is the one that the payload decodes to, with its redirect
  -- sanitised; the other part is the MAC of the payload under a secret that is not empty. It has a nonce and
  -- a provider, was issued at most ten minutes ago and at most one minute ahead, and redirects within the
  -- panel.
  pub decode_oauth_state_sound :
      (raw secret : Text) (now : ℕ) (state : OauthState)
      → decode_oauth_state c raw secret now ≡ ok state
      → ((trim_space secret is []) ≡ false)
        × IsGenuine (trim_space secret) now (split (trim_space raw) b'.') state
  unfolding decode_oauth_state
  decode_oauth_state_sound raw secret now state h =
      elim (Bool-cases ((trim_space secret is []) || (trim_space raw is []))) [
        | inl e ↦ absurd (ground arith)
        | inr e ↦ (ground arith, of_parts_sound (trim_space secret) now _ state (rw e at h))
      ]
