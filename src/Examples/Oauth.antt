-- ===== src/Examples/Oauth.antt =====
-- A state that is signed with a toy MAC and read back.
use dorian_back_end.Prelude.{◌≡◌, refl, false, some, [], ◌++◌, pos}
use dorian_back_end.Text.{Text, codes, ◌is◌, trim_space, split}
use dorian_back_end.Auth.OauthState.{
  OauthState, Codec, sanitize_oauth_redirect, encode_oauth_state, decode_oauth_state, checked,
}
use dorian_back_end.Auth.OauthState.RoundTrip
use dorian_back_end.Auth.OauthState.RoundTrip.{
  IsLocal, IsGenuine, sanitize_oauth_redirect-IsLocal, decode-encode, decode_oauth_state_sound,
}

abbrev state : OauthState
state = record {
  nonce = codes "n";
  provider = codes "google";
  redirect = codes "/app/sites";
  remember = false;
  issued_at = pos 1000;
}

-- One state is known, as "J"; base64 is left out, and the MAC is the key behind the text.
abbrev codec : Codec
codec = record {
  to_json = λ s. codes "J";
  from_json = λ text. some state;
  encode = λ bytes. bytes;
  decode = λ text. some text;
  mac = λ key text. text ++ key;
}

abbrev key : Text
key = codes "k"

documented : RoundTrip.IsDocumented codec state (trim_space key)
unfolding ◌is◌ dorian_back_end.Text.contains trim_space
documented = record {
  json_inverse = refl;
  json_nonempty = refl;
  mac_nonempty = refl;
  payload = record { inverse = refl; no_dot = refl; nonempty = λ h. refl };
  signature = record { inverse = refl; no_dot = refl; nonempty = λ h. refl };
  unspaced = refl;
}

sanitize_oauth_redirect-IsLocal_example : IsLocal (sanitize_oauth_redirect (codes "//evil.example"))
sanitize_oauth_redirect-IsLocal_example = sanitize_oauth_redirect-IsLocal (codes "//evil.example")

decode-encode_example :
    decode_oauth_state codec (codes "J.Jk") key 1001000 ≡ checked codec 1001000 state
unfolding encode_oauth_state ◌is◌ trim_space
decode-encode_example = decode-encode codec state key documented (codes "J.Jk") 1001000 refl

decode_oauth_state_sound_example :
    ((trim_space key is []) ≡ false)
    × IsGenuine codec (trim_space key) 1001000 (split (trim_space (codes "J.Jk")) b'.') state
unfolding decode_oauth_state ◌is◌ trim_space split sanitize_oauth_redirect
    dorian_back_end.Text.has_prefix dorian_back_end.Text.strip dorian_back_end.Text.contains
decode_oauth_state_sound_example =
    decode_oauth_state_sound codec (codes "J.Jk") key 1001000 state refl
