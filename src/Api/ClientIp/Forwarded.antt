-- ===== src/Api/ClientIp/Forwarded.antt =====
-- The recorded IP of a client behind a proxy, and the headers that the client writes.
use dorian_back_end.Prelude.{
  ℕ, ◌≡◌, refl, sym, ap, ◌∙◌, Bool, true, false, Option, some, Bool-cases, inl, inr, List, [], ◌∷◌,
  ◌++◌, arith, ◌==◌,
}
use dorian_back_end.Text.{Text, ◌is◌, trim_space, contains, split, last_part}
use dorian_back_end.Text.Split.{append_is_nil, split-flat}
use dorian_back_end.Api.ClientIp.{remote_host, is_trusted_proxy, client_ip_from_request}

blank_is_nil : (trim_space [] is []) ≡ true
unfolding trim_space ◌is◌
blank_is_nil = refl

-- Every text has a first part.
split-cons : (s : Text) (c : ℕ) → (p : Text) × (ps : List Text) × (split s c ≡ p ∷ ps)
unfolding split
split-cons [] c = ([], [], refl)
split-cons (d ∷ s) c =
    let (p, ps, e) = split-cons s c in
    elim (Bool-cases (d == c)) [
      | inl hit ↦ ([], p ∷ ps, ground (arith, e))
      | inr miss ↦ (d ∷ p, ps, ground (arith, e))
    ]

-- A text with a separator has two parts at least, and the last one stands behind the separator.
two_parts :
    (s t : Text) (c : ℕ)
    → (p q : Text) × (qs : List Text) × (split (s ++ (c ∷ t)) c ≡ p ∷ q ∷ qs)
      × (last_part (q ∷ qs) ≡ last_part (split t c))
unfolding split last_part
two_parts [] t c =
    let (q, qs, e) = split-cons t c in ([], q, qs, ground (arith, e), ap last_part (sym e))
two_parts (d ∷ s) t c =
    let (p, q, qs, e, last) = two_parts s t c in
    elim (Bool-cases (d == c)) [
      | inl hit ↦ ([], p, q ∷ qs, ground (arith, e), last)
      | inr miss ↦ (d ∷ p, q, qs, ground (arith, e), last)
    ]

last_part-split :
    (s t : Text) (c : ℕ) → contains t c ≡ false → last_part (split (s ++ (c ∷ t)) c) ≡ t
unfolding last_part
last_part-split s t c flat =
    let (p, q, qs, e, last) = two_parts s t c in rw e (last ∙ rw (split-flat t c flat) refl)

module _ (split_host_port : Text → Option Text) (parse_ip : Text → Option Bool) where
  -- Behind a trusted proxy without X-Real-IP, the caller's IP is the address that the proxy appended to
  -- X-Forwarded-For, if it is one and has no comma, whatever the client wrote before it; the header
  -- has no spaces at its ends.
  pub appended_ip :
      (addr claimed real : Text) (loopback : Bool)
      → is_trusted_proxy split_host_port parse_ip (remote_host split_host_port parse_ip addr) ≡ true
      → contains real b',' ≡ false
      → parse_ip (trim_space real) ≡ some loopback
      → trim_space (claimed ++ (b',' ∷ real)) ≡ claimed ++ (b',' ∷ real)
      → client_ip_from_request split_host_port parse_ip (record {
        remote_addr = addr;
        x_real_ip = [];
        x_forwarded_for = claimed ++ (b',' ∷ real);
      })
        ≡ trim_space real
  unfolding client_ip_from_request
  appended_ip addr claimed real loopback trusted flat valid trimmed =
      rw
        (
          trusted,
          blank_is_nil,
          trimmed,
          append_is_nil claimed real b',',
          last_part-split claimed real b',' flat,
        )
        (ground (arith, valid))
