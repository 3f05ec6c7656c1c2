-- ===== src/Api/ClientIp.antt =====
-- internal/api/client_ip.go: the IP of a caller. `net.SplitHostPort` and `net.ParseIP` are parameters: the
-- first gives the host, the second says whether an address is a loopback one.
pub mod Forwarded
use dorian_back_end.Prelude.{
  ◌≡◌, Bool, true, false, not, ◌&&◌, Option, none, some, List, [], ◌∷◌, if◌then◌else◌,
}
use dorian_back_end.Text.{Text, ◌is◌, trim_space, split, last_part}

-- The parts of a request that are read; an absent header is empty.
pub record PeerRequest : Type 0 where
  pub remote_addr : Text
  pub x_real_ip : Text
  pub x_forwarded_for : Text

module _ (split_host_port : Text → Option Text) (parse_ip : Text → Option Bool) where
  abbrev pub host_or_all : Text → Option Text → Text
  host_or_all addr none = addr
  host_or_all addr (some host) = if host is [] then addr else host

  unfoldable pub remote_host : Text → Text
  remote_host remote_addr =
      host_or_all (trim_space remote_addr) (split_host_port (trim_space remote_addr))

  abbrev pub is_ip : Text → Bool
  is_ip s = elim (parse_ip s) [ none ↦ false | some loopback ↦ true ]

  unfoldable pub is_trusted_proxy : Text → Bool
  is_trusted_proxy host = elim (parse_ip host) [ none ↦ false | some loopback ↦ loopback ]

  -- The right-most entry of X-Forwarded-For.
  abbrev pub candidate : Text → Text
  candidate forwarded = trim_space (last_part (split forwarded b','))

  abbrev pub from_forwarded : Text → Text → Text
  from_forwarded peer forwarded =
      if not (forwarded is []) && is_ip (candidate forwarded) then candidate forwarded else peer

  unfoldable pub client_ip_from_request : PeerRequest → Text
  client_ip_from_request r =
      let peer = remote_host r.remote_addr in
      let real_ip = trim_space r.x_real_ip in
      if not (is_trusted_proxy peer)
      then peer
      else if not (real_ip is []) && is_ip real_ip
      then real_ip
      else from_forwarded peer (trim_space r.x_forwarded_for)
