-- ===== src/ClientIp.antt =====
-- internal/server/client_ip.go: the address of the client of a request, which proxies may forward.
-- What the code calls of packages net and strings is a parameter, `NetText`.
pub mod Forwarding
use mxkeys_org.Prelude.{
  ℕ, Bool, true, false, not, ◌&&◌, ◌||◌, Option, none, some, List, [], ◌∷◌, length, ◌==◌,
  if◌then◌else◌, bytes_eq, Text, is_empty, split,
}
use mxkeys_org.Addresses.{Ip, v4, v6, Net}

-- A *net.IPNet: the one of a single address, or one of net.ParseCIDR by its Contains.
pub data ProxyNetwork : Type 0 where
  single : Ip → ProxyNetwork
  range : (Ip → Bool) → ProxyNetwork

-- net.SplitHostPort as the host, net.ParseCIDR and net.IP.String
pub record NetText : Type 0 where
  pub net : Net
  pub split_host : Text → Option Text
  pub parse_cidr : Text → Option (Ip → Bool)
  pub to_text : Ip → Text

-- The variables trustForwardedHeaders and trustedProxyNetworks.
pub record ClientIpPolicy : Type 0 where
  pub trust_forwarded : Bool
  pub networks : List ProxyNetwork

-- The parts of an http.Request that are read; a header that is missing is empty.
pub record Request : Type 0 where
  pub remote_addr : Text
  pub forwarded_for : Text
  pub real_ip : Text

abbrev pub same_ip : Ip → Ip → Bool
same_ip (v4 a b c d) (v4 a' b' c' d') = a == a' && (b == b') && (c == c') && (d == d')
same_ip (v6 xs) (v6 ys) = bytes_eq xs ys
same_ip _ _ = false

-- network.Contains(ip)
abbrev pub network_contains : ProxyNetwork → Ip → Bool
network_contains (single own) ip = same_ip own ip
network_contains (range has) ip = has ip

-- isTrustedProxyIP of an address
unfoldable pub is_trusted_proxy : List ProxyNetwork → Ip → Bool
is_trusted_proxy [] ip = false
is_trusted_proxy (n ∷ ns) ip = if network_contains n ip then true else is_trusted_proxy ns ip

abbrev pub parsed_network : Option Ip → Option (Ip → Bool) → Option ProxyNetwork
parsed_network (some ip) cidr = some (single ip)
parsed_network none (some has) = some (range has)
parsed_network none none = none

abbrev pub add_network :
    Option ProxyNetwork → Option (List ProxyNetwork) → Option (List ProxyNetwork)
add_network none rest = none
add_network (some n) none = none
add_network (some n) (some ns) = some (n ∷ ns)

abbrev pub configured : ClientIpPolicy → Bool → Option (List ProxyNetwork) → ClientIpPolicy × Bool
configured policy trust none = (policy, false)
configured policy trust (some networks) =
    (record { trust_forwarded = trust; networks = networks }, true)

abbrev pub add_ip : Option Ip → List Ip → List Ip
add_ip none chain = chain
add_ip (some ip) chain = ip ∷ chain

abbrev pub or_else : Option Ip → Option Ip → Option Ip
or_else (some later) here = some later
or_else none here = here

-- The loop from the end of the chain to its front.
unfoldable pub last_untrusted : List ProxyNetwork → List Ip → Option Ip
unfolding is_trusted_proxy
last_untrusted networks [] = none
last_untrusted networks (ip ∷ chain) =
    or_else (last_untrusted networks chain) (if is_trusted_proxy networks ip then none else some ip)

unfoldable pub should_trust_forwarded_headers : ClientIpPolicy → Option Ip → Bool
unfolding is_trusted_proxy
should_trust_forwarded_headers policy none = false
should_trust_forwarded_headers policy (some ip) =
    if not policy.trust_forwarded then false else is_trusted_proxy policy.networks ip

module _ (world : NetText) where
  -- The loop of ConfigureClientIPPolicy; `none` is its error.
  unfoldable pub parse_networks : List Text → Option (List ProxyNetwork)
  parse_networks [] = some []
  parse_networks (raw ∷ later) =
      let rest = parse_networks later in
      let text = world.net.trim_space raw in
      if is_empty text
      then rest
      else add_network (parsed_network (world.net.parse_ip text) (world.parse_cidr text)) rest

  unfoldable pub configure_client_ip_policy :
      ClientIpPolicy → Bool → List Text → ClientIpPolicy × Bool
  unfolding parse_networks
  configure_client_ip_policy policy trust proxies = configured policy trust (parse_networks proxies)

  abbrev pub peer_host : Text → Option Text → Text
  peer_host remote none = remote
  peer_host remote (some host) = host

  unfoldable pub direct_peer_ip : Request → Option Ip
  direct_peer_ip r =
      world.net.parse_ip
        (world.net.trim_space (peer_host r.remote_addr (world.split_host r.remote_addr)))

  -- The loop of forwardedIPChain.
  unfoldable pub chain_of : List Text → List Ip
  chain_of [] = []
  chain_of (part ∷ parts) = add_ip (world.net.parse_ip (world.net.trim_space part)) (chain_of parts)

  unfoldable pub forwarded_ip_chain : Text → List Ip
  unfolding chain_of split
  forwarded_ip_chain header = chain_of (split 44 header)

  abbrev pub real_client_ip : Text → Option Ip
  real_client_ip text = if is_empty text then none else world.net.parse_ip text

  abbrev pub chosen : List Ip → Option Ip → Option Ip → Option Ip
  chosen chain (some ip) real = some ip
  chosen [] none real = real
  chosen (first ∷ chain) none real = some first

  unfoldable pub forwarded_client_ip : List ProxyNetwork → Request → Option Ip
  unfolding forwarded_ip_chain last_untrusted
  forwarded_client_ip networks r =
      let real = real_client_ip (world.net.trim_space r.real_ip) in
      let chain = forwarded_ip_chain r.forwarded_for in
      if is_empty r.forwarded_for then real else chosen chain (last_untrusted networks chain) real

  abbrev pub direct_text : Request → Option Ip → Text
  direct_text r none = r.remote_addr
  direct_text r (some ip) = world.to_text ip

  abbrev pub forwarded_text : Request → Option Ip → Option Ip → Text
  forwarded_text r direct (some ip) = world.to_text ip
  forwarded_text r direct none = direct_text r direct

  unfoldable pub client_ip_from_request : ClientIpPolicy → Request → Text
  unfolding direct_peer_ip should_trust_forwarded_headers forwarded_client_ip
  client_ip_from_request policy r =
      let direct = direct_peer_ip r in
      if should_trust_forwarded_headers policy direct
      then forwarded_text r direct (forwarded_client_ip policy.networks r)
      else direct_text r direct
