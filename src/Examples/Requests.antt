-- ===== src/Examples/Requests.antt =====
-- Requests with forwarded addresses, for internal/server/client_ip.go.
use mxkeys_org.Prelude.{
  ◌≡◌, refl, true, false, Option, none, some, [], ◌∷◌, ◌==◌, if◌then◌else◌, Text, bytes_eq,
}
use mxkeys_org.Addresses.{Ip, v4, v6}
use mxkeys_org.ClientIp.{
  single, NetText, ClientIpPolicy, Request, is_trusted_proxy, forwarded_ip_chain,
  should_trust_forwarded_headers, direct_peer_ip, client_ip_from_request,
  configure_client_ip_policy,
}
use mxkeys_org.ClientIp.Forwarding.{forwarded_client}

-- p is the address of a proxy, c and x are those of clients.
abbrev parse_letter : Text → Option Ip
parse_letter [] = none
parse_letter (letter ∷ s) =
    if letter == b'p'
    then some (v4 10 0 0 1)
    else if letter == b'c'
    then some (v4 9 9 9 9)
    else if letter == b'x'
    then some (v4 8 8 8 8)
    else none

abbrev first_byte : Ip → Text
first_byte (v4 a b c d) = a ∷ []
first_byte (v6 bytes) = []

abbrev letters : NetText
letters = record {
  net = record { parse_ip = parse_letter; trim_space = λ t. t; to_lower = λ t. t };
  split_host = λ t. none;
  parse_cidr = λ t. none;
  to_text = first_byte;
}

abbrev behind_proxy : ClientIpPolicy
behind_proxy = record { trust_forwarded = true; networks = single (v4 10 0 0 1) ∷ [] }

-- p is configured as a proxy.
configures_proxy :
    configure_client_ip_policy letters
      (record { trust_forwarded = false; networks = [] })
      true
      ((b'p' ∷ []) ∷ [] ∷ [])
    ≡ (behind_proxy, true)
unfolding configure_client_ip_policy
configures_proxy = refl

-- A request from p with x,c,p in X-Forwarded-For.
abbrev forged : Request
forged = record {
  remote_addr = b'p' ∷ [];
  forwarded_for = b'x' ∷ b',' ∷ b'c' ∷ b',' ∷ b'p' ∷ [];
  real_ip = b'x' ∷ [];
}

forwarded_client_example : client_ip_from_request letters behind_proxy forged ≡ 9 ∷ []
unfolding forwarded_ip_chain should_trust_forwarded_headers direct_peer_ip is_trusted_proxy bytes_eq
forwarded_client_example =
    forwarded_client letters behind_proxy forged (b'x' ∷ []) (b'c' ∷ b',' ∷ b'p' ∷ []) (v4 9 9 9 9)
      (v4 10 0 0 1 ∷ []) refl refl refl refl (refl, tt)

-- The same headers from c.
abbrev from_client : Request
from_client = record { remote_addr = b'c' ∷ []; forwarded_for = b'x' ∷ []; real_ip = b'x' ∷ [] }

abbrev without_headers : Request
without_headers = record { remote_addr = b'c' ∷ []; forwarded_for = []; real_ip = [] }
