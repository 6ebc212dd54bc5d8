-- ===== src/Examples/Policies.antt =====
-- Patterns and rules of internal/keys/trustpolicy.go.
use mxkeys_org.Prelude.{
  ◌≡◌, ◌↔◌, refl, true, false, none, some, [], ◌∷◌, arith, Text, bytes_eq, split, has_prefix,
  has_suffix, index_of, if◌then◌else◌,
}
use mxkeys_org.Addresses.{
  Net, v4, v6, is_private_ip, is_loopback, is_private, is_link_local_unicast,
  is_link_local_multicast, in_network,
}
use mxkeys_org.Policy.{PolicyConfig}
use mxkeys_org.Policy.Wildcard.{match_wildcard, consume_all}
use mxkeys_org.Policy.Wildcard.Globs.{Glob}
use mxkeys_org.Policy.Wildcard.Meaning.{wildcard_iff, wildcard_panics}

abbrev abc : Text
abc = b'a' ∷ b'b' ∷ b'c' ∷ []

-- a*c
abbrev a_to_c : Text
a_to_c = b'a' ∷ b'*' ∷ b'c' ∷ []

wildcard_iff_example : (match_wildcard a_to_c abc ≡ some true) ↔ Glob a_to_c abc
wildcard_iff_example = wildcard_iff a_to_c abc

wildcard_hit : match_wildcard a_to_c abc ≡ some true
unfolding match_wildcard bytes_eq split has_prefix has_suffix consume_all index_of
wildcard_hit = refl

-- ab*bc on abc
wildcard_panics_example : match_wildcard (b'a' ∷ b'b' ∷ b'*' ∷ b'b' ∷ b'c' ∷ []) abc ≡ none
wildcard_panics_example =
    wildcard_panics (b'a' ∷ []) (b'b' ∷ []) (b'c' ∷ []) (refl, (refl, tt)) (refl, (refl, tt))
      (omega arith)

-- A network in which the name abc is the address 8.8.8.8.
abbrev small_net : Net
small_net = record {
  parse_ip = λ t. if bytes_eq t abc then some (v4 8 8 8 8) else none;
  trim_space = λ t. t;
  to_lower = λ t. t;
}

abbrev rules : PolicyConfig
rules = record {
  enabled = true;
  denied = (b'b' ∷ b'*' ∷ []) ∷ [];
  allowed = a_to_c ∷ [];
  notary_signatures = 0;
  max_key_age_hours = 0;
  well_known = false;
  valid_tls = false;
  block_private = true;
}

-- The unspecified address of IPv6 is in no range that the code blocks.
unspecified_not_blocked :
    is_private_ip (v6 (0 ∷ 0 ∷ 0 ∷ 0 ∷ 0 ∷ 0 ∷ 0 ∷ 0 ∷ 0 ∷ 0 ∷ 0 ∷ 0 ∷ 0 ∷ 0 ∷ 0 ∷ 0 ∷ [])) ≡ false
unfolding is_private_ip is_loopback is_private is_link_local_unicast is_link_local_multicast
    in_network
unspecified_not_blocked = refl
