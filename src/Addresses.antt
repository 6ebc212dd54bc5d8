-- ===== src/Addresses.antt =====
-- IP addresses as package net has them, the ranges of internal/keys/trustpolicy_runtime.go, and the
-- parsing of server names in internal/keys/resolver.go. net.ParseIP, strings.TrimSpace and
-- strings.ToLower are a parameter.
use mxkeys_org.Prelude.{
  ℕ, zero, suc, ◌+◌, ◌-◌, ◌*◌, ◌/◌, ◌%◌, ◌^◌, Bool, true, false, ◌&&◌, ◌||◌, Option, none, some,
  List, [], ◌∷◌, ltb, leb, ◌==◌, if◌then◌else◌, take, drop, Text, is_empty, has_prefix, index_of,
  last_index,
}

-- net.IP: an address with a four-byte form, or another one by its sixteen bytes.
pub data Ip : Type 0 where
  v4 : ℕ → ℕ → ℕ → ℕ → Ip
  v6 : List ℕ → Ip

pub record Net : Type 0 where
  pub parse_ip : Text → Option Ip
  pub trim_space : Text → Text
  pub to_lower : Text → Text

abbrev pub byte_at : ℕ → List ℕ → ℕ
byte_at i [] = 0
byte_at zero (b ∷ bs) = b
byte_at (suc i) (b ∷ bs) = byte_at i bs

abbrev pub all_zero : List ℕ → Bool
all_zero [] = true
all_zero (b ∷ bs) = (b == 0) && all_zero bs

-- net.IP.IsLoopback
unfoldable pub is_loopback : Ip → Bool
is_loopback (v4 a b c d) = a == 127
is_loopback (v6 bytes) = all_zero (take 15 bytes) && (byte_at 15 bytes == 1)

-- net.IP.IsPrivate
unfoldable pub is_private : Ip → Bool
is_private (v4 a b c d) = a == 10 || ((a == 172) && (b / 16 == 1)) || ((a == 192) && (b == 168))
is_private (v6 bytes) = byte_at 0 bytes / 2 == 126

-- net.IP.IsLinkLocalUnicast
unfoldable pub is_link_local_unicast : Ip → Bool
is_link_local_unicast (v4 a b c d) = (a == 169) && (b == 254)
is_link_local_unicast (v6 bytes) = (byte_at 0 bytes == 254) && (byte_at 1 bytes / 64 == 2)

-- net.IP.IsLinkLocalMulticast
unfoldable pub is_link_local_multicast : Ip → Bool
is_link_local_multicast (v4 a b c d) = (a == 224) && (b == 0) && (c == 0)
is_link_local_multicast (v6 bytes) = (byte_at 0 bytes == 255) && (byte_at 1 bytes % 16 == 2)

-- An IPv4 network: its base address as one number, and the length of its prefix.
pub record Cidr : Type 0 where
  pub base : ℕ
  pub bits : ℕ

abbrev pub address : ℕ → ℕ → ℕ → ℕ → ℕ
address a b c d = a * 2 ^ 24 + b * 2 ^ 16 + c * 2 ^ 8 + d

abbrev pub network : ℕ → ℕ → ℕ → ℕ → ℕ → Cidr
network a b c d bits = record { base = address a b c d; bits = bits }

-- net.IPNet.Contains: the prefixes agree; a network of IPv4 has no other addresses.
unfoldable pub in_network : Cidr → Ip → Bool
in_network n (v4 a b c d) = address a b c d / 2 ^ (32 - n.bits) == n.base / 2 ^ (32 - n.bits)
in_network n (v6 bytes) = false

-- The list `reserved` of isPrivateIP.
abbrev pub reserved : List Cidr
reserved =
    network 0 0 0 0 8
    ∷ network 100 64 0 0 10
    ∷ network 169 254 0 0 16
    ∷ network 192 0 0 0 24
    ∷ network 192 0 2 0 24
    ∷ network 198 51 100 0 24
    ∷ network 203 0 113 0 24
    ∷ network 224 0 0 0 4
    ∷ network 240 0 0 0 4
    ∷ network 255 255 255 255 32
    ∷ []

abbrev pub in_any : List Cidr → Ip → Bool
in_any [] ip = false
in_any (n ∷ ns) ip = in_network n ip || in_any ns ip

unfoldable pub is_private_ip : Ip → Bool
unfolding is_loopback is_private is_link_local_unicast is_link_local_multicast in_network
is_private_ip ip =
    if is_loopback ip || is_private ip || is_link_local_unicast ip || is_link_local_multicast ip
    then true
    else in_any reserved ip

-- The digits of strconv.Atoi, most significant first.
abbrev is_digit : ℕ → Bool
is_digit c = leb 48 c && leb c 57

unfoldable pub digits_value : ℕ → Text → Option ℕ
digits_value acc [] = some acc
digits_value acc (c ∷ s) =
    let rest = digits_value (acc * 10 + (c - 48)) s in if is_digit c then rest else none

-- strconv.Atoi on the texts that give a positive number; one above 65535 may be out of range for
-- Atoi, and is refused either way.
unfoldable pub atoi : Text → Option ℕ
unfolding digits_value
atoi [] = none
atoi (c ∷ s) =
    if c == 43 then (if is_empty s then none else digits_value 0 s) else digits_value 0 (c ∷ s)

abbrev in_port_range : Option ℕ → Option ℕ
in_port_range none = none
in_port_range (some p) = if ltb 0 p && leb p 65535 then some p else none

unfoldable pub parse_port : Text → Option ℕ
unfolding atoi
parse_port s = in_port_range (atoi s)

abbrev pub port_or_zero : Option ℕ → ℕ
port_or_zero none = 0
port_or_zero (some p) = p

-- What parseServerName returns.
pub record ParsedName : Type 0 where
  pub hostname : Text
  pub port : ℕ
  pub is_ip_literal : Bool

abbrev is_ip : Option Ip → Bool
is_ip none = false
is_ip (some ip) = true

abbrev parse_bracketed : Text → Option ℕ → ParsedName
parse_bracketed name none = record { hostname = name; port = 0; is_ip_literal = false }
parse_bracketed name (some close) =
    let rest = drop (close + 1) name in
    record {
      hostname = drop 1 (take close name);
      port = (if has_prefix rest (58 ∷ []) then port_or_zero (parse_port (drop 1 rest)) else 0);
      is_ip_literal = true;
    }

module _ (net : Net) where
  abbrev pub whole_name : Text → ParsedName
  whole_name name = record { hostname = name; port = 0; is_ip_literal = is_ip (net.parse_ip name) }

  abbrev pub with_port : Text → ℕ → Option ℕ → ParsedName
  with_port name colon none = whole_name name
  with_port name colon (some p) = record {
    hostname = take colon name;
    port = p;
    is_ip_literal = is_ip (net.parse_ip (take colon name));
  }

  abbrev pub parse_plain : Text → Option ℕ → ParsedName
  parse_plain name none = whole_name name
  parse_plain name (some colon) = with_port name colon (parse_port (drop (colon + 1) name))

  abbrev pub parse_trimmed : Text → ParsedName
  parse_trimmed name =
      if has_prefix name (91 ∷ [])
      then parse_bracketed name (index_of name (93 ∷ []))
      else parse_plain name (last_index name 58)

  unfoldable pub parse_server_name : Text → ParsedName
  unfolding parse_port has_prefix index_of last_index
  parse_server_name name = parse_trimmed (net.trim_space name)
