-- ===== src/Policy/Ranges.antt =====
-- internal/keys/trustpolicy_runtime.go: the addresses that isPrivateIP lets pass, written out.
use mxkeys_org.Prelude.{
  ℕ, ◌/◌, ◌%◌, ◌≤◌, ◌<◌, ◌≡◌, ◌≢◌, ◌⊎◌, Bool, true, false, ◌||◌, List, if◌then◌else◌, take, arith,
}
use mxkeys_org.Addresses.{
  Ip, v4, v6, byte_at, all_zero, is_loopback, is_private, is_link_local_unicast,
  is_link_local_multicast, in_network, in_any, reserved, network, is_private_ip,
}

-- An address outside 0/8, 10/8, 100.64/10, 127/8, 169.254/16, 172.16/12, 192.0.0/24, 192.0.2/24, 192.168/16,
-- 198.51.100/24, 203.0.113/24 and everything from 224 on; or, with sixteen bytes, not ::1 and outside fc00::/7,
-- fe80::/10 and the link-local multicast addresses.
abbrev pub IsPublic : Ip → Type 0
IsPublic (v4 a b c d) =
    (a ≢ 0)
    × (a ≢ 10)
    × (a ≢ 127)
    × (a < 224)
    × ((a ≢ 100) ⊎ ((b < 64) ⊎ (128 ≤ b)))
    × ((a ≢ 169) ⊎ (b ≢ 254))
    × ((a ≢ 172) ⊎ ((b < 16) ⊎ (32 ≤ b)))
    × ((a ≢ 192) ⊎ (b ≢ 168))
    × ((a ≢ 192) ⊎ ((b ≢ 0) ⊎ (c ≢ 0)))
    × ((a ≢ 192) ⊎ ((b ≢ 0) ⊎ (c ≢ 2)))
    × ((a ≢ 198) ⊎ ((b ≢ 51) ⊎ (c ≢ 100)))
    × ((a ≢ 203) ⊎ ((b ≢ 0) ⊎ (c ≢ 113)))
IsPublic (v6 bytes) =
    ((all_zero (take 15 bytes) ≡ false) ⊎ (byte_at 15 bytes ≢ 1))
    × (byte_at 0 bytes / 2 ≢ 126)
    × ((byte_at 0 bytes ≢ 254) ⊎ (byte_at 1 bytes / 64 ≢ 2))
    × ((byte_at 0 bytes ≢ 255) ⊎ (byte_at 1 bytes % 16 ≢ 2))

-- The bytes of an address are bytes.
abbrev pub HasBytes : Ip → Type 0
HasBytes (v4 a b c d) = (a < 256) × (b < 256) × (c < 256) × (d < 256)
HasBytes (v6 bytes) = Unit

or_false : (a b : Bool) → (a || b) ≡ false → (a ≡ false) × (b ≡ false)
or_false a b h = (ground (arith, h), ground (arith, h))

if_false : (a b : Bool) → (if a then true else b) ≡ false → (a ≡ false) × (b ≡ false)
if_false a b h = (ground (arith, h), ground (arith, h))

module _ (a b c d : ℕ) (bytes : HasBytes (v4 a b c d)) where
  eight : (n : ℕ) → in_network (network n 0 0 0 8) (v4 a b c d) ≡ false → a ≢ n
  unfolding in_network
  eight n h = ground (arith, h, bytes)

  ten : in_network (network 100 64 0 0 10) (v4 a b c d) ≡ false → (a ≢ 100) ⊎ ((b < 64) ⊎ (128 ≤ b))
  unfolding in_network
  ten h = ground (arith, h, bytes)

  sixteen : in_network (network 169 254 0 0 16) (v4 a b c d) ≡ false → (a ≢ 169) ⊎ (b ≢ 254)
  unfolding in_network
  sixteen h = ground (arith, h, bytes)

  twenty_four :
      (i j k : ℕ)
      → in_network (network i j k 0 24) (v4 a b c d) ≡ false
      → (a ≢ i) ⊎ ((b ≢ j) ⊎ (c ≢ k))
  unfolding in_network
  twenty_four i j k h = ground (arith, h, bytes)

  four : (n : ℕ) → in_network (network n 0 0 0 4) (v4 a b c d) ≡ false → (a / 16 ≢ n / 16)
  unfolding in_network
  four n h = ground (arith, h, bytes)

  private_v4 :
      is_private (v4 a b c d) ≡ false
      → (a ≢ 10) × ((a ≢ 172) ⊎ ((b < 16) ⊎ (32 ≤ b))) × ((a ≢ 192) ⊎ (b ≢ 168))
  unfolding is_private
  private_v4 h = (ground (arith, h), ground (arith, h), ground (arith, h))

  loopback_v4 : is_loopback (v4 a b c d) ≡ false → a ≢ 127
  unfolding is_loopback
  loopback_v4 h = ground (arith, h)

  high : (a / 16 ≢ 224 / 16) → (a / 16 ≢ 240 / 16) → a < 224
  high h g = ground (arith, h, g, bytes)

  IsPublic-v4 : is_private_ip (v4 a b c d) ≡ false → IsPublic (v4 a b c d)
  unfolding is_private_ip
  IsPublic-v4 h =
      let ip = v4 a b c d in
      let (kinds, ranges) =
        if_false
          (is_loopback ip
            || is_private ip
            || is_link_local_unicast ip
            || is_link_local_multicast ip)
          (in_any reserved ip) h in
      let (kinds', _) =
        or_false (is_loopback ip || is_private ip || is_link_local_unicast ip)
          (is_link_local_multicast ip) kinds in
      let (kinds'', _) =
        or_false (is_loopback ip || is_private ip) (is_link_local_unicast ip) kinds' in
      let (loop, private) = or_false (is_loopback ip) (is_private ip) kinds'' in
      let (zero_net, r1) = or_false (in_network (network 0 0 0 0 8) ip) _ ranges in
      let (shared, r2) = or_false (in_network (network 100 64 0 0 10) ip) _ r1 in
      let (local, r3) = or_false (in_network (network 169 254 0 0 16) ip) _ r2 in
      let (ietf, r4) = or_false (in_network (network 192 0 0 0 24) ip) _ r3 in
      let (test1, r5) = or_false (in_network (network 192 0 2 0 24) ip) _ r4 in
      let (test2, r6) = or_false (in_network (network 198 51 100 0 24) ip) _ r5 in
      let (test3, r7) = or_false (in_network (network 203 0 113 0 24) ip) _ r6 in
      let (multicast, r8) = or_false (in_network (network 224 0 0 0 4) ip) _ r7 in
      let (future, _) = or_false (in_network (network 240 0 0 0 4) ip) _ r8 in
      let (ten_net, class_b, class_c) = private_v4 private in
      (
        eight 0 zero_net,
        ten_net,
        loopback_v4 loop,
        high (four 224 multicast) (four 240 future),
        ten shared,
        sixteen local,
        class_b,
        class_c,
        twenty_four 192 0 0 ietf,
        twenty_four 192 0 2 test1,
        twenty_four 198 51 100 test2,
        twenty_four 203 0 113 test3,
      )

module _ (bytes : List ℕ) where
  loopback_v6 :
      is_loopback (v6 bytes) ≡ false → (all_zero (take 15 bytes) ≡ false) ⊎ (byte_at 15 bytes ≢ 1)
  unfolding is_loopback
  loopback_v6 h = ground (arith, h)

  private_v6 : is_private (v6 bytes) ≡ false → byte_at 0 bytes / 2 ≢ 126
  unfolding is_private
  private_v6 h = ground (arith, h)

  unicast_v6 :
      is_link_local_unicast (v6 bytes) ≡ false
      → (byte_at 0 bytes ≢ 254) ⊎ (byte_at 1 bytes / 64 ≢ 2)
  unfolding is_link_local_unicast
  unicast_v6 h = ground (arith, h)

  multicast_v6 :
      is_link_local_multicast (v6 bytes) ≡ false
      → (byte_at 0 bytes ≢ 255) ⊎ (byte_at 1 bytes % 16 ≢ 2)
  unfolding is_link_local_multicast
  multicast_v6 h = ground (arith, h)

  IsPublic-v6 : is_private_ip (v6 bytes) ≡ false → IsPublic (v6 bytes)
  unfolding is_private_ip
  IsPublic-v6 h =
      let ip = v6 bytes in
      let (kinds, _) =
        if_false
          (is_loopback ip
            || is_private ip
            || is_link_local_unicast ip
            || is_link_local_multicast ip)
          (in_any reserved ip) h in
      let (kinds', multicast) =
        or_false (is_loopback ip || is_private ip || is_link_local_unicast ip)
          (is_link_local_multicast ip) kinds in
      let (kinds'', unicast) =
        or_false (is_loopback ip || is_private ip) (is_link_local_unicast ip) kinds' in
      let (loop, private) = or_false (is_loopback ip) (is_private ip) kinds'' in
      (loopback_v6 loop, private_v6 private, unicast_v6 unicast, multicast_v6 multicast)

pub is_private_ip-IsPublic : (ip : Ip) → HasBytes ip → is_private_ip ip ≡ false → IsPublic ip
is_private_ip-IsPublic (v4 a b c d) bytes h = IsPublic-v4 a b c d bytes h
is_private_ip-IsPublic (v6 xs) bytes h = IsPublic-v6 xs h
