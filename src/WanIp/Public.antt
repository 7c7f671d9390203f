-- ===== src/WanIp/Public.antt =====
-- Which addresses `isPublicIPv4` of internal/wanip/wanip.go accepts.
use dddns.Prelude.{ℕ, ◌≤◌, ◌<◌, ◌≡◌, ◌≢◌, ◌↔◌, true, ◌&&◌, some, arith}
use dddns.Prelude.Tests.{leb, ◌==◌}
use dddns.Prelude.Bytes.{high_nibble_14, high_nibble_1, high_bits_01, whole_byte_100, no_bits}
use dddns.Net.{v4, is_ipv4, is_global_unicast, is_private, contains}
use dddns.WanIp.{cgnat, is_public_ipv4}

-- The ranges by arithmetic, with no masks.
pub record IsPublic (a b c d : ℕ) : Type 0 where
  pub not_unspecified : ¬ ((a ≡ 0) × (b ≡ 0) × (c ≡ 0) × (d ≡ 0))
  pub not_broadcast : ¬ ((a ≡ 255) × (b ≡ 255) × (c ≡ 255) × (d ≡ 255))
  pub not_loopback : a ≢ 127
  pub not_multicast : ¬ ((224 ≤ a) × (a ≤ 239))
  pub not_link_local : ¬ ((a ≡ 169) × (b ≡ 254))
  pub not_ten : a ≢ 10
  pub not_172 : ¬ ((a ≡ 172) × (16 ≤ b) × (b ≤ 31))
  pub not_192_168 : ¬ ((a ≡ 192) × (b ≡ 168))
  pub not_cgnat : ¬ ((a ≡ 100) × (64 ≤ b) × (b ≤ 127))

module _ (a b c d : ℕ) (ha : a < 256) (hb : b < 256) (hc : c < 256) (hd : d < 256) where
  pub contains-cgnat : contains cgnat (v4 a b c d) ≡ (a == 100) && (leb 64 b && leb b 127)
  unfolding contains
  contains-cgnat =
      rw (whole_byte_100 a ha, high_bits_01 b hb, no_bits c hc, no_bits d hd) (ground arith)

  -- An IPv4 address is accepted exactly if it is none of these: 0.0.0.0, 255.255.255.255, in
  -- 127.0.0.0/8, 224.0.0.0/4, 169.254.0.0/16, 10.0.0.0/8, 172.16.0.0/12, 192.168.0.0/16 or
  -- 100.64.0.0/10. Each of the four numbers is a byte.
  pub is_public_ipv4_iff : (is_public_ipv4 (some (v4 a b c d)) ≡ true) ↔ IsPublic a b c d
  unfolding is_public_ipv4 is_ipv4 is_global_unicast is_private
  is_public_ipv4_iff = (
    λ h. ground (arith, contains-cgnat, high_nibble_14 a ha, high_nibble_1 b hb),
    λ h. ground (arith, contains-cgnat, high_nibble_14 a ha, high_nibble_1 b hb),
  )
