-- ===== src/Webhook/Address/Blocks.antt =====
-- isPrivateOrInternalIP of pkg/webhook/validator.go on IPv4, by the blocks of addresses.
use soft_serve.Base.{
  ℕ, ◌+◌, ◌*◌, ◌/◌, ◌^◌, ◌-◌, ◌<◌, ◌≡◌, refl, sym, Bool, ◌&&◌, ◌||◌, some, List, [], ◌∷◌, ◌++◌, any,
  text_eq, leb, ◌==◌, arith,
}
use soft_serve.Webhook.Address.{
  Ip, Ip4, mapped_prefix, to4, is_private_or_internal_ip, is_internal, is_loopback,
  is_link_local_unicast, is_link_local_multicast, is_private, is_unspecified, is_multicast,
  is_reserved4,
}

-- the addresses that agree with an address on their first bits
pub record Block : Type 0 where
  pub network : Ip4
  pub bits : ℕ

-- an address as a number
abbrev pub value : Ip4 → ℕ
value q = q.a * 16777216 + q.b * 65536 + q.c * 256 + q.d

abbrev pub within : Ip4 → Block → Bool
within q k = value q / 2 ^ (32 - k.bits) == value k.network / 2 ^ (32 - k.bits)

abbrev block : ℕ → ℕ → ℕ → ℕ → ℕ → Block
block a b c d bits = record { network = record { a = a; b = b; c = c; d = d }; bits = bits }

-- the blocks of the additional checks for IPv4
abbrev extra : List Block
extra =
    block 0 0 0 0 8
    ∷ block 100 64 0 0 10
    ∷ block 192 0 0 0 24
    ∷ block 192 0 2 0 24
    ∷ block 198 18 0 0 15
    ∷ block 198 51 100 0 24
    ∷ block 203 0 113 0 24
    ∷ block 240 0 0 0 4
    ∷ block 255 255 255 255 32
    ∷ []

-- the blocks that are no targets of webhooks
abbrev pub reserved : List Block
reserved =
    block 127 0 0 0 8
    ∷ block 169 254 0 0 16
    ∷ block 224 0 0 0 24
    ∷ block 10 0 0 0 8
    ∷ block 172 16 0 0 12
    ∷ block 192 168 0 0 16
    ∷ block 0 0 0 0 32
    ∷ block 224 0 0 0 4
    ∷ extra

-- four bytes
pub record IsIp4 (q : Ip4) : Type 0 where
  pub a : q.a < 256
  pub b : q.b < 256
  pub c : q.c < 256
  pub d : q.d < 256

-- the chain of the code, and that of the list of blocks
flatten :
    (a b c x y z e f d : Bool)
    → (a || b || c || (x || y || z) || e || f || d)
      ≡ (a || (b || (c || (x || (y || (z || (e || (f || d))))))))
flatten a b c x y z e f d = ground arith

module _ (q : Ip4) (h : IsIp4 q) where
  loopback_lem : (q.a == 127) ≡ within q (block 127 0 0 0 8)
  loopback_lem = ground (arith, h.a, h.b, h.c, h.d)

  link_local_lem : (q.a == 169 && q.b == 254) ≡ within q (block 169 254 0 0 16)
  link_local_lem = ground (arith, h.a, h.b, h.c, h.d)

  local_multicast_lem : (q.a == 224 && q.b == 0 && q.c == 0) ≡ within q (block 224 0 0 0 24)
  local_multicast_lem = ground (arith, h.a, h.b, h.c, h.d)

  ten_lem : (q.a == 10) ≡ within q (block 10 0 0 0 8)
  ten_lem = ground (arith, h.a, h.b, h.c, h.d)

  twelve_lem : (q.a == 172 && q.b / 16 == 1) ≡ within q (block 172 16 0 0 12)
  twelve_lem = ground (arith, h.a, h.b, h.c, h.d)

  sixteen_lem : (q.a == 192 && q.b == 168) ≡ within q (block 192 168 0 0 16)
  sixteen_lem = ground (arith, h.a, h.b, h.c, h.d)

  unspecified_lem : (q.a == 0 && q.b == 0 && q.c == 0 && q.d == 0) ≡ within q (block 0 0 0 0 32)
  unspecified_lem = ground (arith, h.a, h.b, h.c, h.d)

  multicast_lem : (q.a / 16 == 14) ≡ within q (block 224 0 0 0 4)
  multicast_lem = ground (arith, h.a, h.b, h.c, h.d)

  current_lem : (q.a == 0) ≡ within q (block 0 0 0 0 8)
  current_lem = ground (arith, h.a, h.b, h.c, h.d)

  shared_lem : (q.a == 100 && leb 64 q.b && leb q.b 127) ≡ within q (block 100 64 0 0 10)
  shared_lem = ground (arith, h.a, h.b, h.c, h.d)

  protocol_lem : (q.a == 192 && q.b == 0 && q.c == 0) ≡ within q (block 192 0 0 0 24)
  protocol_lem = ground (arith, h.a, h.b, h.c, h.d)

  test_1_lem : (q.a == 192 && q.b == 0 && q.c == 2) ≡ within q (block 192 0 2 0 24)
  test_1_lem = ground (arith, h.a, h.b, h.c, h.d)

  benchmark_lem : (q.a == 198 && (q.b == 18 || q.b == 19)) ≡ within q (block 198 18 0 0 15)
  benchmark_lem = ground (arith, h.a, h.b, h.c, h.d)

  test_2_lem : (q.a == 198 && q.b == 51 && q.c == 100) ≡ within q (block 198 51 100 0 24)
  test_2_lem = ground (arith, h.a, h.b, h.c, h.d)

  test_3_lem : (q.a == 203 && q.b == 0 && q.c == 113) ≡ within q (block 203 0 113 0 24)
  test_3_lem = ground (arith, h.a, h.b, h.c, h.d)

  future_lem : (leb 240 q.a) ≡ within q (block 240 0 0 0 4)
  future_lem = ground (arith, h.a, h.b, h.c, h.d)

  broadcast_lem :
      (q.a == 255 && q.b == 255 && q.c == 255 && q.d == 255) ≡ within q (block 255 255 255 255 32)
  broadcast_lem = ground (arith, h.a, h.b, h.c, h.d)

  private_lem :
      (ip : Ip)
      → is_private (some q) ip ≡ (
          within q (block 10 0 0 0 8)
          || within q (block 172 16 0 0 12)
          || within q (block 192 168 0 0 16))
  unfolding is_private
  private_lem ip = rw (sym ten_lem, sym twelve_lem, sym sixteen_lem) refl

  reserved4_lem : is_reserved4 (some q) ≡ any (within q) (extra)
  unfolding is_reserved4
  reserved4_lem =
      rw
        (
          sym current_lem,
          sym shared_lem,
          sym protocol_lem,
          sym test_1_lem,
          sym benchmark_lem,
          sym test_2_lem,
          sym test_3_lem,
          sym future_lem,
          sym broadcast_lem,
        )
        (ground arith)

  internal_lem : (ip : Ip) → is_internal (some q) ip ≡ any (within q) reserved
  unfolding is_loopback is_link_local_unicast is_link_local_multicast is_unspecified is_multicast
  internal_lem ip =
      rw
        (
          private_lem ip,
          reserved4_lem,
          loopback_lem,
          link_local_lem,
          local_multicast_lem,
          unspecified_lem,
          multicast_lem,
        )
        (flatten (within q (block 127 0 0 0 8)) (within q (block 169 254 0 0 16))
          (within q (block 224 0 0 0 24)) (within q (block 10 0 0 0 8))
          (within q (block 172 16 0 0 12)) (within q (block 192 168 0 0 16))
          (within q (block 0 0 0 0 32)) (within q (block 224 0 0 0 4)) (any (within q) extra))

-- the address in four and in sixteen bytes
abbrev pub bytes : Ip4 → Ip
bytes q = q.a ∷ q.b ∷ q.c ∷ q.d ∷ []

abbrev pub mapped : Ip4 → Ip
mapped q = mapped_prefix ++ bytes q

-- An IPv4 address, in four bytes or in sixteen, counts as private or internal exactly if it lies in one
-- of the reserved blocks.
pub is_private_or_internal_ip-reserved :
    (q : Ip4)
    → IsIp4 q
    → (is_private_or_internal_ip (bytes q) ≡ any (within q) reserved)
      × (is_private_or_internal_ip (mapped q) ≡ any (within q) reserved)
unfolding is_private_or_internal_ip to4 text_eq
is_private_or_internal_ip-reserved q h = (internal_lem q h (bytes q), internal_lem q h (mapped q))
