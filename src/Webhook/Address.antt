-- ===== src/Webhook/Address.antt =====
-- pkg/webhook/validator.go: isPrivateOrInternalIP. A net.IP is a list of bytes; the methods of the
-- package net on it are written by their documentation.
pub mod Blocks
use soft_serve.Base.{
  ℕ, ◌/◌, ◌%◌, Bool, true, false, ◌&&◌, ◌||◌, Option, none, some, List, [], ◌∷◌, drop, take, length,
  text_eq, leb, ◌==◌, if◌then◌else◌,
}

abbrev pub Ip : Type 0
Ip = List ℕ

-- the four bytes of an IPv4 address
pub record Ip4 : Type 0 where
  pub a : ℕ
  pub b : ℕ
  pub c : ℕ
  pub d : ℕ

-- four bytes, or none
abbrev four : List ℕ → Option Ip4
four (a ∷ b ∷ c ∷ d ∷ []) = some (record { a = a; b = b; c = c; d = d })
four _ = none

-- the prefix of an IPv4 address in sixteen bytes
abbrev pub mapped_prefix : List ℕ
mapped_prefix = 0 ∷ 0 ∷ 0 ∷ 0 ∷ 0 ∷ 0 ∷ 0 ∷ 0 ∷ 0 ∷ 0 ∷ 255 ∷ 255 ∷ []

-- IP.To4
unfoldable pub to4 : Ip → Option Ip4
unfolding text_eq
to4 (a ∷ b ∷ c ∷ d ∷ []) = some (record { a = a; b = b; c = c; d = d })
to4 ip = if text_eq (take 12 ip) mapped_prefix then four (drop 12 ip) else none

-- net.IPv6loopback and net.IPv6unspecified
abbrev loopback6 : Ip
loopback6 = 0 ∷ 0 ∷ 0 ∷ 0 ∷ 0 ∷ 0 ∷ 0 ∷ 0 ∷ 0 ∷ 0 ∷ 0 ∷ 0 ∷ 0 ∷ 0 ∷ 0 ∷ 1 ∷ []

abbrev unspecified6 : Ip
unspecified6 = 0 ∷ 0 ∷ 0 ∷ 0 ∷ 0 ∷ 0 ∷ 0 ∷ 0 ∷ 0 ∷ 0 ∷ 0 ∷ 0 ∷ 0 ∷ 0 ∷ 0 ∷ 0 ∷ []

-- an address of sixteen bytes, by its first two
abbrev sixteen : Ip → (ℕ → ℕ → Bool) → Bool
sixteen (x ∷ y ∷ rest) test = length (x ∷ y ∷ rest) == 16 && test x y
sixteen ip test = false

-- the methods IsLoopback, IsLinkLocalUnicast, IsLinkLocalMulticast, IsPrivate, IsUnspecified and
-- IsMulticast of net.IP, on four bytes and on others
unfoldable pub is_loopback : Option Ip4 → Ip → Bool
is_loopback (some q) ip = q.a == 127
is_loopback none ip = text_eq ip loopback6

unfoldable pub is_link_local_unicast : Option Ip4 → Ip → Bool
is_link_local_unicast (some q) ip = q.a == 169 && q.b == 254
is_link_local_unicast none ip = sixteen ip (λ x y. x == 0xfe && y / 64 == 2)

unfoldable pub is_link_local_multicast : Option Ip4 → Ip → Bool
is_link_local_multicast (some q) ip = q.a == 224 && q.b == 0 && q.c == 0
is_link_local_multicast none ip = sixteen ip (λ x y. x == 0xff && y % 16 == 2)

unfoldable pub is_private : Option Ip4 → Ip → Bool
is_private (some q) ip = q.a == 10 || (q.a == 172 && q.b / 16 == 1) || (q.a == 192 && q.b == 168)
is_private none ip = sixteen ip (λ x y. x / 2 == 126)

unfoldable pub is_unspecified : Option Ip4 → Ip → Bool
is_unspecified (some q) ip = q.a == 0 && q.b == 0 && q.c == 0 && q.d == 0
is_unspecified none ip = text_eq ip unspecified6

unfoldable pub is_multicast : Option Ip4 → Ip → Bool
is_multicast (some q) ip = q.a / 16 == 14
is_multicast none ip = sixteen ip (λ x y. x == 0xff)

-- the additional checks for IPv4
unfoldable pub is_reserved4 : Option Ip4 → Bool
is_reserved4 none = false
is_reserved4 (some q) =
    q.a == 0
    || (q.a == 100 && leb 64 q.b && leb q.b 127)
    || (q.a == 192 && q.b == 0 && q.c == 0)
    || (q.a == 192 && q.b == 0 && q.c == 2)
    || (q.a == 198 && (q.b == 18 || q.b == 19))
    || (q.a == 198 && q.b == 51 && q.c == 100)
    || (q.a == 203 && q.b == 0 && q.c == 113)
    || leb 240 q.a
    || (q.a == 255 && q.b == 255 && q.c == 255 && q.d == 255)

abbrev pub is_internal : Option Ip4 → Ip → Bool
is_internal q ip =
    is_loopback q ip
    || is_link_local_unicast q ip
    || is_link_local_multicast q ip
    || is_private q ip
    || is_unspecified q ip
    || is_multicast q ip
    || is_reserved4 q

-- isPrivateOrInternalIP
unfoldable pub is_private_or_internal_ip : Ip → Bool
unfolding to4 is_loopback is_link_local_unicast is_link_local_multicast is_private is_unspecified
    is_multicast is_reserved4
is_private_or_internal_ip ip = is_internal (to4 ip) ip
