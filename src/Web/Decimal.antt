-- ===== src/Web/Decimal.antt =====
-- The decimal digits of a number, as the verb %d prints them.
use soft_serve.Base.{
  ℕ, zero, suc, ◌+◌, ◌/◌, ◌%◌, ◌<◌, ◌≡◌, [], ◌∷◌, ◌++◌, Text, ltb, if◌then◌else◌, arith,
}

-- as many as the fuel allows
unfoldable pub digits : ℕ → ℕ → Text
digits zero n = []
digits (suc fuel) n =
    let rest = digits fuel (n / 10) in
    if ltb n 10 then (48 + n) ∷ [] else rest ++ (48 + n % 10) ∷ []

unfoldable pub decimal : ℕ → Text
unfolding digits
decimal n = digits (suc n) n

-- More fuel than the number changes nothing, so the fuel of `decimal` is enough.
pub digits-enough : (fuel n : ℕ) → n < fuel → digits fuel n ≡ digits (suc fuel) n
unfolding digits
digits-enough zero n h = elim h [ ]
digits-enough (suc fuel) n h = ground (arith, digits-enough fuel (n / 10))
