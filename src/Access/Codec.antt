-- ===== src/Access/Codec.antt =====
-- The text encoding of access levels, both ways.
use soft_serve.Base.{
  ℕ, zero, suc, ◌≤◌, ◌≡◌, refl, sym, ◌⊎◌, inl, inr, none, some, Text, str, text_eq, text_eq_iff,
  Bool-cases, arith,
}
use soft_serve.Base.Int.{pos, negsuc}
use soft_serve.Access.{
  AccessLevel, string, parse_access_level, invalid_access_level, unmarshal_text, marshal_text,
}

-- one of the four levels that have a name
abbrev pub IsNamed : AccessLevel → Type 0
IsNamed a = (n : ℕ) × (a ≡ pos n) × (n ≤ 3)

-- Reading what MarshalText wrote for one of the named levels gives that level back, whatever the
-- target held; what it writes for any other level is refused, and the target keeps its value.
pub unmarshal_text-marshal_text :
    (old a : AccessLevel)
    → (IsNamed a × (unmarshal_text old (marshal_text a).0 ≡ (a, none)))
      ⊎ ((¬ IsNamed a) × (unmarshal_text old (marshal_text a).0 ≡ (old, some invalid_access_level)))
unfolding unmarshal_text marshal_text parse_access_level
unmarshal_text-marshal_text old (pos zero) = inl ((0, refl, omega arith), refl)
unmarshal_text-marshal_text old (pos (suc zero)) = inl ((1, refl, omega arith), refl)
unmarshal_text-marshal_text old (pos (suc (suc zero))) = inl ((2, refl, omega arith), refl)
unmarshal_text-marshal_text old (pos (suc (suc (suc zero)))) = inl ((3, refl, omega arith), refl)
unmarshal_text-marshal_text old (pos (suc (suc (suc (suc n))))) = inr ((λ h. ground arith), refl)
unmarshal_text-marshal_text old (negsuc n) = inr ((λ h. ground arith), refl)

-- A name is read as its level, and any other text as -1.
parse_access_level_cases :
    (s : Text)
    → ((n : ℕ) × (n ≤ 3) × (parse_access_level s ≡ pos n) × (string (pos n) ≡ s))
      ⊎ (parse_access_level s ≡ negsuc 0)
unfolding parse_access_level string
parse_access_level_cases s = elim (Bool-cases (text_eq s (str "no-access"))) [
  | inl e ↦ inl (0, omega arith, rw e, sym ((text_eq_iff s _).0 e))
  | inr n₀ ↦ elim (Bool-cases (text_eq s (str "read-only"))) [
    | inl e ↦ inl (1, omega arith, rw (n₀, e), sym ((text_eq_iff s _).0 e))
    | inr n₁ ↦ elim (Bool-cases (text_eq s (str "read-write"))) [
      | inl e ↦ inl (2, omega arith, rw (n₀, n₁, e), sym ((text_eq_iff s _).0 e))
      | inr n₂ ↦ elim (Bool-cases (text_eq s (str "admin-access"))) [
        | inl e ↦ inl (3, omega arith, rw (n₀, n₁, n₂, e), sym ((text_eq_iff s _).0 e))
        | inr n₃ ↦ inr (rw (n₀, n₁, n₂, n₃))
      ]
    ]
  ]
]

-- UnmarshalText succeeds with a level only if the text is that named level's name.
pub unmarshal_text_sound :
    (old a : AccessLevel) (s : Text) → unmarshal_text old s ≡ (a, none) → IsNamed a × (string a ≡ s)
unfolding unmarshal_text
unmarshal_text_sound old a s h = elim (parse_access_level_cases s) [
  | inl (n, small, parsed, named) ↦
      let e : pos n ≡ a = ground (arith, parsed) in ((n, sym e, small), rw (← e) named)
  | inr bad ↦ absurd (ground (arith, bad))
]
