-- ===== src/Paths/Split.antt =====
-- Splitting a path at its slashes, and joining the parts.
use soft_serve.Base.{
  ℕ, ◌≡◌, refl, ◌≢◌, List, [], ◌∷◌, ◌++◌, Text, All, ◌==◌, Bool-cases, inl, inr, arith,
}
use soft_serve.Paths.{push, split, join}

abbrev pub NoSlash : Text → Type 0
NoSlash = All (λ c. c ≢ b'/')

-- the words written behind the last part
abbrev pub append_last : List Text → Text → List Text
append_last [] w = w ∷ []
append_last (x ∷ []) w = (x ++ w) ∷ []
append_last (x ∷ y ∷ xs) w = x ∷ append_last (y ∷ xs) w

split-NoSlash : (w : Text) → NoSlash w → split w ≡ w ∷ []
unfolding split
split-NoSlash [] h = refl
split-NoSlash (c ∷ w) h = ground (arith, split-NoSlash w h.1)

pub split_shape : (s : Text) → (x : Text) × (xs : List Text) × (split s ≡ x ∷ xs)
unfolding split
split_shape [] = ([], [], refl)
split_shape (c ∷ s) = elim (Bool-cases (c == b'/')) [
  | inl e ↦ ([], split s, rw e)
  | inr n ↦ let (x, xs, p) = split_shape s in (c ∷ x, xs, rw (n, p))
]

append_last-push :
    (c : ℕ) (x : Text) (xs : List Text) (w : Text)
    → append_last (push c (x ∷ xs)) w ≡ push c (append_last (x ∷ xs) w)
append_last-push c x [] w = refl
append_last-push c x (y ∷ xs) w = refl

pub split-append : (s w : Text) → NoSlash w → split (s ++ w) ≡ append_last (split s) w
unfolding split
split-append [] w h = split-NoSlash w h
split-append (c ∷ s) w h = elim (Bool-cases (c == b'/')) [
  | inl e ↦ let (x, xs, p) = split_shape s in rw (e, split-append s w h, p)
  | inr n ↦
      let (x, xs, p) = split_shape s in rw (n, split-append s w h, p, append_last-push c x xs w)
]

pub split-word : (w s : Text) → NoSlash w → split (w ++ b'/' ∷ s) ≡ w ∷ split s
unfolding split
split-word [] s h = refl
split-word (c ∷ w) s h = ground (arith, split-word w s h.1)

pub split-join : (w : Text) (ws : List Text) → All NoSlash (w ∷ ws) → split (join (w ∷ ws)) ≡ w ∷ ws
unfolding join
split-join w [] h = split-NoSlash w h.0
split-join w (v ∷ ws) h = rw (split-word w (join (v ∷ ws)) h.0, split-join v ws h.1)

push-NoSlash : (c : ℕ) (xs : List Text) → c ≢ b'/' → All NoSlash xs → All NoSlash (push c xs)
push-NoSlash c [] n h = ((n, tt), tt)
push-NoSlash c (x ∷ xs) n h = ((n, h.0), h.1)

pub split-All-NoSlash : (s : Text) → All NoSlash (split s)
unfolding split
split-All-NoSlash [] = (tt, tt)
split-All-NoSlash (c ∷ s) =
    ground (arith, split-All-NoSlash s, λ (n : c ≢ b'/'). push-NoSlash c (split s) n)
