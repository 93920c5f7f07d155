-- ===== src/Paths/Resolve.antt =====
-- What path.Clean and filepath.Join leave of the parts of a path.
use mathlib.Core.List.{reverse, reverse_aux, reverse-cons, append_assoc, append-nil}
use soft_serve.Base.{
  ◌≡◌, sym, ◌≢◌, Bool, not, ◌||◌, List, [], ◌∷◌, ◌++◌, Text, str, text_eq, text_eq_iff, All, select,
  arith, Bool-cases, inl, inr, true, false,
}
use soft_serve.Paths.{resolve, resolve_all}
use soft_serve.Paths.Split.{NoSlash}

abbrev pub NotUp : Text → Type 0
NotUp part = part ≢ str ".."

-- a part that names something below its directory
abbrev pub IsPlain : Text → Type 0
IsPlain part = (part ≢ []) × (part ≢ str ".") × (part ≢ str "..")

unfoldable pub is_skipped : Text → Bool
is_skipped part = text_eq part [] || text_eq part (str ".")

abbrev pub kept : List Text → List Text
kept = select (λ part. not (is_skipped part))

resolve_skip :
    (stack : List Text) (part : Text) → is_skipped part ≡ true → resolve stack part ≡ stack
unfolding resolve is_skipped
resolve_skip stack part e = rw e

resolve_keep :
    (stack : List Text) (part : Text)
    → is_skipped part ≡ false
    → NotUp part
    → resolve stack part ≡ part ∷ stack
unfolding resolve is_skipped
resolve_keep stack part e n = rw e (ground (arith, text_eq_iff part (str "..")))

-- With no "..", the parts that are kept stand behind the stack.
pub resolve_all-NotUp :
    (stack parts : List Text)
    → All NotUp parts
    → resolve_all stack parts ≡ reverse stack ++ kept parts
unfolding resolve_all
resolve_all-NotUp stack [] h = sym (append-nil _)
resolve_all-NotUp stack (part ∷ parts) (up, h) = elim (Bool-cases (is_skipped part)) [
  | inl skip ↦ rw (skip, resolve_skip stack part skip) (resolve_all-NotUp stack parts h)
  | inr keep ↦
      rw (keep, resolve_keep stack part keep up, resolve_all-NotUp (part ∷ stack) parts h)
        (simp (reverse-cons, append_assoc))
]

abbrev pub IsPart : Text → Type 0
IsPart part = IsPlain part × NoSlash part

resolve-IsPart :
    (stack : List Text) (part : Text)
    → All IsPart stack
    → NoSlash part
    → All IsPart (resolve stack part)
unfolding resolve
resolve-IsPart [] part h n =
    ground (arith, text_eq_iff part [], text_eq_iff part (str "."), text_eq_iff part (str ".."))
resolve-IsPart (top ∷ stack) part h n =
    ground (arith, text_eq_iff part [], text_eq_iff part (str "."), text_eq_iff part (str ".."))

All-reverse_aux :
    (xs ys : List Text) → All IsPart xs → All IsPart ys → All IsPart (reverse_aux xs ys)
All-reverse_aux [] ys h k = k
All-reverse_aux (x ∷ xs) ys h k = All-reverse_aux xs (x ∷ ys) h.1 (h.0, k)

-- Whatever the parts were, what is left names things below the root.
pub resolve_all-IsPart :
    (stack parts : List Text)
    → All IsPart stack
    → All NoSlash parts
    → All IsPart (resolve_all stack parts)
unfolding resolve_all
resolve_all-IsPart stack [] h k = All-reverse_aux stack [] h tt
resolve_all-IsPart stack (part ∷ parts) h (n, k) =
    resolve_all-IsPart (resolve stack part) parts (resolve-IsPart stack part h n) k
