-- ===== src/Names/Valid.antt =====
-- Unusual names before SanitizeRepo and ValidateUsername (pkg/utils/utils.go).
use mathlib.Core.List.{append_assoc}
use soft_serve.Base.{
  ℕ, ◌+◌, ◌≤◌, ◌<◌, ◌/◌, ◌≡◌, refl, ap, ◌≢◌, false, [], ◌∷◌, ◌++◌, Text, str, text_eq_iff,
  text_eq_refl, trim_suffix, trim_prefix, has_prefix, length, length-append, some, arith,
}
use soft_serve.Env.{Env}
use soft_serve.Paths.{split, join, resolve_all}
use soft_serve.Paths.Split.{NoSlash, split-word}
use soft_serve.Paths.Resolve.{IsPlain, resolve_all-NotUp, is_skipped}
use soft_serve.Names.{
  sanitize, sanitize_repo, validate_username, first_byte, is_letter, bad_first_letter,
}
use soft_serve.Names.Safety.{sanitize_repo_lem, name_parts, is_skipped_iff}

append-ne : (c : ℕ) (s p : Text) → (c ∷ s) ++ p ≢ p
append-ne c s p e = omega (arith, ap (λ t. length t) e, length-append s p)

trim_suffix-append : (s p : Text) → p ≢ [] → trim_suffix (s ++ p) p ≡ s
unfolding trim_suffix
trim_suffix-append [] [] h = refl
trim_suffix-append [] (c ∷ p) h = rw (text_eq_refl (c ∷ p))
trim_suffix-append (c ∷ s) p h =
    ground (arith, trim_suffix-append s p h, append-ne c s p, text_eq_iff (c ∷ s ++ p) p)

trim_prefix-slash : (w s : Text) → w ≢ [] → NoSlash w → trim_prefix (w ++ s) (str "/") ≡ w ++ s
unfolding trim_prefix has_prefix
trim_prefix-slash [] s h k = absurd (h refl)
trim_prefix-slash (c ∷ w) s h k = ground arith

not_skipped : (w : Text) → IsPlain w → is_skipped w ≡ false
not_skipped w plain = ground (arith, is_skipped_iff w)

two_kept :
    (w : Text) → IsPlain w → join (resolve_all [] (w ∷ str "...git" ∷ [])) ≡ w ++ str "/...git"
two_kept w plain =
    rw (resolve_all-NotUp [] (w ∷ str "...git" ∷ []) (plain.2, ((λ e. ground arith), tt)))
      (rw (not_skipped w plain, not_skipped (str "...git") (ground arith)) (unfold join in refl))

module _ (env : Env) where
  -- A name "w/...git", for a part w that holds no slash, is left as "w/..": cutting ".git" after
  -- path.Clean brings back the ".." that path.Clean removes. (w is kept by path.Clean, and the
  -- name has no terminal escapes.)
  pub sanitize_repo-leaves_up :
      (w : Text)
      → IsPlain w
      → NoSlash w
      → sanitize env (w ++ str "/...git") ≡ w ++ str "/...git"
      → sanitize_repo env (w ++ str "/...git") ≡ w ++ str "/.."
  sanitize_repo-leaves_up w plain slash clean =
      let parts : split (w ++ str "/...git") ≡ w ∷ str "...git" ∷ [] =
        rw (split-word w (str "...git") slash) (unfold split in refl) in
      let joined : join (name_parts env (w ++ str "/...git")) ≡ w ++ str "/...git" =
        rw (clean, trim_prefix-slash w (str "/...git") plain.0 slash, parts) (two_kept w plain) in
      rw (sanitize_repo_lem, joined, ← append_assoc w (str "/..") (str ".git"))
        (trim_suffix-append (w ++ str "/..") (str ".git") (λ e. ground arith))

  -- A name that starts with a code point from U+05C0 to U+05FF, where the Hebrew letters are, is
  -- refused for its first letter whatever unicode.IsLetter says of that code point: the test reads
  -- the first byte, 0xD7, as a code point (the multiplication sign, which is no letter).
  pub validate_username-hebrew :
      (c : ℕ) (cs : Text)
      → 0x5c0 ≤ c
      → c < 0x600
      → is_letter env 0xd7 ≡ false
      → validate_username env (c ∷ cs) ≡ some bad_first_letter
  unfolding validate_username first_byte
  validate_username-hebrew c cs lo hi no_letter =
      let e : 0xc0 + c / 0x40 ≡ 0xd7 = omega arith in ground (arith, e, no_letter)
