-- ===== src/Names/Safety.antt =====
-- The directory that repoPath (pkg/backend/repo.go) gives a repository.
use mathlib.Core.List.{reverse-reverse}
use soft_serve.Base.{
  ◌≡◌, refl, sym, ap, ◌≢◌, ◌⊎◌, ◌↔◌, true, false, List, [], ◌∷◌, ◌++◌, Text, str, text_eq,
  text_eq_iff, trim_suffix, trim_prefix, All, arith, Bool-cases, inl, inr,
}
use soft_serve.Env.{Env}
use soft_serve.Paths.{split, join, resolve_all, clean_rooted, join_below}
use soft_serve.Paths.Split.{NoSlash, append_last, split-append, split-join, split-All-NoSlash}
use soft_serve.Paths.Resolve.{
  NotUp, IsPart, is_skipped, kept, resolve_all-NotUp, resolve_all-IsPart,
}
use soft_serve.Names.{sanitize, sanitize_repo, repo_path}

trim_suffix_cases : (s p : Text) → (trim_suffix s p ≡ s) ⊎ (trim_suffix s p ++ p ≡ s)
unfolding trim_suffix
trim_suffix_cases [] p = inl refl
trim_suffix_cases (c ∷ s) p = elim (Bool-cases (text_eq (c ∷ s) p)) [
  | inl e ↦ inr (rw e (sym ((text_eq_iff (c ∷ s) p).0 e)))
  | inr n ↦ elim (trim_suffix_cases s p) [
    | inl same ↦ inl (rw (n, same))
    | inr cut ↦ inr (rw n (ap (λ t. c ∷ t) cut))
  ]
]

-- the extension that every repository directory has
abbrev git : Text
git = str ".git"

NotUp-append_git : (x : Text) → NotUp (x ++ git)
NotUp-append_git [] e = ground arith
NotUp-append_git (a ∷ []) e = ground arith
NotUp-append_git (a ∷ b ∷ []) e = ground arith
NotUp-append_git (a ∷ b ∷ c ∷ x) e = ground arith

append_last-NotUp : (xs : List Text) → All NotUp xs → All NotUp (append_last xs git)
append_last-NotUp [] h = (NotUp-append_git [], tt)
append_last-NotUp (x ∷ []) h = (NotUp-append_git x, tt)
append_last-NotUp (x ∷ y ∷ xs) h = (h.0, append_last-NotUp (y ∷ xs) h.1)

is_skipped-append_git : (x : Text) → is_skipped (x ++ git) ≡ false
unfolding is_skipped text_eq
is_skipped-append_git [] = refl
is_skipped-append_git (a ∷ []) = ground arith
is_skipped-append_git (a ∷ b ∷ x) = ground arith

pub is_skipped_iff : (x : Text) → (is_skipped x ≡ true) ↔ ((x ≡ []) ⊎ (x ≡ str "."))
unfolding is_skipped
is_skipped_iff x = ground (arith, text_eq_iff x [], text_eq_iff x (str "."))

kept-append_last : (xs : List Text) → kept (append_last xs git) ≢ []
kept-append_last [] e = ground (arith, is_skipped-append_git [])
kept-append_last (x ∷ []) e = ground (arith, is_skipped-append_git x)
kept-append_last (x ∷ y ∷ xs) e = ground (arith, kept-append_last (y ∷ xs))

IsPart-NotUp : (xs : List Text) → All IsPart xs → All NotUp xs × All NoSlash xs
IsPart-NotUp [] h = (tt, tt)
IsPart-NotUp (x ∷ xs) h =
    let (ups, slashes) = IsPart-NotUp xs h.1 in ((h.0.0.2, ups), (h.0.1, slashes))

split-join-NotUp : (ps : List Text) → All IsPart ps → All NotUp (split (join ps))
split-join-NotUp [] h = unfold split join in ((λ e. ground arith), tt)
split-join-NotUp (p ∷ ps) h =
    let (ups, slashes) = IsPart-NotUp (p ∷ ps) h in rw (split-join p ps slashes) ups

kept-IsPart : (xs : List Text) → All NotUp xs → All NoSlash xs → All IsPart (kept xs)
kept-IsPart [] h k = tt
kept-IsPart (x ∷ xs) h k = elim (Bool-cases (is_skipped x)) [
  | inl skip ↦ rw skip (kept-IsPart xs h.1 k.1)
  | inr keep ↦ rw keep (((not_empty keep, not_dot keep, h.0), k.0), kept-IsPart xs h.1 k.1)
]
  where
    not_empty : is_skipped x ≡ false → x ≢ []
    not_empty e p = ground (arith, is_skipped_iff x)

    not_dot : is_skipped x ≡ false → x ≢ str "."
    not_dot e p = ground (arith, is_skipped_iff x)

module _ (env : Env) where
  -- the parts that path.Clean leaves of a repository's name
  abbrev pub name_parts : Text → List Text
  name_parts repo = resolve_all [] (split (trim_prefix (sanitize env repo) (str "/")))

  pub name_parts-IsPart : (repo : Text) → All IsPart (name_parts repo)
  name_parts-IsPart repo = resolve_all-IsPart [] _ tt (split-All-NoSlash _)

  -- The slice `repo[1:]` drops the root's slash, and nothing else is lost but a last ".git".
  pub sanitize_repo_lem :
      (repo : Text) → sanitize_repo env repo ≡ trim_suffix (join (name_parts repo)) git
  unfolding sanitize_repo clean_rooted trim_suffix text_eq
  sanitize_repo_lem repo = refl

  sanitize_repo-NotUp : (repo : Text) → All NotUp (split (sanitize_repo env repo ++ git))
  sanitize_repo-NotUp repo =
      let ups = split-join-NotUp (name_parts repo) (name_parts-IsPart repo) in
      rw sanitize_repo_lem (elim (trim_suffix_cases (join (name_parts repo)) git) [
        | inl same ↦
            rw (same, split-append (join (name_parts repo)) git (omega arith))
              (append_last-NotUp _ ups)
        | inr cut ↦ rw cut ups
      ])

  -- Whatever name a client sends, the repository's directory is a proper descendant of
  -- the directory "repos" below the data directory: behind that prefix stand one or more
  -- parts, none of them empty, "." or "..", and none holds a slash.
  pub repo_path-below_repos :
      (data_path : List Text) (name : Text)
      → (rest : List Text) × (repo_path env data_path name
          ≡ (data_path ++ str "repos" ∷ []) ++ rest)
        × (rest ≢ [])
        × All IsPart rest
  unfolding repo_path join_below
  repo_path-below_repos data_path name =
      let parts = split (sanitize_repo env name ++ git) in
      let ups = sanitize_repo-NotUp name in
      (
        kept parts,
        rw (resolve_all-NotUp _ parts ups, reverse-reverse) refl,
        rw (split-append (sanitize_repo env name) git (omega arith)) (kept-append_last _),
        kept-IsPart parts ups (split-All-NoSlash _),
      )
