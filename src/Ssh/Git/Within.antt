-- ===== src/Ssh/Git/Within.antt =====
-- EnsureWithin (pkg/git/git.go) on sanitized names.
use soft_serve.Base.{
  ◌≡◌, refl, true, List, [], ◌∷◌, ◌++◌, Text, str, has_prefix, has_prefix-append, arith,
}
use soft_serve.Env.{Env}
use soft_serve.Paths.{join}
use soft_serve.Names.{sanitize_repo, repo_path}
use soft_serve.Names.Safety.{repo_path-below_repos}
use soft_serve.Ssh.Git.{ensure_within}

has_prefix-cancel : (p s t : Text) → has_prefix s t ≡ true → has_prefix (p ++ s) (p ++ t) ≡ true
unfolding has_prefix
has_prefix-cancel [] s t h = h
has_prefix-cancel (c ∷ p) s t h = ground (arith, has_prefix-cancel p s t h)

has_prefix_self : (w : Text) → has_prefix w w ≡ true
unfolding has_prefix
has_prefix_self [] = refl
has_prefix_self (c ∷ w) = ground (arith, has_prefix_self w)

join-prefix : (dir rest : List Text) → has_prefix (join (dir ++ rest)) (join dir) ≡ true
unfolding join has_prefix
join-prefix [] rest = refl
join-prefix (w ∷ []) [] = has_prefix_self w
join-prefix (w ∷ []) (v ∷ rest) = has_prefix-append w _
join-prefix (w ∷ v ∷ dir) rest = has_prefix-cancel w _ _ (
    has_prefix-cancel (str "/") (join ((v ∷ dir) ++ rest)) (join (v ∷ dir))
      (join-prefix (v ∷ dir) rest))

-- For a name that SanitizeRepo returns, EnsureWithin succeeds: behind it the test is redundant.
pub ensure_within-sanitize_repo :
    (env : Env) (data_path : List Text) (name : Text)
    → ensure_within (data_path ++ str "repos" ∷ []) (sanitize_repo env name ++ str ".git") ≡ true
unfolding ensure_within repo_path
ensure_within-sanitize_repo env data_path name =
    let (rest, below, _, _) = repo_path-below_repos env data_path name in
    rw below (
      has_prefix-cancel (str "/") (join ((data_path ++ str "repos" ∷ []) ++ rest))
        (join (data_path ++ str "repos" ∷ [])) (join-prefix (data_path ++ str "repos" ∷ []) rest))
