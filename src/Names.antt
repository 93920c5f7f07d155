-- ===== src/Names.antt =====
-- pkg/utils/utils.go: the names that users and repositories may have.
pub mod Safety
pub mod Valid
use soft_serve.Base.{
  ℕ, ◌+◌, ◌/◌, Bool, true, false, not, ◌&&◌, ◌||◌, Option, none, some, List, [], ◌∷◌, ◌++◌, map,
  Text, str, trim_prefix, trim_suffix, ltb, leb, ◌==◌, all, drop, if◌then◌else◌,
}
use soft_serve.Env.{Env}
use soft_serve.Paths.{clean_rooted, join_below}

pub data NameError : Type 0 where
  empty_username bad_first_letter bad_username_char : NameError
  empty_repo bad_repo_char : NameError

-- the first byte of the UTF-8 encoding of a code point
unfoldable pub first_byte : ℕ → ℕ
first_byte c =
    if ltb c 0x80
    then c
    else if ltb c 0x800
    then 0xc0 + c / 0x40
    else if ltb c 0x10000
    then 0xe0 + c / 0x1000
    else 0xf0 + c / 0x40000

module _ (env : Env) where
  -- unicode.IsLetter
  unfoldable pub is_letter : ℕ → Bool
  is_letter c =
      if ltb c 128 then (leb b'a' c && leb c b'z') || (leb b'A' c && leb c b'Z') else env.letter c

  -- unicode.IsDigit
  unfoldable pub is_digit : ℕ → Bool
  is_digit c = if ltb c 128 then leb b'0' c && leb c b'9' else env.digit c

  -- unicode.ToLower, and strings.ToLower, which applies it to every code point
  unfoldable pub lower_char : ℕ → ℕ
  lower_char c = if ltb c 128 then (if leb b'A' c && leb c b'Z' then c + 32 else c) else env.lower c

  unfoldable pub to_lower : Text → Text
  unfolding lower_char
  to_lower = map lower_char

  -- Sanitize
  unfoldable pub sanitize : Text → Text
  sanitize s = env.strip s

  -- SanitizeRepo
  unfoldable pub sanitize_repo : Text → Text
  sanitize_repo repo =
      let stripped = trim_prefix (sanitize repo) (str "/") in
      let cleaned = clean_rooted stripped in drop 1 (trim_suffix cleaned (str ".git"))

  -- the loop of ValidateUsername
  unfoldable pub username_char : ℕ → Bool
  unfolding is_letter is_digit
  username_char r = is_letter r || is_digit r || r == b'-'

  -- ValidateUsername: `none` is a nil error
  unfoldable pub validate_username : Text → Option NameError
  unfolding is_letter first_byte username_char
  validate_username [] = some empty_username
  validate_username (c ∷ cs) =
      if not (is_letter (first_byte c))
      then some bad_first_letter
      else if all username_char (c ∷ cs)
      then none
      else some bad_username_char

  unfoldable pub repo_char : ℕ → Bool
  unfolding is_letter is_digit
  repo_char r = is_letter r || is_digit r || r == b'-' || r == b'_' || r == b'.' || r == b'/'

  -- ValidateRepo
  unfoldable pub validate_repo : Text → Option NameError
  unfolding repo_char
  validate_repo [] = some empty_repo
  validate_repo (c ∷ cs) = if all repo_char (c ∷ cs) then none else some bad_repo_char

  -- Backend.repoPath: the parts of the path; `data_path` is the absolute data directory's parts
  unfoldable pub repo_path : List Text → Text → List Text
  repo_path data_path name =
      join_below (data_path ++ str "repos" ∷ []) (sanitize_repo name ++ str ".git")
