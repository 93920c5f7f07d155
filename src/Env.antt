-- ===== src/Env.antt =====
-- What the program takes from code outside the repository: the terminal-escape stripper, the tables
-- of Unicode above ASCII, the SSH key encoding, the token hash, and sqlx.In.
use soft_serve.Base.{ℕ, Bool, Option, List, Text}

pub record Env : Type 0 where
  -- ansi.Strip of charmbracelet/x
  pub strip : Text → Text
  -- unicode.IsLetter, unicode.IsDigit and unicode.ToLower on a code point above 127
  pub letter : ℕ → Bool
  pub digit : ℕ → Bool
  pub lower : ℕ → ℕ
  -- ssh.MarshalAuthorizedKey without its newline, and ssh.ParseAuthorizedKey; a key is its wire form
  pub marshal_key : Text → Text
  pub parse_key : Text → Option Text
  -- HashToken: the hexadecimal SHA-256 of the salted token
  pub hash_token : Text → Text
  -- sqlx.In on a slice: the arguments that stand for the slice in the statement, or an error
  pub sqlx_in : List ℕ → Option (List ℕ)
