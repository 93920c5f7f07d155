-- ===== src/Tests/Names.antt =====
-- Names and access levels at concrete inputs.
use soft_serve.Base.{◌≡◌, ◌≢◌, ◌⊎◌, none, some, List, [], ◌∷◌, ◌++◌, Text, str, All}
use soft_serve.Base.Int.{pos}
use soft_serve.Access.{marshal_text, unmarshal_text, invalid_access_level}
use soft_serve.Access.Codec.{IsNamed, unmarshal_text-marshal_text}
use soft_serve.Paths.Resolve.{IsPart}
use soft_serve.Names.{repo_path}
use soft_serve.Names.Safety.{repo_path-below_repos}
use soft_serve.Tests.Data.{env}

repo_path-below_repos_example :
    (rest : List Text) × (repo_path env (str "data" ∷ []) (str "../../etc")
      ≡ (str "data" ∷ str "repos" ∷ []) ++ rest)
    × (rest ≢ [])
    × All IsPart rest
repo_path-below_repos_example = repo_path-below_repos env (str "data" ∷ []) (str "../../etc")

unmarshal_text-marshal_text_example :
    (IsNamed (pos 2) × (unmarshal_text (pos 0) (marshal_text (pos 2)).0 ≡ (pos 2, none)))
    ⊎ ((¬ IsNamed (pos 2))
        × (unmarshal_text (pos 0) (marshal_text (pos 2)).0 ≡ (pos 0, some invalid_access_level)))
unmarshal_text-marshal_text_example = unmarshal_text-marshal_text (pos 0) (pos 2)
