-- ===== src/Grpc/Repositories/Updated.antt =====
-- UpdateRepository of pkg/grpc/server.go: the answer and the row that it leaves.
use soft_serve.Base.{◌≡◌, sym, ◌∙◌, Option, none, some, Text, find}
use soft_serve.Env.{Env}
use soft_serve.Names.{sanitize, sanitize_repo}
use soft_serve.Store.Schema.{Repo}
use soft_serve.Store.Repos.{titled}
use soft_serve.Store.Found.{some_injective}
use soft_serve.System.{World}
use soft_serve.System.Cache.{Lru, LruLaws}
use soft_serve.Backend.Lifecycle.{Machine}
use soft_serve.Backend.Lifecycle.Coherent.{IsSteady}
use soft_serve.Backend.Lifecycle.Created.{repository-row}
use soft_serve.Backend.Lifecycle.Columns.{
  HasRow, set_hidden-HasRow, set_project_name-HasRow, set_description-HasRow, set_private-HasRow,
}
use soft_serve.Grpc.{reply, internal}
use soft_serve.Grpc.Bind.{calling_reply, required_then, given_then}
use soft_serve.Grpc.Repositories.{UpdateRequest, update_repository}

module _ (env : Env) where
  abbrev described : Text → Repo → Repo
  described v r = record r { description = sanitize env v }

  abbrev entitled : Text → Repo → Repo
  entitled v r = record r { project_name = sanitize env v }

  abbrev optional : {A : Type 0} → Option A → (A → Repo → Repo) → Repo → Repo
  optional o g r = elim o [ none ↦ r | some a ↦ g a r ]

  -- the row with the fields that a request sets
  abbrev pub updated : UpdateRequest → Repo → Repo
  updated req r = optional req.project_name entitled (
      optional req.is_hidden (λ v x. record x { hidden = v })
        (optional req.is_private (λ v x. record x { private = v })
          (optional req.description described r)))

module _ {C : Type 0} (env : Env) (lru : Lru C) (laws : LruLaws lru) (m : Machine) where
  -- When UpdateRepository answers with a repository, that is the row of the name afterwards: the one
  -- from before with every field that the request sets, sanitized where it is a text, and no other
  -- field changed; if the cache was coherent and sanitizing the name twice is sanitizing it once.
  pub update_repository-row :
      (req : UpdateRequest) (r answer : Repo) (w after : World C)
      → IsSteady env req.name
      → HasRow env lru req.name r w
      → update_repository env lru m req w ≡ (reply answer, after)
      → (answer ≡ updated env req r)
        × (find (titled (sanitize_repo env req.name)) after.db.repos ≡ some (updated env req r))
  unfolding update_repository
  update_repository-row req r answer w after steady h run =
      let Row = HasRow env lru req.name in
      let run0 = required_then req.name _ answer w after run in
      let (w1, h1, run1) =
        given_then Row req.description _ (described env) _ r answer w after
          (λ v end e k.
            set_description-HasRow env lru laws m req.name v _ w end steady
              (calling_reply internal _ tt w end e) k)
          run0 h in
      let (w2, h2, run2) =
        given_then Row req.is_private _ (λ v x. record x { private = v }) _ _ answer w1 after
          (λ v end e k.
            set_private-HasRow env lru laws m req.name v _ w1 end steady
              (calling_reply internal _ tt w1 end e) k)
          run1 h1 in
      let (w3, h3, run3) =
        given_then Row req.is_hidden _ (λ v x. record x { hidden = v }) _ _ answer w2 after
          (λ v end e k.
            set_hidden-HasRow env lru laws m req.name v _ w2 end steady
              (calling_reply internal _ tt w2 end e) k)
          run2 h2 in
      let (w4, h4, run4) =
        given_then Row req.project_name _ (entitled env) _ _ answer w3 after
          (λ v end e k.
            set_project_name-HasRow env lru laws m req.name v _ w3 end steady
              (calling_reply internal _ tt w3 end e) k)
          run3 h3 in
      let looked = calling_reply internal _ answer w4 after run4 in
      let (row, same) =
        repository-row env lru laws m req.name answer w4 after steady h4.coherent looked in
      (some_injective (sym row ∙ h4.row), rw same h4.row)
