-- ===== src/Web/Objects.antt =====
-- pkg/web/git_lfs.go: the objects of Git LFS in requests and answers, and IsValid of pkg/lfs/pointer.go.
-- Bodies are given as they are decoded and read, and os.Stat fails only on a path that does not exist.
pub mod Batch
pub mod Basic
pub mod Stored
use soft_serve.Base.{
  ℕ, Bool, true, false, not, ◌&&◌, ◌||◌, Option, none, some, List, [], ◌∷◌, ◌++◌, map, any, all,
  length, Text, str, text_eq, has_prefix, leb, ◌==◌, if◌then◌else◌,
}
use soft_serve.Base.Int.{ℤ, pos, negsuc, ltbℤ}
use soft_serve.Access.{AccessLevel, read_write_access}
use soft_serve.Env.{Env}
use soft_serve.Store.Schema.{Repo, LfsObject}
use soft_serve.Store.Lfs.{get_lfs_object_by_oid, create_lfs_object}
use soft_serve.Store.Exec.{Error, Result, ok, err}
use soft_serve.System.{Sys, ◌>>=◌, ◌>>◌, pure, on_db, on_disk, reads_disk, attempt}
use soft_serve.System.Disk.{FilePath, Files, Faults, Entry, entry}
use soft_serve.System.Cache.{Lru}
use soft_serve.Storage.{fix_path, object_name, storage_exists, put}
use soft_serve.Backend.Lifecycle.{Machine, repository}
use soft_serve.Web.Decimal.{decimal}
use soft_serve.Web.Locks.{is_not_found}

-- lfs.Pointer
pub record Pointer : Type 0 where
  pub oid : Text
  pub size : ℤ

-- one character of oidPattern
abbrev pub is_hex : ℕ → Bool
is_hex c = (leb b'0' c && leb c b'9') || (leb b'a' c && leb c b'f')

-- IsValid
unfoldable pub is_valid : Pointer → Bool
is_valid p = length p.oid == 64 && all is_hex p.oid && not (ltbℤ p.size (pos 0))

-- lfs.Link, with the header Authorization if it is not empty
pub record Link : Type 0 where
  pub href : Text
  pub authorization : Text

-- lfs.ObjectResponse: an error with its code, or the actions
pub data ObjectResponse : Type 0 where
  object_error : ℕ → ObjectResponse
  download : Link → ObjectResponse
  upload : (to verify : Link) → ObjectResponse

-- What the client gets: status 406; an error of Git LFS with its status; status 403 with a request for
-- credentials; status 200 without a body; an answer that the handler does not write; a file with the
-- length in its header; the objects of a batch.
pub data ObjectAnswer : Type 0 where
  not_acceptable : ObjectAnswer
  failure : ℕ → ObjectAnswer
  write_required : ObjectAnswer
  done : ObjectAnswer
  no_answer : ObjectAnswer
  file : ℕ → Text → ObjectAnswer
  batch : List (Pointer × ObjectResponse) → ObjectAnswer

-- lfs.BatchRequest
pub record BatchRequest : Type 0 where
  pub operation : Text
  pub transfers : List Text
  pub objects : List Pointer

-- obj.Size == o.Size
abbrev pub size_is : ℤ → ℕ → Bool
size_is (pos n) m = n == m
size_is (negsuc n) m = false

abbrev pub size_of : ℤ → ℕ
size_of (pos n) = n
size_of (negsuc n) = 0

-- isBinary
unfoldable pub is_binary : Text → Bool
is_binary content_type = has_prefix content_type (str "application/octet-stream")

-- the directory of a repository's objects
abbrev pub lfs_root : Machine → Repo → FilePath
lfs_root m repo = m.data_path ++ str "lfs" ∷ decimal repo.id ∷ []
