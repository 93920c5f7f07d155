-- ===== src/Storage.antt =====
-- pkg/storage/local.go: files below a root; and the path of a Git LFS object, RelativePath of
-- pkg/lfs/pointer.go.
use soft_serve.Base.{Bool, ◌∷◌, ◌++◌, Text, str, length, take, drop, ltb, if◌then◌else◌}
use soft_serve.Paths.{join_below}
use soft_serve.Store.Exec.{Result, ok, err, io_error}
use soft_serve.System.Disk.{
  FilePath, Files, Faults, Io, parent, exists, os_mkdir_all, os_write_file, os_remove, os_rename,
}

-- fixPath, on a relative name
unfoldable pub fix_path : FilePath → Text → FilePath
fix_path root name = join_below root name

-- RelativePath, on an ASCII id; what path.Join cleans is cleaned by fixPath, with the rest of the path
unfoldable pub relative_path : Text → Text
relative_path oid =
    if ltb (length oid) 5 then oid else take 2 oid ++ b'/' ∷ take 2 (drop 2 oid) ++ b'/' ∷ oid

-- path.Join("objects", p.RelativePath())
unfoldable pub object_name : Text → Text
unfolding relative_path
object_name oid = str "objects/" ++ relative_path oid

abbrev next : Result (Unit {0}) → Io → Io
next (ok a) f d = f d
next (err e) f d = (err e, d)

infixl 10 ◌▸◌
abbrev pub ◌▸◌ : Io → Io → Io
(m ▸ n) d = let (r, d') = m d in next r n d'

-- os.Stat of the path fails with an error other than fs.ErrNotExist
abbrev pub StatFaults : Type 0
StatFaults = FilePath → Files → Bool

-- Exists
unfoldable pub storage_exists : StatFaults → FilePath → Text → Files → Result Bool
unfolding fix_path exists
storage_exists stat_fails root name d =
    if stat_fails (fix_path root name) d then err io_error else ok (exists (fix_path root name) d)

module _ (faults : Faults) (root : FilePath) where
  -- Delete
  unfoldable pub delete : Text → Io
  unfolding fix_path os_remove
  delete name = os_remove faults (fix_path root name)

  -- Put, of a content that is read without an error
  unfoldable pub put : Text → Text → Io
  unfolding fix_path os_mkdir_all os_write_file
  put name content =
      os_mkdir_all faults (parent (fix_path root name))
      ▸ os_write_file faults (fix_path root name) content

  -- Rename
  unfoldable pub rename : Text → Text → Io
  unfolding fix_path os_mkdir_all os_rename
  rename old new =
      os_mkdir_all faults (parent (fix_path root new))
      ▸ os_rename faults (fix_path root old) (fix_path root new)
