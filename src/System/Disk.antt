-- ===== src/System/Disk.antt =====
-- Files and directories: the calls of the packages os and io/fs that the program makes.
use soft_serve.Base.{
  Bool, true, false, not, ◌&&◌, ◌||◌, Option, none, some, List, [], ◌∷◌, ◌++◌, map, Text, text_eq,
  any, select, find, if◌then◌else◌,
}
use mathlib.Core.List.{reverse, tail}
use soft_serve.Store.Exec.{Result, ok, err, io_error}

-- the parts of an absolute path
abbrev pub FilePath : Type 0
FilePath = List Text

-- a file with its content; without one, a directory
pub record Entry : Type 0 where
  pub at : FilePath
  pub content : Option Text

abbrev pub Files : Type 0
Files = List Entry

-- the path names something at or below the directory
unfoldable pub is_under : FilePath → FilePath → Bool
is_under [] p = true
is_under (a ∷ rest) [] = false
is_under (a ∷ rest) (b ∷ more) = text_eq a b && is_under rest more

unfoldable pub path_eq : FilePath → FilePath → Bool
unfolding is_under
path_eq p q = is_under p q && is_under q p

-- filepath.Dir
abbrev pub parent : FilePath → FilePath
parent p = reverse (tail (reverse p))

unfoldable pub entry : FilePath → Files → Option Entry
unfolding path_eq
entry p d = find (λ e. path_eq p e.at) d

abbrev is_some : Option Entry → Bool
is_some none = false
is_some (some e) = true

-- os.Stat returns no error
unfoldable pub exists : FilePath → Files → Bool
unfolding entry
exists p d = is_some (entry p d)

abbrev directory : Option Entry → Bool
directory none = false
directory (some e) = elim e.content [ none ↦ true | some c ↦ false ]

-- the path is a directory; the root always is
unfoldable pub is_dir : FilePath → Files → Bool
unfolding entry
is_dir [] d = true
is_dir (a ∷ rest) d = directory (entry (a ∷ rest) d)

unfoldable pub is_file : FilePath → Files → Bool
unfolding exists is_dir
is_file p d = exists p d && not (is_dir p d)

-- nothing stands below the directory
unfoldable pub is_empty : FilePath → Files → Bool
unfolding path_eq
is_empty p d = not (any (λ e. is_under p e.at && not (path_eq p e.at)) d)

-- A call that changes files
pub data Call : Type 0 where
  mkdir_all write_file remove remove_all : FilePath → Call
  rename : FilePath → FilePath → Call

-- Calls that fail for a reason outside the files, such as a full disk: `some` holds what is left.
abbrev pub Faults : Type 0
Faults = Call → Files → Option Files

abbrev pub Io : Type 0
Io = Files → Result (Unit {0}) × Files

abbrev outcome : Option Files → Files → Result (Unit {0}) × Files
outcome none d = (err io_error, d)
outcome (some after) d = (ok tt, after)

abbrev or_fault : Option Files → (Files → Option Files) → Io
or_fault (some left) f d = (err io_error, left)
or_fault none f d = outcome (f d) d

-- the entries without those at or below the path
unfoldable pub without : FilePath → Files → Files
unfolding is_under
without p d = select (λ e. not (is_under p e.at)) d

-- the directories on the way down, made where they are missing
unfoldable pub make_dirs : FilePath → FilePath → Files → Option Files
unfolding is_file exists
make_dirs done [] d = some d
make_dirs done (a ∷ rest) d =
    let here = done ++ a ∷ [] in
    let made =
      make_dirs here rest
        (if exists here d then d else d ++ record { at = here; content = none } ∷ []) in
    if is_file here d then none else made

unfoldable pub written : FilePath → Text → Files → Option Files
unfolding is_dir path_eq
written p c d =
    if is_dir (parent p) d && not (is_dir p d)
    then some (select (λ e. not (path_eq p e.at)) d ++ record { at = p; content = some c } ∷ [])
    else none

unfoldable pub removed : FilePath → Files → Option Files
unfolding exists is_empty path_eq
removed p d =
    if exists p d && is_empty p d then some (select (λ e. not (path_eq p e.at)) d) else none

-- the path below p with the part up to p taken off
abbrev pub below : FilePath → FilePath → FilePath
below [] q = q
below (a ∷ rest) [] = []
below (a ∷ rest) (b ∷ more) = below rest more

-- an entry at or below p stands at or below q
unfoldable pub moved : FilePath → FilePath → Entry → Entry
unfolding is_under
moved p q e = if is_under p e.at then record e { at = q ++ below p e.at } else e

-- the target of a rename does not exist, or is of the same kind and nothing stands below it
unfoldable pub is_free : FilePath → FilePath → Files → Bool
unfolding exists is_dir is_empty
is_free p q d =
    if exists q d
    then (if is_dir p d then is_dir q d && is_empty q d else not (is_dir q d))
    else true

unfoldable pub renamed : FilePath → FilePath → Files → Option Files
unfolding exists is_dir is_under without moved is_free path_eq
renamed p q d =
    if not (exists p d)
      || not (is_dir (parent q) d)
      || (is_under p q && not (path_eq p q))
      || not (is_free p q d)
    then none
    else if path_eq p q
    then some d
    else some (map (moved p q) (without q d))

module _ (faults : Faults) where
  -- os.MkdirAll
  unfoldable pub os_mkdir_all : FilePath → Io
  unfolding make_dirs
  os_mkdir_all p d = or_fault (faults (mkdir_all p) d) (make_dirs [] p) d

  -- os.WriteFile
  unfoldable pub os_write_file : FilePath → Text → Io
  unfolding written
  os_write_file p c d = or_fault (faults (write_file p) d) (written p c) d

  -- os.Remove
  unfoldable pub os_remove : FilePath → Io
  unfolding removed
  os_remove p d = or_fault (faults (remove p) d) (removed p) d

  -- os.RemoveAll, which succeeds on a path that does not exist
  unfoldable pub os_remove_all : FilePath → Io
  unfolding without
  os_remove_all p d = or_fault (faults (remove_all p) d) (λ d'. some (without p d')) d

  -- os.Rename
  unfoldable pub os_rename : FilePath → FilePath → Io
  unfolding renamed
  os_rename p q d = or_fault (faults (rename p q) d) (renamed p q) d
