-- ===== src/Lfs.antt =====
-- pkg/lfs/pointer.go: pointer files, as lists of bytes, which are read and printed.
pub mod Printed
use soft_serve.Base.{
  ℕ, Bool, not, ◌||◌, Option, none, some, List, [], ◌∷◌, ◌++◌, all, take, length, Text, str,
  has_prefix, trim_prefix, ◌==◌, if◌then◌else◌,
}
use soft_serve.Base.Int.{ℤ, pos, negsuc}
use soft_serve.Ssh.Commands.Parse.{parse_int}
use soft_serve.Web.Decimal.{decimal}
use soft_serve.Web.Objects.{Pointer, is_hex}

-- the errors of a reader, those of the file, and that of strconv.ParseInt
pub data ReadError : Type 0 where
  end_of_file missing_prefix invalid_structure invalid_oid_format invalid_size : ReadError

pub data Reading : Type 0 where
  read : Pointer → Reading
  failed : ReadError → Reading

-- MetaFileIdentifier and MetaFileOidPrefix
abbrev pub meta_file_identifier : Text
meta_file_identifier = str "version https://git-lfs.github.com/spec/v1"

abbrev pub meta_file_oid_prefix : Text
meta_file_oid_prefix = str "oid sha256:"

abbrev cons_first : ℕ → List Text → List Text
cons_first c [] = (c ∷ []) ∷ []
cons_first c (l ∷ ls) = (c ∷ l) ∷ ls

-- strings.Split at line ends
unfoldable pub split_lines : Text → List Text
split_lines [] = [] ∷ []
split_lines (c ∷ s) = let rest = split_lines s in if c == 10 then [] ∷ rest else cons_first c rest

abbrev pub check_size : Text → Option ℤ → Reading
check_size oid none = failed invalid_size
check_size oid (some size) = read (record { oid = oid; size = size })

abbrev pub check_oid : Text → Text → Reading
check_oid oid line =
    if not (length oid == 64) || not (all is_hex oid)
    then failed invalid_oid_format
    else check_size oid (parse_int (trim_prefix line (str "size ")))

abbrev pub check_lines : List Text → Reading
check_lines (first ∷ second ∷ third ∷ rest) =
    check_oid (trim_prefix second meta_file_oid_prefix) third
check_lines lines = failed invalid_structure

-- ReadPointerFromBuffer
unfoldable pub read_pointer_from_buffer : Text → Reading
unfolding has_prefix split_lines trim_prefix parse_int
read_pointer_from_buffer buf =
    if has_prefix buf meta_file_identifier
    then check_lines (split_lines buf)
    else failed missing_prefix

-- ReadPointer, for a reader that gives the content without an error
unfoldable pub read_pointer : Text → Reading
unfolding read_pointer_from_buffer
read_pointer [] = failed end_of_file
read_pointer (c ∷ s) = read_pointer_from_buffer (take 1024 (c ∷ s))

-- the verb %d on an integer
abbrev pub decimal_of : ℤ → Text
decimal_of (pos n) = decimal n
decimal_of (negsuc n) = b'-' ∷ decimal (soft_serve.Base.suc n)

abbrev pub line : Text → Text → Text
line s rest = s ++ 10 ∷ rest

-- Pointer.String
unfoldable pub string : Pointer → Text
unfolding decimal
string p =
    line meta_file_identifier
      (line (meta_file_oid_prefix ++ p.oid) (line (str "size " ++ decimal_of p.size) []))
