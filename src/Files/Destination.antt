-- ===== src/Files/Destination.antt =====
-- desktop/capabilities/files/src/destination.rs: a free name in the download directory, and the
-- promotion of a verified file to it.
pub mod Kept
pub mod Examples
use anyflow.Prelude.{
  ℕ, zero, suc, ◌+◌, ◌/◌, ◌%◌, Bool, true, false, not, ◌&&◌, Option, none, some, List, [], ◌∷◌,
  ◌++◌, ltb, ◌==◌, if◌then◌else◌, is_some, is_nil, Bytes, bytes_key, Result, ok, err,
}
use anyflow.Collections.BTreeMap
use anyflow.Collections.BTreeMap.{BTreeMap}
use anyflow.Files.Filename.{Text, rfind_dot}

abbrev pub max_duplicate_suffix : ℕ
max_duplicate_suffix = 999

pub data IoError : Type 0 where
  outside_directory too_many_files other : IoError

-- The files of the directory, by name. What the system decides stands beside: whether a joined path
-- is a direct child of the directory, whether a free name can be created, whether the directory can
-- be prepared, whether the rename succeeds and whether the placeholder can be removed after it.
pub record Directory : Type 0 where
  pub files : BTreeMap Text Bytes
  pub is_child : Text → Bool
  pub creates : Text → Bool
  pub prepares : Bool
  pub renames : Bool
  pub removes : Bool

pub split_at : Text → Option (Text × Text) → Text × Text
split_at name (some (before, rest)) = if not (is_nil before) then (before, rest) else (name, [])
split_at name none = (name, [])

pub split_extension : Text → Text × Text
unfolding split_at rfind_dot
split_extension name = split_at name (rfind_dot name)

abbrev digit : ℕ → ℕ
digit n = b'0' + n % 10

-- `{attempt}`, of a number below 1000.
pub decimal : ℕ → Text
decimal n =
    if ltb n 10
    then digit n ∷ []
    else if ltb n 100
    then digit (n / 10) ∷ digit n ∷ []
    else digit (n / 100) ∷ digit (n / 10) ∷ digit n ∷ []

-- `"{stem} ({attempt}){extension}"`
pub candidate : Text → ℕ → Text
unfolding split_extension decimal
candidate name attempt =
    if attempt == 0
    then name
    else let (stem, extension) = split_extension name in
      stem ++ 32 ∷ 40 ∷ decimal attempt ++ 41 ∷ extension

-- `create_new` is `O_EXCL`: it fails on a name that is there.
pub reserve_loop : Directory → Text → ℕ → ℕ → Directory × Result Text IoError
unfolding BTreeMap.contains_key BTreeMap.insert candidate
reserve_loop d name zero attempt = (d, err too_many_files)
reserve_loop d name (suc left) attempt =
    let later = reserve_loop d name left (attempt + 1) in
    let path = candidate name attempt in
    if not (d.is_child path)
    then (d, err outside_directory)
    else if BTreeMap.contains_key path d.files
    then later
    else if not (d.creates path)
    then (d, err other)
    else (record d { files = BTreeMap.insert path [] d.files }, ok path)

pub reserve_within : ℕ → Directory → Text → Directory × Result Text IoError
unfolding reserve_loop
reserve_within attempts d name =
    if not d.prepares then (d, err other) else reserve_loop d name attempts 0

pub reserve : Directory → Text → Directory × Result Text IoError
unfolding reserve_within
reserve d name = reserve_within (max_duplicate_suffix + 1) d name

-- `let _ = remove_file(&final_path)`
abbrev pub without_placeholder : Directory → Text → Directory
without_placeholder d path =
    if d.removes then record d { files = BTreeMap.remove path d.files } else d

-- `rename`: the content moves, over the placeholder.
pub rename : Directory → Text → Text → Option Bytes → Directory × Result Text IoError
unfolding BTreeMap.insert BTreeMap.remove
rename d temp path none = (without_placeholder d path, err other)
rename d temp path (some content) =
    if d.renames
    then (record d { files = BTreeMap.insert path content (BTreeMap.remove temp d.files) }, ok path)
    else (without_placeholder d path, err other)

pub onto : Text → Directory × Result Text IoError → Directory × Result Text IoError
unfolding rename BTreeMap.get
onto temp (d, err e) = (d, err e)
onto temp (d, ok path) = rename d temp path (BTreeMap.get temp d.files)

pub promote : Directory → Text → Text → Directory × Result Text IoError
unfolding onto reserve
promote d temp name = onto temp (reserve d name)
