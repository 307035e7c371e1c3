-- ===== src/Filesystem.antt =====
-- common_utils/filesystem.cpp: names cut from a path, and what asks or changes the file system.
pub mod Syscalls
pub mod Paths
pub mod Folders
pub mod Files
use iexapitest.Base.{
  Option, Text, [], codes, drop, find, find_last, if◌then◌else◌, is_empty, length, none, not, some,
  suc, take, zero, ℕ, ◌&&◌, ◌++◌, ◌==◌, ◌∷◌,
}
use Syscalls.{Posix}

abbrev pub slash : ℕ
slash = b'/'

unfoldable pub get_file_name : Text → Text
get_file_name full_path = elim (find_last slash full_path) [
  | some pos ↦ drop (suc pos) full_path
  | none ↦ full_path
]

unfoldable pub get_directory : Text → Text
get_directory full_path = elim (find_last slash full_path) [
  | some pos ↦ take pos full_path
  | none ↦ codes "./"
]

-- `next_part` before and after the slash that is found, or all of it.
pub cut_part : Text → Text × Text
cut_part next_part = elim (find slash next_part) [
  | some pos ↦ (take pos next_part, drop (suc pos) next_part)
  | none ↦ (next_part, [])
]

-- How `CreateFolder` ends: its loop is through, or a `mkdir` of the path failed.
pub data Created (State : Type 0) : Type 0 where
  done : State → Created State
  gave_up : Text → State → Created State

module _ (P : Posix) where
  open P use {State, exists, mkdir, chmod}

  -- The body of the loop behind the cut: `none` if it returns.
  make_missing : Text → State → Option State
  make_missing created s =
      if not (is_empty created) && not (exists s created)
      then elim (mkdir s created) [ none ↦ none | some s' ↦ some (chmod s' created) ]
      else some s

  -- The loop, with fuel; `none` means that the fuel ran out.
  create_parts : ℕ → Text → Text → State → Option (Created State)
  create_parts fuel [] created s = some (done s)
  create_parts zero (c ∷ next_part) created s = none
  create_parts (suc fuel) (c ∷ next_part) created s =
      let (part, rest) = cut_part (c ∷ next_part) in
      elim (make_missing (created ++ part) s) [
        | none ↦ some (gave_up (created ++ part) s)
        | some s' ↦ create_parts fuel rest (created ++ part ++ slash ∷ []) s'
      ]

  -- A slash in front is moved over first.
  strip_root : Text → Text × Text
  strip_root [] = ([], [])
  strip_root (c ∷ dir) = if c == slash then (slash ∷ [], dir) else ([], c ∷ dir)

  unfoldable pub create_folder : Text → State → Option (Created State)
  unfolding create_parts make_missing strip_root cut_part
  create_folder dir s =
      if is_empty dir
      then some (done s)
      else if exists s dir
      then some (done s)
      else let (created, next_part) = strip_root dir in
        create_parts (length next_part) next_part created s
