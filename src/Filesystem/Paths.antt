-- ===== src/Filesystem/Paths.antt =====
-- A path is its directory and its file name.
use iexapitest.Base.{
  Lacks, LastAt, Option, Text, codes, drop, drop-append_cons, find_last, find_last-append,
  find_last_lem, inl, inr, none, refl, some, suc, take, take-append, ℕ, ◌++◌, ◌∷◌, ◌≡◌, ◌⊎◌,
}
use iexapitest.Filesystem.{get_directory, get_file_name, slash}

-- What the two functions make of a path, by the last slash in it.
abbrev Split : Text → Text → Text → Type 0
Split full_path dir name =
    Lacks slash name
    × ((Lacks slash full_path × (name ≡ full_path) × (dir ≡ codes "./"))
        ⊎ (dir ++ slash ∷ name ≡ full_path))

-- The file name has no slash. A path without a slash is its own file name, in the directory `./`;
-- any other path is its directory, a slash and its file name.
pub get_directory-get_file_name :
    (full_path : Text)
    → Lacks slash (get_file_name full_path)
      × ((Lacks slash full_path
            × (get_file_name full_path ≡ full_path)
            × (get_directory full_path ≡ codes "./"))
          ⊎ (get_directory full_path ++ slash ∷ get_file_name full_path ≡ full_path))
unfolding get_file_name get_directory
get_directory-get_file_name full_path =
    go (find_last slash full_path) (find_last_lem slash full_path)
  where
    go :
        (o : Option ℕ)
        → LastAt slash full_path o
        → Split full_path
            (elim o [ some pos ↦ take pos full_path | none ↦ codes "./" ])
            (elim o [ some pos ↦ drop (suc pos) full_path | none ↦ full_path ])
    go none lacks = (lacks, inl (lacks, refl, refl))
    go (some i) (whole, lacks) = (lacks, inr whole)

-- Putting a directory and a file name without a slash together and cutting again gives both back.
get_directory-append :
    (dir name : Text)
    → Lacks slash name
    → (get_directory (dir ++ slash ∷ name) ≡ dir) × (get_file_name (dir ++ slash ∷ name) ≡ name)
unfolding get_file_name get_directory
get_directory-append dir name h =
    rw (get_directory, get_file_name, find_last-append slash dir name h)
      (take-append dir (slash ∷ name), drop-append_cons dir slash name)
