-- ===== src/Examples/Filesystem.antt =====
-- common_utils/filesystem.cpp on a small disk.
use iexapitest.Base.{Lacks, List, Text, [], codes, find, find_last, refl, some, ◌++◌, ◌∷◌, ◌≡◌, ◌⊎◌}
use iexapitest.Filesystem.{Created, create_folder, done, get_directory, get_file_name, slash}
use iexapitest.Filesystem.Paths.{get_directory-get_file_name}
use iexapitest.Filesystem.Folders.{Ends, Keeps, create_folder-Ends, state_of}
use iexapitest.Examples.Disk.{above, disk, disk-IsLawful, resolves}

abbrev log_path : Text
log_path = codes "/var/log/daemon.txt"

names : (get_file_name log_path ≡ codes "daemon.txt") × (get_directory log_path ≡ codes "/var/log")
unfolding get_file_name get_directory find_last
names = (refl, refl)

get_directory-get_file_name_example :
    Lacks slash (get_file_name log_path)
    × ((Lacks slash log_path
          × (get_file_name log_path ≡ log_path)
          × (get_directory log_path ≡ codes "./"))
        ⊎ (get_directory log_path ++ slash ∷ get_file_name log_path ≡ log_path))
get_directory-get_file_name_example = get_directory-get_file_name log_path

create_two : create_folder disk (codes "/a/b") [] ≡ some (done (codes "/a/b" ∷ codes "/a" ∷ []))
unfolding create_folder find resolves above
create_two = refl

create_folder-Ends_example :
    (r : Created (List Text)) × (create_folder disk (codes "/a/b") [] ≡ some r)
    × Keeps disk disk-IsLawful [] (state_of disk disk-IsLawful r)
    × Ends disk disk-IsLawful [] (codes "/a/b") r
create_folder-Ends_example = create_folder-Ends disk disk-IsLawful (codes "/a/b") []
