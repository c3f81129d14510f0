-- ===== src/Jukebox/SongLibrary.antt =====
-- SongLibrary.cpp and SongLibrary.h: the songs that the server offers, by their numbers.
pub mod Numbers
use networking_projects.Base.{
  ℕ, ◌+◌, ◌-◌, ◌%◌, ◌^◌, Bool, true, false, Option, none, some, List, [], ◌∷◌, ◌++◌, ◌==◌, ltb,
  if◌then◌else◌, length, take,
}
use networking_projects.Base.Decimal.{codes, to_string}
use networking_projects.Base.Paths.{filename, extension, same_bytes}

-- `std::filesystem::path`, by its bytes.
abbrev pub FilePath : Type 0
FilePath = List ℕ

-- `std::map<uint32_t, fs::path>`, in the order of the keys.
abbrev pub Songs : Type 0
Songs = List (ℕ × FilePath)

pub record SongLibrary : Type 0 where
  pub song_files : Songs
  pub info_files : Songs

-- `contains` and `at`.
unfoldable pub find_song : ℕ → Songs → Option FilePath
find_song id [] = none
find_song id ((key, path) ∷ rest) =
    let later = find_song id rest in if key == id then some path else later

-- `song_files[id] = path`
unfoldable pub put_song : ℕ → FilePath → Songs → Songs
put_song id path [] = (id, path) ∷ []
put_song id path ((key, old) ∷ rest) =
    let later = put_song id path rest in
    if id == key
    then (id, path) ∷ rest
    else if ltb id key
    then (id, path) ∷ (key, old) ∷ rest
    else (key, old) ∷ later

unfoldable pub get_song_file_path : SongLibrary → ℕ → Option FilePath
get_song_file_path l id = find_song id l.song_files

unfoldable pub get_info_file_path : SongLibrary → ℕ → Option FilePath
get_info_file_path l id = find_song id l.info_files

unfoldable pub list_lines : Songs → List ℕ
list_lines [] = []
list_lines ((id, path) ∷ rest) =
    to_string id ++ (codes ":" ++ (filename path ++ (10 ∷ list_lines rest)))

-- `if (!result.empty() && result.back() == '\n') result.pop_back()`
unfoldable pub drop_newline : List ℕ → List ℕ
drop_newline [] = []
drop_newline (c ∷ []) = if c == 10 then [] else c ∷ []
drop_newline (c ∷ d ∷ rest) = c ∷ drop_newline (d ∷ rest)

unfoldable pub get_song_list : SongLibrary → List ℕ
get_song_list l = drop_newline (list_lines l.song_files)

-- `replace_extension`, for a replacement that starts with a dot.
unfoldable pub replace_extension : FilePath → List ℕ → FilePath
replace_extension path replacement =
    take (length path - length (extension path)) path ++ replacement

-- `entry->path().extension() == ".mp3"`
unfoldable pub is_mp3 : FilePath → Bool
is_mp3 path = same_bytes (extension path) (codes ".mp3")

-- One entry of a directory, in the branch of a song.
unfoldable pub add_song : (FilePath → Bool) → ℕ → FilePath → SongLibrary → SongLibrary
unfolding put_song replace_extension
add_song is_regular_file id path l =
    let info_file_path = replace_extension path (codes ".mp3.info") in
    record {
      song_files = put_song id path l.song_files;
      info_files =
          if is_regular_file info_file_path
          then put_song id info_file_path l.info_files
          else l.info_files;
    }

-- The loop over the entries of a directory, in the order in which the system gives them.
unfoldable pub scan_entries : (FilePath → Bool) → ℕ → List FilePath → SongLibrary → SongLibrary
scan_entries is_regular_file current_id [] l = l
scan_entries is_regular_file current_id (path ∷ rest) l = elim (is_mp3 path) [
  | true ↦
      scan_entries is_regular_file ((current_id + 1) % 2 ^ 32) rest
        (add_song is_regular_file current_id path l)
  | false ↦ scan_entries is_regular_file current_id rest l
]

unfoldable pub scan_files : (FilePath → Bool) → List FilePath → SongLibrary → SongLibrary
scan_files is_regular_file entries l = scan_entries is_regular_file 0 entries l
