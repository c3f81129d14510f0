-- ===== src/Jukebox/SongLibrary/Numbers.antt =====
-- The numbers that scan_files gives to the songs.
use networking_projects.Base.{
  ℕ, zero, suc, ◌+◌, ◌%◌, ◌^◌, ◌≤◌, ◌<◌, ◌≡◌, ◌≢◌, refl, ap, sym, ◌∙◌, Bool, true, false, Option,
  none, some, List, [], ◌∷◌, arith, if◌then◌else◌, length, Bool-cases, inl, inr,
}
use networking_projects.Jukebox.SongLibrary.{
  FilePath, Songs, SongLibrary, find_song, put_song, get_song_file_path, is_mp3, add_song,
  scan_entries, scan_files,
}

abbrev pub get_elem? {ℓ} : {A : Type ℓ} → List A → ℕ → Option A
get_elem? [] n = none
get_elem? (x ∷ xs) zero = some x
get_elem? (x ∷ xs) (suc n) = get_elem? xs n

-- The entries that are songs, in order.
abbrev pub mp3s : List FilePath → List FilePath
mp3s [] = []
mp3s (path ∷ rest) = let later = mp3s rest in if is_mp3 path then path ∷ later else later

find_song-put_song_same :
    (id : ℕ) (path : FilePath) (songs : Songs) → find_song id (put_song id path songs) ≡ some path
unfolding find_song put_song
find_song-put_song_same id path [] = ground arith
find_song-put_song_same id path ((key, old) ∷ rest) =
    ground (arith, find_song-put_song_same id path rest)

find_song-put_song_other :
    (k id : ℕ) (path : FilePath) (songs : Songs)
    → k ≢ id
    → find_song k (put_song id path songs) ≡ find_song k songs
unfolding find_song put_song
find_song-put_song_other k id path [] h = ground arith
find_song-put_song_other k id path ((key, old) ∷ rest) h =
    ground (arith, find_song-put_song_other k id path rest h)

mp3s-song :
    (path : FilePath) (rest : List FilePath)
    → is_mp3 path ≡ true
    → mp3s (path ∷ rest) ≡ path ∷ mp3s rest
mp3s-song path rest h = rw h refl

mp3s-other :
    (path : FilePath) (rest : List FilePath) → is_mp3 path ≡ false → mp3s (path ∷ rest) ≡ mp3s rest
mp3s-other path rest h = rw h refl

module _ (is_regular_file : FilePath → Bool) where
  scan_entries-song :
      (id : ℕ) (path : FilePath) (rest : List FilePath) (l : SongLibrary)
      → is_mp3 path ≡ true
      → id + 1 < 2 ^ 32
      → scan_entries is_regular_file id (path ∷ rest) l
        ≡ scan_entries is_regular_file (id + 1) rest (add_song is_regular_file id path l)
  unfolding scan_entries
  scan_entries-song id path rest l h small =
      rw (h, scan_entries)
        (ap (λ n. scan_entries is_regular_file n rest (add_song is_regular_file id path l))
          (let e : (id + 1) % 2 ^ 32 ≡ id + 1 = omega arith in e))

  scan_entries-other :
      (id : ℕ) (path : FilePath) (rest : List FilePath) (l : SongLibrary)
      → is_mp3 path ≡ false
      → scan_entries is_regular_file id (path ∷ rest) l ≡ scan_entries is_regular_file id rest l
  unfolding scan_entries
  scan_entries-other id path rest l h = rw (h, scan_entries) refl

  scan_entries-below :
      (k id : ℕ) (entries : List FilePath) (l : SongLibrary)
      → k < id
      → id + length (mp3s entries) < 2 ^ 32
      → find_song k (scan_entries is_regular_file id entries l).song_files
        ≡ find_song k l.song_files
  unfolding scan_entries add_song
  scan_entries-below k id [] l h bound = refl
  scan_entries-below k id (path ∷ rest) l h bound = elim (Bool-cases (is_mp3 path)) [
    | inl song ↦
        let count = ap length (mp3s-song path rest song) in
        ap (λ m. find_song k m.song_files) (scan_entries-song id path rest l song (omega arith))
        ∙ scan_entries-below k (id + 1) rest (add_song is_regular_file id path l) (omega arith)
            (omega arith)
        ∙ find_song-put_song_other k id path l.song_files (λ e. omega arith)
    | inr other ↦
        let count = ap length (mp3s-other path rest other) in
        ap (λ m. find_song k m.song_files) (scan_entries-other id path rest l other)
        ∙ scan_entries-below k id rest l h (omega arith)
  ]

  scan_entries-at :
      (id j : ℕ) (entries : List FilePath) (l : SongLibrary)
      → id + length (mp3s entries) < 2 ^ 32
      → ((k : ℕ) → id ≤ k → find_song k l.song_files ≡ none)
      → find_song (id + j) (scan_entries is_regular_file id entries l).song_files
        ≡ get_elem? (mp3s entries) j
  unfolding scan_entries add_song
  scan_entries-at id j [] l bound free = free (id + j) (omega arith)
  scan_entries-at id j (path ∷ rest) l bound free = elim (Bool-cases (is_mp3 path)) [
    | inl song ↦
        let count = ap length (mp3s-song path rest song) in
        ap (λ m. find_song (id + j) m.song_files)
          (scan_entries-song id path rest l song (omega arith))
        ∙ from_song j (omega arith) (λ i.
          scan_entries-at (id + 1) i rest added (omega arith) (λ k above.
            find_song-put_song_other k id path l.song_files (λ e. omega arith)
            ∙ free k (omega arith)))
        ∙ ap (λ xs. get_elem? xs j) (sym (mp3s-song path rest song))
    | inr other ↦
        let count = ap length (mp3s-other path rest other) in
        ap (λ m. find_song (id + j) m.song_files) (scan_entries-other id path rest l other)
        ∙ scan_entries-at id j rest l (omega arith) free
        ∙ ap (λ xs. get_elem? xs j) (sym (mp3s-other path rest other))
  ]
    where
      added : SongLibrary
      added = add_song is_regular_file id path l

      from_song :
          (j : ℕ)
          → id + 1 + length (mp3s rest) < 2 ^ 32
          → ((i : ℕ)
              → find_song (id + 1 + i) (scan_entries is_regular_file (id + 1) rest added).song_files
                ≡ get_elem? (mp3s rest) i)
          → find_song (id + j) (scan_entries is_regular_file (id + 1) rest added).song_files
            ≡ get_elem? (path ∷ mp3s rest) j
      from_song zero small later =
          ap (λ n. find_song n (scan_entries is_regular_file (id + 1) rest added).song_files)
            (let e : id + 0 ≡ id = omega arith in e)
          ∙ scan_entries-below id (id + 1) rest added (omega arith) small
          ∙ find_song-put_song_same id path l.song_files
      from_song (suc i) small later =
          ap (λ n. find_song n (scan_entries is_regular_file (id + 1) rest added).song_files)
            (let e : id + suc i ≡ id + 1 + i = omega arith in e)
          ∙ later i

  -- After the files of a directory with fewer than 2 ^ 32 songs are scanned into an empty library,
  -- the songs have the numbers from 0 on in the order of the entries, and no other number has one.
  pub scan_files-get_song_file_path :
      (entries : List FilePath) (id : ℕ)
      → length (mp3s entries) < 2 ^ 32
      → get_song_file_path
          (scan_files is_regular_file entries (record { song_files = []; info_files = [] }))
          id
        ≡ get_elem? (mp3s entries) id
  unfolding scan_files get_song_file_path find_song
  scan_files-get_song_file_path entries id bound =
      ap
        (λ n.
          find_song n
            (scan_entries is_regular_file 0 entries
              (record { song_files = []; info_files = [] })).song_files)
        (let e : id ≡ 0 + id = omega arith in e)
      ∙ scan_entries-at 0 id entries (record { song_files = []; info_files = [] }) (omega arith)
          (λ k h. refl)
