-- ===== src/Jukebox/Tests.antt =====
-- The server run on concrete requests, and the theorems about it at concrete inputs.
use networking_projects.Base.{
  List, false, ℕ, zero, suc, ◌≡◌, refl, true, none, some, [], ◌∷◌, ◌++◌, arith,
}
use networking_projects.Base.Decimal.{codes, to_string}
use networking_projects.Base.Paths.{filename, has_byte, extension, name_extension, from_dot}
use networking_projects.Jukebox.Protocol.{make_header, to_byte_array}
use networking_projects.Jukebox.SongLibrary.Numbers.{scan_files-get_song_file_path}
use networking_projects.Jukebox.SongLibrary.{
  FilePath, scan_files, is_mp3, SongLibrary, get_song_file_path, get_song_list, list_lines,
  drop_newline,
}
use networking_projects.Jukebox.State.{receiving, State, Answer, takes, full, Os, halt, exited}
use networking_projects.Jukebox.Chunked.{array_sender}
use networking_projects.Jukebox.Chunked.Steps.{in_memory, on_disk, sender_at, blocked_at}
use networking_projects.Jukebox.Client.{send_with_sender, respond, resume_sending}
use networking_projects.Jukebox.Client.Deliveries.{
  Delivers, Resumes, waiting, send_with_sender-Delivers, resume_sending-Resumes, respond_overtakes,
  resume_sending_exits,
}

abbrev library : SongLibrary
library = record {
  song_files = (0, codes "music/a.mp3") ∷ (1, codes "music/b.mp3") ∷ [];
  info_files = [];
}

abbrev start : State
start = record {
  self = record { client_fd = 4; sender = none; state = receiving; song_library = some library };
  calls = 0;
  wire = [];
  log = [];
}

abbrev with_sender : State → State
with_sender s = record s { self = waiting (sender_at in_memory (1 ∷ 2 ∷ 3 ∷ []) 1) s }

abbrev with_file : State → State
with_file s = record s { self = waiting (blocked_at on_disk (1 ∷ 2 ∷ 3 ∷ []) 1) s }

-- A system that takes two bytes at a time, and one whose buffer is full at first.
abbrev roomy : Os
roomy = record {
  answer = λ c. takes 2;
  succeeds = λ c. true;
  read_file = λ p. some (7 ∷ 8 ∷ 9 ∷ []);
}

abbrev full_first : ℕ → Answer
full_first zero = full
full_first (suc c) = takes 2

abbrev busy : Os
busy = record { answer = full_first; succeeds = λ c. true; read_file = λ p. none }

list_lines_run : get_song_list library ≡ codes "0:a.mp3" ++ (10 ∷ codes "1:b.mp3")
unfolding get_song_list list_lines drop_newline filename has_byte to_string
list_lines_run = refl

send_with_sender-Delivers_example :
    Delivers in_memory
      (1 ∷ 2 ∷ 3 ∷ [])
      start
      (send_with_sender busy (sender_at in_memory (1 ∷ 2 ∷ 3 ∷ []) 0) start)
send_with_sender-Delivers_example = send_with_sender-Delivers busy in_memory (1 ∷ 2 ∷ 3 ∷ []) start

resume_sending-Resumes_example :
    Resumes (1 ∷ 2 ∷ 3 ∷ []) 1 (with_sender start) (resume_sending busy (with_sender start))
resume_sending-Resumes_example =
    resume_sending-Resumes busy (1 ∷ 2 ∷ 3 ∷ []) 1 (with_sender start) (omega arith) refl

respond_overtakes_example :
    let header = to_byte_array (make_header 3 2) in
    (w : State) × (w.wire ≡ [])
    × (w.self ≡ waiting (array_sender header) start)
    × Delivers in_memory (6 ∷ 7 ∷ []) w (respond busy 3 (6 ∷ 7 ∷ []) start)
respond_overtakes_example = respond_overtakes busy 3 (6 ∷ 7 ∷ []) start refl refl

resume_sending_exits_example :
    (t : State) × (resume_sending roomy (with_file start) ≡ halt exited t) × (t.wire ≡ [])
resume_sending_exits_example =
    resume_sending_exits roomy (1 ∷ 2 ∷ 3 ∷ []) 1 2 (with_file start) (omega arith) (omega arith)
      refl refl

abbrev directory : List FilePath
directory = codes "m/b.mp3" ∷ codes "m/b.mp3.info" ∷ codes "m/a.mp3" ∷ []

scan_files-get_song_file_path_example :
    get_song_file_path
      (scan_files (λ p. false) directory (record { song_files = []; info_files = [] }))
      1
    ≡ some (codes "m/a.mp3")
unfolding is_mp3 extension name_extension from_dot filename has_byte
scan_files-get_song_file_path_example =
    scan_files-get_song_file_path (λ p. false) directory 1 (omega arith)
