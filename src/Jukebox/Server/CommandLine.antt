-- ===== src/Jukebox/Server/CommandLine.antt =====
-- music-server.cpp's main from its command line on.
use networking_projects.Base.{
  ℕ, ◌≡◌, Bool, true, false, Bool-cases, inl, inr, Option, none, some, List, [], ◌∷◌, All,
}
use networking_projects.Base.Text.{Parsed, parsed, invalid_argument, out_of_range, stoul}
use networking_projects.Jukebox.SongLibrary.{FilePath, scan_files}
use networking_projects.Jukebox.State.{Os, exited, uncaught}
use networking_projects.Jukebox.Server.{Server, Outcome, running, stopped, Event, main}
use networking_projects.Jukebox.Server.Upkeep.{Consistent}
use networking_projects.Jukebox.Server.Loop.{main-Consistent}

-- What the command line says: the port's text and the directory.
unfoldable pub arguments : List (List ℕ) → Option (List ℕ × List ℕ)
arguments (port ∷ filedir ∷ []) = some (port, filedir)
arguments _ = none

module _ (os : Os) (is_regular_file : FilePath → Bool) (is_directory : FilePath → Bool)
    (entries : FilePath → List FilePath) (server_socket : ℕ) where
  -- The number of the port is taken after the directory is looked at. An exception of std::stoul ends the
  -- program; what sets up the socket gets the low 16 bits.
  unfoldable pub serve_at : Parsed → FilePath → List (Option (List Event)) → Outcome
  unfolding main
  serve_at (parsed port) filedir waits =
      main os is_regular_file true (entries filedir) server_socket waits
  serve_at invalid_argument filedir waits = stopped uncaught
  serve_at out_of_range filedir waits = stopped uncaught

  unfoldable pub start : List (List ℕ) → List (Option (List Event)) → Outcome
  unfolding arguments serve_at stoul
  start args waits = elim (arguments args) [
    | none ↦ stopped exited
    | some (port, filedir) ↦ elim (is_directory filedir) [
      | false ↦ stopped exited
      | true ↦ serve_at (stoul port) filedir waits
    ]
  ]

  serve_at-Consistent :
      (read : Parsed) (filedir : FilePath) (waits : List (Option (List Event))) (server : Server)
      → serve_at read filedir waits ≡ running server
      → All
          (λ e.
            Consistent
              (scan_files is_regular_file
                (entries filedir)
                (record { song_files = []; info_files = [] }))
              e.0
              e.1)
          server.clients
  unfolding serve_at
  serve_at-Consistent (parsed port) filedir waits server e =
      main-Consistent os is_regular_file true (entries filedir) server_socket waits server e
  serve_at-Consistent invalid_argument filedir waits server e = absurd cc
  serve_at-Consistent out_of_range filedir waits server e = absurd cc

  -- Whatever the directory lists, whatever the events are and whatever the system answers, as long as
  -- the server that is started for a directory runs, each client of the map stands under its own
  -- descriptor and has the library of the songs scanned, and either waits for requests, has no sender
  -- and is watched for input alone, or is sending, has a sender and is watched for output too.
  pub start-Consistent :
      (port filedir : List ℕ) (waits : List (Option (List Event))) (server : Server)
      → start (port ∷ filedir ∷ []) waits ≡ running server
      → All
          (λ e.
            Consistent
              (scan_files is_regular_file
                (entries filedir)
                (record { song_files = []; info_files = [] }))
              e.0
              e.1)
          server.clients
  unfolding start
  start-Consistent port filedir waits server e = elim (Bool-cases (is_directory filedir)) [
    | inl listed ↦ serve_at-Consistent (stoul port) filedir waits server (rw (listed, start) at e)
    | inr missing ↦
        absurd (let no : stopped exited ≡ running server = rw (missing, start) at e in cc)
  ]
