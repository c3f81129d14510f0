-- ===== src/Jukebox/Server/Upkeep.antt =====
-- What every operation of ConnectedClient.cpp keeps true of a client: its sender is there exactly
-- while it is sending, and then, and only then, its socket is watched for output.
use networking_projects.Base.{
  ℕ, ◌≡◌, ◌≢◌, refl, ◌⊎◌, inl, inr, Bool, true, false, none, some, List, [], ◌∷◌, if◌then◌else◌,
}
use networking_projects.Jukebox.SongLibrary.{SongLibrary}
use networking_projects.Jukebox.State.{
  ChunkedDataSender, receiving, sending, Action, modified, removed, shut_write, closed, State, Os,
  ok, halt, exited, undefined, out_of_fuel, done, ◌>>◌,
}
use networking_projects.Jukebox.Client.{watch_input, watch_output, set_sender, control_epoll}
use networking_projects.Jukebox.Server.Keeping.{Promise, Good}

-- The events that the client's socket is watched for, from what was done with it since it was added.
abbrev pub watched : List Action → ℕ
watched [] = watch_input
watched (modified fd events ∷ log) = events
watched (removed fd ∷ log) = watched log
watched (shut_write fd ∷ log) = watched log
watched (closed fd ∷ log) = watched log

-- A client that waits for requests, and one that waits to send on.
abbrev pub Waits : State → Type 0
Waits s = (s.state ≡ receiving) × (s.sender ≡ none) × (watched s.log ≡ watch_input)

abbrev pub Resumes : State → Type 0
Resumes s =
    (s.state ≡ sending)
    × (c : ChunkedDataSender) × (s.sender ≡ some c)
    × (watched s.log ≡ watch_output)

-- A client of the server that holds `library`, under the key `fd`.
pub record Consistent (library : SongLibrary) (fd : ℕ) (s : State) : Type 0 where
  pub same_fd : s.client_fd ≡ fd
  pub has_library : s.song_library ≡ some library
  pub phase : Waits s ⊎ Resumes s

pub exited_is_defined : exited ≢ undefined
exited_is_defined e = absurd (cc)

pub out_of_fuel_is_defined : out_of_fuel ≢ undefined
out_of_fuel_is_defined e = absurd (cc)

module _ (os : Os) (library : SongLibrary) (fd : ℕ) where
  abbrev pub promise : Promise
  promise = record {
    holds = Consistent library fd;
    halts = λ h. Unit;
    sent = λ s calls wire c. record {
      same_fd = c.same_fd;
      has_library = c.has_library;
      phase = c.phase;
    };
    exits = tt;
    fuel = tt;
  }

  -- The same, of an operation that does not use a null pointer.
  abbrev pub safely : Promise
  safely = record {
    holds = Consistent library fd;
    halts = λ h. h ≢ undefined;
    sent = λ s calls wire c. record {
      same_fd = c.same_fd;
      has_library = c.has_library;
      phase = c.phase;
    };
    exits = exited_is_defined;
    fuel = out_of_fuel_is_defined;
  }

  pub control_epoll-Good :
      (q : Promise) (a : Action) (s : State) → q.holds (done a s) → Good q (control_epoll os a s)
  unfolding control_epoll
  control_epoll-Good q a s c = go (os.succeeds s.calls)
    where
      go : (b : Bool) → Good {0} q {A = Unit {0}} (if b then ok tt (done a s) else halt exited s)
      go true = c
      go false = q.exits

  -- The sender is kept, and the socket watched for output.
  pub kept-Good :
      (sender : ChunkedDataSender) (s : State)
      → Consistent library fd s
      → Good promise (
          (set_sender sending (some sender) >> control_epoll os (modified s.client_fd watch_output))
            s)
  kept-Good sender s c =
      control_epoll-Good promise (modified s.client_fd watch_output)
        (record s { self = record s.self { state = sending; sender = some sender } })
        (record {
          same_fd = c.same_fd;
          has_library = c.has_library;
          phase = inr (refl, sender, refl, refl);
        })

  -- The sender is dropped, and the socket watched for input alone.
  pub dropped-Good :
      (q : Promise)
      → ((s : State) → Consistent library fd s → q.holds s)
      → (s : State) → s.client_fd ≡ fd
      → s.song_library ≡ some library
      → Good q
          ((set_sender receiving none >> control_epoll os (modified s.client_fd watch_input)) s)
  dropped-Good q lift s same has =
      control_epoll-Good q (modified s.client_fd watch_input)
        (record s { self = record s.self { state = receiving; sender = none } })
        (lift _ (record { same_fd = same; has_library = has; phase = inl (refl, refl, refl) }))
