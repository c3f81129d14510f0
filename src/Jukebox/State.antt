-- ===== src/Jukebox/State.antt =====
-- What one client of the server is held as, and the calls of the system that the code makes.
-- ChunkedDataSender.h and ConnectedClient.h: the members of the classes.
use networking_projects.Base.{ℕ, suc, Bool, List, ◌∷◌, ◌++◌, Option, length, take}
use networking_projects.Jukebox.SongLibrary.{SongLibrary, FilePath}

-- `std::ifstream` of a file that is not changed while it is open. `failed` is its failbit.
pub record Stream : Type 0 where
  pub contents : List ℕ
  pub position : ℕ
  pub failed : Bool

-- class ArraySender
pub record ArraySender : Type 0 where
  pub array : List ℕ
  pub curr_loc : ℕ

-- class FileSender
pub record FileSender : Type 0 where
  pub file : Stream
  pub open file use *
  pub file_size : ℕ
  pub bytes_sent : ℕ

-- class ChunkedDataSender, by the classes that implement it.
pub data ChunkedDataSender : Type 0 where
  of_array : ArraySender → ChunkedDataSender
  of_file : FileSender → ChunkedDataSender

-- `enum ClientState`
pub data ClientState : Type 0 where
  receiving sending : ClientState

-- class ConnectedClient. `none` is the null pointer.
pub record ConnectedClient : Type 0 where
  pub client_fd : ℕ
  pub sender : Option ChunkedDataSender
  pub state : ClientState
  pub song_library : Option SongLibrary

-- What the system is asked to do with a descriptor. A mask tells the events to watch for.
pub data Action : Type 0 where
  modified : ℕ → ℕ → Action
  removed shut_write closed : ℕ → Action

-- `calls` numbers the calls of the system, `wire` holds the bytes that it took for the client, and
-- `log` what else it did, the latest first.
pub record State : Type 0 where
  pub self : ConnectedClient
  pub open self use *
  pub calls : ℕ
  pub wire : List ℕ
  pub log : List Action

-- One answer of `send` on a socket that does not block: at most so many bytes taken, -1 with EAGAIN,
-- or -1 with another error.
pub data Answer : Type 0 where
  takes : ℕ → Answer
  full broken : Answer

-- What the code does not decide: the answers of `send`, whether `epoll_ctl` succeeds, and the
-- contents of the files.
pub record Os : Type 0 where
  pub answer : ℕ → Answer
  pub succeeds : ℕ → Bool
  pub read_file : FilePath → Option (List ℕ)

-- The ways in which a call does not return: `exit(EXIT_FAILURE)`, an exception that nothing
-- catches, an access that the language leaves undefined, or fuel that is used up.
pub data Halt : Type 0 where
  exited uncaught undefined out_of_fuel : Halt

pub data Result {ℓ} (A : Type ℓ) : Type ℓ where
  ok : A → State → Result A
  halt : Halt → State → Result A

abbrev pub M {ℓ} : Type ℓ → Type ℓ
M A = State → Result A

abbrev pub pure {ℓ} : {A : Type ℓ} → A → M A
pure a s = ok a s

abbrev pub stop {ℓ} : {A : Type ℓ} → Halt → M A
stop h s = halt h s

abbrev pub bind {ℓ κ} : {A : Type ℓ} {B : Type κ} → Result A → (A → M B) → Result B
bind (ok a s) f = f a s
bind (halt h s) f = halt h s

infixl 5 ◌>>=◌ ◌>>◌
abbrev pub ◌>>=◌ {ℓ κ} : {A : Type ℓ} {B : Type κ} → M A → (A → M B) → M B
◌>>=◌ m f s = bind (m s) f

abbrev pub ◌>>◌ {ℓ κ} : {A : Type ℓ} {B : Type κ} → M A → M B → M B
m >> k = m >>= λ _. k

-- `send`: what it returns.
abbrev pub transmit : Os → List ℕ → M Answer
transmit os bytes s = elim (os.answer s.calls) [
  | takes n ↦
      ok (takes (length (take n bytes)))
        (record s { calls = suc s.calls; wire = s.wire ++ take n bytes })
  | full ↦ ok full (record s { calls = suc s.calls })
  | broken ↦ ok broken (record s { calls = suc s.calls })
]

-- `epoll_ctl`, `shutdown` or `close`, which did what it was asked.
abbrev pub done : Action → State → State
done a s = record s { calls = suc s.calls; log = a ∷ s.log }
