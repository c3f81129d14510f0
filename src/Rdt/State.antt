-- ===== src/Rdt/State.antt =====
-- The state of a program that owns one ReliableSocket, and what its operations can end in.
-- UnreliableSocket.h and ReliableSocket.h: the members of the two classes.
use networking_projects.Base.{ℕ, suc, Bool, List, ◌∷◌, ◌≡◌, ◌⊎◌, inl, inr, refl}
use networking_projects.Rdt.Clock.{Timeval}

-- `enum connection_status`
pub data Status : Type 0 where
  init wait_hs2 wait_hs3 wait_send wait_data0 wait_data1 wait_ack0 wait_ack1 : Status
  closing closed : Status

-- class UnreliableSocket; the descriptor is the operating system's.
pub record UnreliableSocket : Type 0 where
  pub timeout_length : ℕ
  pub connected : Bool

-- class ReliableSocket
pub record ReliableSocket : Type 0 where
  pub socket : UnreliableSocket
  pub open socket use *
  pub state : Status
  pub sequence_number : ℕ
  pub estimated_rtt : ℕ
  pub dev_rtt : ℕ

-- What the operating system is asked to do.
pub data Action : Type 0 where
  opened shut : Action
  bound : ℕ → Action
  connected_to : ℕ → ℕ → Action
  connected_back : Action
  timeout_set : Timeval → Action
  sent : List ℕ → Action

-- `calls` numbers the calls of the operating system; `log` holds what it did, the latest first.
pub record State : Type 0 where
  pub self : ReliableSocket
  pub open self use *
  pub calls : ℕ
  pub log : List Action

-- What the code does not decide: whether the call with a number succeeds, what the clock shows then,
-- and the padding byte of a header made then.
pub record Os : Type 0 where
  pub succeeds : ℕ → Bool
  pub clock : ℕ → Timeval
  pub padding : ℕ → ℕ

-- One answer of `recv`: the bytes of a datagram, -1 with EAGAIN, or -1 with another error.
pub data Event : Type 0 where
  datagram : List ℕ → Event
  again broken : Event

-- The ways in which a call does not return: `exit(EXIT_FAILURE)`, an exception that nothing
-- catches, an access outside an array, or a `recv` that waits after the last answer.
pub data Halt : Type 0 where
  exited uncaught undefined blocked : Halt

pub data Result {ℓ} (A : Type ℓ) : Type ℓ where
  ok : A → State → Result A
  halt : Halt → State → Result A

abbrev pub M {ℓ} : Type ℓ → Type ℓ
M A = State → Result A

abbrev pub pure {ℓ} : {A : Type ℓ} → A → M A
pure a s = ok a s

abbrev pub stop {ℓ} : {A : Type ℓ} → Halt → M A
stop h s = halt h s

abbrev pub bind {ℓ κ} : {A : Type ℓ} {B : Type κ} → Result A → (A → M B) → Result B
bind (ok a s) f = f a s
bind (halt h s) f = halt h s

infixl 5 ◌>>=◌ ◌>>◌
abbrev pub ◌>>=◌ {ℓ κ} : {A : Type ℓ} {B : Type κ} → M A → (A → M B) → M B
◌>>=◌ m f s = bind (m s) f

abbrev pub ◌>>◌ {ℓ κ} : {A : Type ℓ} {B : Type κ} → M A → M B → M B
m >> k = m >>= λ _. k

abbrev pub get : M State
get s = ok s s

-- A call that the system carried out.
abbrev pub done : Action → State → State
done a s = record s { calls = suc s.calls; log = a ∷ s.log }

-- Inversion of a bind that returns.
pub bind-eq-ok {ℓ κ} :
    {A : Type ℓ} {B : Type κ} (r : Result A) (f : A → M B) {b : B} {s : State}
    → bind r f ≡ ok b s
    → (a : A) × (t : State) × (r ≡ ok a t) × (f a t ≡ ok b s)
bind-eq-ok (ok a t) f h = (a, t, refl, h)
bind-eq-ok (halt e t) f h = cc

pub Result-cases {ℓ} :
    {A : Type ℓ} (r : Result A)
    → ((a : A) × (s : State) × (r ≡ ok a s)) ⊎ ((h : Halt) × (s : State) × (r ≡ halt h s))
Result-cases (ok a s) = inl (a, s, refl)
Result-cases (halt h s) = inr (h, s, refl)
