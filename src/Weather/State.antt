-- ===== src/Weather/State.antt =====
-- client.c: what the sensor client asks the system for, and the ways in which a call of it ends.
use networking_projects.Base.{ℕ, suc, Bool, Option, List, ◌∷◌}
use networking_projects.Base.Int.{ℤ}

-- `RequestType`
pub data RequestType : Type 0 where
  temperature humidity wind_speed quit invalid : RequestType

-- What the program does that can be seen from outside: a connection to a host and a port, and its
-- descriptor; bytes that a socket took; a descriptor closed, `none` for -1; text on the standard
-- output; text on the standard error. The menu and the messages of perror are left out.
pub data Action : Type 0 where
  connected : List ℕ → List ℕ → ℕ → Action
  sent : ℕ → List ℕ → Action
  closed : Option ℕ → Action
  printed complained : List ℕ → Action

-- `calls` numbers the calls of the system, `answers` holds what each `recv` returns, `none` for -1,
-- and `log` what the program did, the latest first.
pub record State : Type 0 where
  pub calls : ℕ
  pub answers : List (Option (List ℕ))
  pub log : List Action

-- What the code does not decide: whether getaddrinfo finds a host, the descriptor of a socket,
-- whether `connect` succeeds, how many bytes a `send` takes at most, and the text of ctime, which is
-- null for a time of too large a year. A signal that ends the program is left out.
pub record Os : Type 0 where
  pub finds : List ℕ → List ℕ → Bool
  pub socket : ℕ → Option ℕ
  pub connects : ℕ → Bool
  pub takes : ℕ → Option ℕ
  pub ctime : ℤ → Option (List ℕ)

-- The ways in which a call does not return: `exit`, with its status; an access that the language
-- leaves undefined; or a `recv` that nothing answers.
pub data Halt : Type 0 where
  exited : ℕ → Halt
  undefined blocked : Halt

pub data Result {ℓ} (A : Type ℓ) : Type ℓ where
  ok : A → State → Result A
  halt : Halt → State → Result A

abbrev pub M {ℓ} : Type ℓ → Type ℓ
M A = State → Result A

abbrev pub pure {ℓ} : {A : Type ℓ} → A → M A
pure a s = ok a s

abbrev pub stop {ℓ} : {A : Type ℓ} → Halt → M A
stop h s = halt h s

abbrev pub bind {ℓ κ} : {A : Type ℓ} {B : Type κ} → Result A → (A → M B) → Result B
bind (ok a s) f = f a s
bind (halt h s) f = halt h s

infixl 5 ◌>>=◌ ◌>>◌
abbrev pub ◌>>=◌ {ℓ κ} : {A : Type ℓ} {B : Type κ} → M A → (A → M B) → M B
◌>>=◌ m f s = bind (m s) f

abbrev pub ◌>>◌ {ℓ κ} : {A : Type ℓ} {B : Type κ} → M A → M B → M B
m >> k = m >>= λ _. k

-- An action that is no call whose answer the code looks at.
abbrev pub did : Action → State → State
did a s = record s { log = a ∷ s.log }

abbrev pub act : Action → M (Unit {0})
act a s = ok tt (did a s)

-- A call of the system, and what it did.
abbrev pub called : Action → State → State
called a s = record s { calls = suc s.calls; log = a ∷ s.log }
