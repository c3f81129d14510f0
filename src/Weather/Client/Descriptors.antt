-- ===== src/Weather/Client/Descriptors.antt =====
-- The descriptors that the sensor client holds, whatever the system and the servers answer.
use networking_projects.Base.{
  ℕ, suc, ◌≡◌, refl, ap, ◌∙◌, Bool, true, false, Bool-cases, ◌==◌, ==_self, Option, none, some,
  Option-cases, inl, inr, List, [], ◌∷◌, length, take,
}
use networking_projects.Base.Int.{ℤ, pos, negsuc}
use networking_projects.Weather.State.{
  Action, connected, sent, closed, printed, complained, State, Os, Result, ok, halt, M, bind,
}
use networking_projects.Weather.Client.{
  recv_line, terminated, if_received, time_text, send_text, connect_to_host,
}

unfoldable without : ℕ → List ℕ → List ℕ
without k [] = []
without k (j ∷ fds) = elim (j == k) [ true ↦ fds | false ↦ j ∷ without k fds ]

-- The descriptors opened and not closed.
unfoldable pub held : List Action → List ℕ
unfolding without
held [] = []
held (connected host port fd ∷ log) = fd ∷ held log
held (closed none ∷ log) = held log
held (closed (some fd) ∷ log) = without fd (held log)
held (sent fd bytes ∷ log) = held log
held (printed text ∷ log) = held log
held (complained text ∷ log) = held log

abbrev pub with_fd : Option ℕ → List ℕ → List ℕ
with_fd none fds = fds
with_fd (some fd) fds = fd ∷ fds

pub held-closed :
    (fd : Option ℕ) (fds : List ℕ) (log : List Action)
    → held log ≡ with_fd fd fds
    → held (closed fd ∷ log) ≡ fds
unfolding held
held-closed none fds log h = h
held-closed (some fd) fds log h = ap (without fd) h ∙ rw (==_self fd, without) refl

-- A call that returns leaves a log that satisfies the condition.
abbrev pub Leaves {ℓ} : {A : Type ℓ} → (A → List Action → Type 0) → Result A → Type 0
Leaves p (ok a s) = p a s.log
Leaves p (halt h s) = Unit

pub bind-Leaves {ℓ κ} :
    {A : Type ℓ} {B : Type κ} (p : A → List Action → Type 0) (q : B → List Action → Type 0)
    (r : Result A) (f : A → M B)
    → Leaves p r
    → ((a : A) (s : State) → p a s.log → Leaves q (f a s))
    → Leaves q (bind r f)
bind-Leaves p q (ok a s) f h next = next a s h
bind-Leaves p q (halt k s) f h next = tt

-- After a send that fails, the descriptor is closed.
abbrev pub Sent : Option ℕ → List ℕ → Bool → List Action → Type 0
Sent fd fds true log = held log ≡ with_fd fd fds
Sent fd fds false log = held log ≡ fds

abbrev pub Holds {ℓ} : {A : Type ℓ} → List ℕ → A → List Action → Type 0
Holds fds a log = held log ≡ fds

abbrev pub Opened : List ℕ → Option ℕ → List Action → Type 0
Opened fds fd log = held log ≡ with_fd fd fds

-- An answer that is not -1.
abbrev pub Heard : List ℕ → ℤ × List ℕ → List Action → Type 0
Heard fds (negsuc n, buffer) log = ⊥
Heard fds (pos n, buffer) log = held log ≡ fds

pub if_received-Leaves {ℓ} :
    {A : Type ℓ} (q : A → List Action → Type 0) (fds : List ℕ) (answer : ℤ × List ℕ) (failed : M A)
    (next : List ℕ → M A) (s : State)
    → Heard fds answer s.log
    → ((buffer : List ℕ) → held s.log ≡ fds → Leaves q (next buffer s))
    → Leaves q (if_received answer failed next s)
if_received-Leaves q fds (negsuc n, buffer) failed next s h go = absurd h
if_received-Leaves q fds (pos n, buffer) failed next s h go = go buffer h

terminated-Leaves :
    (n : ℕ) (stored : Option (List ℕ)) (fds : List ℕ) (s : State)
    → held s.log ≡ fds
    → Leaves (Heard fds) (terminated (pos n) stored s)
terminated-Leaves n none fds s h = tt
terminated-Leaves n (some buffer) fds s h = h

recv_line-answered :
    (fd : Option ℕ) (buffer : List ℕ) (room : ℕ) (fds : List ℕ) (s : State)
    (answers : List (Option (List ℕ)))
    → held s.log ≡ fds
    → s.answers ≡ answers
    → Leaves (Heard fds) (recv_line fd buffer (suc room) s)
unfolding recv_line
recv_line-answered fd buffer room fds s [] h e = rw (e, recv_line) tt
recv_line-answered fd buffer room fds s (none ∷ answers) h e = rw (e, recv_line) tt
recv_line-answered fd buffer room fds s (some bytes ∷ answers) h e =
    rw (e, recv_line)
      (terminated-Leaves (length (take room bytes)) _ fds (record s { answers = answers }) h)

pub recv_line-Leaves :
    (fd : Option ℕ) (buffer : List ℕ) (room : ℕ) (fds : List ℕ) (s : State)
    → held s.log ≡ fds
    → Leaves (Heard fds) (recv_line fd buffer (suc room) s)
recv_line-Leaves fd buffer room fds s h = recv_line-answered fd buffer room fds s s.answers h refl

pub time_text-Leaves :
    (text : Option (List ℕ)) (fds : List ℕ) (s : State)
    → held s.log ≡ fds
    → Leaves (Holds fds) (time_text text s)
time_text-Leaves none fds s h = tt
time_text-Leaves (some []) fds s h = tt
time_text-Leaves (some (c ∷ text)) fds s h = h

module _ (os : Os) (fds : List ℕ) where
  pub send_text-Leaves :
      (fd : Option ℕ) (str : List ℕ) (s : State)
      → held s.log ≡ with_fd fd fds
      → Leaves (Sent fd fds) (send_text os fd str s)
  unfolding send_text held
  send_text-Leaves none str s h = h
  send_text-Leaves (some fd) str s h = elim (Option-cases (os.takes s.calls)) [
    | inl fails ↦ rw (fails, send_text) (held-closed (some fd) fds s.log h)
    | inr (n, takes) ↦ rw (takes, send_text) h
  ]

  pub connect_to_host-Leaves :
      (host port : List ℕ) (s : State)
      → held s.log ≡ fds
      → Leaves (Opened fds) (connect_to_host os host port s)
  unfolding connect_to_host held
  connect_to_host-Leaves host port s h = elim (Bool-cases (os.finds host port)) [
    | inr lost ↦ rw (lost, connect_to_host) tt
    | inl finds ↦ elim (Option-cases (os.socket s.calls)) [
      | inl fails ↦ rw (finds, fails, connect_to_host) tt
      | inr (fd, opens) ↦ elim (Bool-cases (os.connects s.calls)) [
        | inl connects ↦ rw (finds, opens, connects, connect_to_host) (ap (λ l. fd ∷ l) h)
        | inr fails ↦ rw (finds, opens, fails, connect_to_host) tt
      ]
    ]
  ]
