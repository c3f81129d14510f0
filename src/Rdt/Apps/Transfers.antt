-- ===== src/Rdt/Apps/Transfers.antt =====
-- The program receiver.cpp as a whole: the handshake, the blocks, and the closing.
use networking_projects.Base.{
  ℕ, suc, ◌%◌, ◌^◌, ◌<◌, ◌≡◌, refl, ap, ◌∙◌, Bool, true, some, List, [], ◌∷◌, ◌++◌, arith, length,
  length-replicate, replicate, All,
}
use networking_projects.Base.Decimal.{to_string}
use networking_projects.Rdt.Segment.{max_data_size}
use networking_projects.Rdt.State.{State, Os, Event, again, closed, ok}
use networking_projects.Rdt.Heard.{hits, overlooks}
use networking_projects.Rdt.Receiver.{expected_seq}
use networking_projects.Rdt.Receiver.Confirm.{ignored, requests}
use networking_projects.Rdt.Receiver.Accept.{accept_connection-establishes}
use networking_projects.Rdt.Closing.Sides.{close_connection-receiver, is_segment}
use networking_projects.Rdt.Apps.{receiver, receive_file}
use networking_projects.Rdt.Apps.Sending.{new_socket-ok}
use networking_projects.Rdt.Apps.Streams.{Stream, receive_blocks-Stream}
use networking_projects.Rdt.Apps.Programs.{receiver_main}
use networking_projects.Rdt.Apps.CommandLine.{receiver_main-receiver}

-- The loop and the closing after the handshake.
receive_file-Stream :
    (os : Os) (linger rest es : List Event) (written : List ℕ) (s : State)
    → ((k : ℕ) → os.succeeds k ≡ true)
    → expected_seq s.state ≡ some 0
    → s.connected ≡ true
    → Stream (linger ++ again ∷ rest) 0 es written
    → All (λ x. is_segment x ≡ true) linger
    → (s' : State) × (receive_file os es s ≡ ok (written, rest) s') × (s'.state ≡ closed)
unfolding receive_file
receive_file-Stream os linger rest es written s up expects co stream segments =
    let (s₁, blocks, st₁, co₁) =
      receive_blocks-Stream os (suc (length es)) 0 (replicate max_data_size 0)
        (linger ++ again ∷ rest) es written s up (omega arith) expects co
        (length-replicate {A = ℕ} max_data_size 0) stream in
    let (s₂, acks, closes, st₂, log, are_acks, count) =
      close_connection-receiver os linger rest s₁ up st₁ co₁ segments in
    (s₂, rw (blocks, closes) refl, st₂)

-- Let every call of the system succeed, and let receiver.cpp be given a port number that an `int` has
-- room for and a file that it can open. Let the network bring first non-empty datagrams that ask for no
-- connection, then a request, then timeouts and segments other than ACK 3, and then ACK 3; then a stream
-- of non-empty blocks, in which each may be preceded by repetitions, followed by a close request; and at
-- last segments and then a timeout. Then the program ends, CLOSED, and has written the bytes of the
-- blocks in their order, each block once.
pub receiver_main-Stream :
    (os : Os) (opens : List ℕ → Bool) (path : List ℕ) (n : ℕ) (before : List Event) (e : Event)
    (quiet : List Event) (e' : Event) (es linger rest : List Event) (written : List ℕ) (s : State)
    → ((k : ℕ) → os.succeeds k ≡ true)
    → n < 2 ^ 31
    → opens path ≡ true
    → All (λ x. ignored x ≡ true) before
    → requests e ≡ true
    → All (λ x. overlooks 3 x ≡ true) quiet
    → hits 3 e' ≡ true
    → Stream (linger ++ again ∷ rest) 0 es written
    → All (λ x. is_segment x ≡ true) linger
    → (s' : State) × (receiver_main os opens
          (to_string n ∷ path ∷ [])
          (before ++ e ∷ (quiet ++ e' ∷ es))
          s
        ≡ ok (written, rest) s')
      × (s'.state ≡ closed)
unfolding receiver
receiver_main-Stream os opens path n before e quiet e' es linger rest written s up small opened ms h
      qs h' stream segments =
    let (s₁, made, st₁, sq₁, co₁) = new_socket-ok os s up in
    let (s₂, first, acks, accepts, st₂, co₂, log, is_first, are_acks, count) =
      accept_connection-establishes os (n % 2 ^ 32) before e quiet e' es s₁ up st₁ co₁ ms h qs h' in
    let (s₃, receives, st₃) =
      receive_file-Stream os linger rest es written s₂ up (ap expected_seq st₂) co₂ stream
        segments in
    (
      s₃,
      receiver_main-receiver os opens path n (before ++ e ∷ (quiet ++ e' ∷ es)) s small opened
          ∙ rw (made, accepts) receives,
      st₃,
    )
