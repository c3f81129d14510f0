-- ===== src/Jukebox/Client/Deliveries.antt =====
-- ConnectedClient::send_message and resume_sending: what the client has got when they return.
use networking_projects.Base.{
  ℕ, suc, ◌+◌, ◌-◌, ◌*◌, ◌≤◌, ◌<◌, ◌≡◌, refl, ap, sym, ◌∙◌, subst, ◌⊎◌, inl, inr, some, none, true,
  List, [], ◌∷◌, ◌++◌, arith, length, take, drop, Bool-cases, drop_all, take_all, append-nil,
}
use networking_projects.Jukebox.Protocol.{make_header, to_byte_array}
use networking_projects.Jukebox.State.{
  ChunkedDataSender, receiving, sending, ConnectedClient, modified, State, takes, full, Os, Result,
  ok, halt, exited, bind, done,
}
use networking_projects.Jukebox.Chunked.{
  Sent, count, would_block, array_sender, remaining, send_next_chunk, send_file_chunk, read,
}
use networking_projects.Jukebox.Chunked.Steps.{
  Medium, in_memory, on_disk, sender_at, blocked_at, chunk_at, called, took, send_next_chunk_full,
}
use networking_projects.Jukebox.Client.{
  watch_input, watch_output, set_sender, control_epoll, send_loop, resume_with, send_with_sender,
  send_message, respond, resume_sending,
}
use networking_projects.Jukebox.Client.Sending.{
  Sends, send_loop_lem, send_loop-stops, send_loop-halts,
}

-- The client while it waits to send the rest.
abbrev pub waiting : ChunkedDataSender → State → ConnectedClient
waiting sender s = record s.self { state = sending; sender = some sender }

-- What a call that sends some bytes comes to.
abbrev pub Delivers : Medium → List ℕ → State → Result (Unit {0}) → Type 0
Delivers m bytes s (halt h t) = h ≡ exited
Delivers m bytes s (ok u t) =
    ((t.wire ≡ s.wire ++ bytes) × (t.self ≡ s.self) × (t.log ≡ s.log))
    ⊎ ((k : ℕ) × (k < length bytes)
        × (t.wire ≡ s.wire ++ take k bytes)
        × (t.self ≡ waiting (blocked_at m bytes k) s)
        × (t.log ≡ modified s.client_fd watch_output ∷ s.log))

-- What a call that goes on sending an array from a place comes to.
abbrev pub Resumes : List ℕ → ℕ → State → Result (Unit {0}) → Type 0
Resumes bytes loc s (halt h t) = h ≡ exited
Resumes bytes loc s (ok u t) =
    ((t.wire ≡ s.wire ++ drop loc bytes) × (t.self.state ≡ s.self.state) × (t.log ≡ s.log))
    ⊎ ((k : ℕ) × (loc ≤ k)
        × (k < length bytes)
        × (t.wire ≡ s.wire ++ take (k - loc) (drop loc bytes))
        × (t.self ≡ record s.self { state = receiving; sender = none })
        × (t.log ≡ modified s.client_fd watch_input ∷ s.log))

module _ (os : Os) where
  Delivers-Sends :
      (m : Medium) (bytes : List ℕ) (s : State) (r : Result (Sent × ChunkedDataSender))
      → Sends m bytes 0 s r
      → Delivers m bytes s (
          bind r (λ last. elim last.0 [
            | count n ↦ (λ t. ok tt t)
            | would_block ↦ (λ t.
                bind
                  (set_sender sending (some last.1) t)
                  (λ _. control_epoll os (modified t.client_fd watch_output)))
          ]))
  unfolding control_epoll
  Delivers-Sends m bytes s (halt h t) e = e
  Delivers-Sends m bytes s (ok (count n, sender) t) (z, sent, same) = inl (sent, same.0, same.1)
  Delivers-Sends m bytes s (ok (would_block, sender) t) (k, low, high, kept, sent, same) =
      elim (Bool-cases (os.succeeds t.calls)) [
        | inl holds ↦ rw holds (
            inr (
              k,
              high,
              sent ∙ ap (λ d. s.wire ++ take d bytes) (let e : k - 0 ≡ k = omega arith in e),
              cc,
              cc,
            ))
        | inr fails ↦ rw fails refl
      ]

  -- Any bytes sent from memory or from a file, whatever the system answers: all of them went over
  -- the wire and nothing else changed; or a part went over it, and the client waits in the state
  -- SENDING with its sender, and is watched for output; or the program exits. The fuel suffices.
  pub send_with_sender-Delivers :
      (m : Medium) (bytes : List ℕ) (s : State)
      → Delivers m bytes s (send_with_sender os (sender_at m bytes 0) s)
  unfolding send_with_sender remaining
  send_with_sender-Delivers in_memory bytes s =
      Delivers-Sends in_memory bytes s _
        (send_loop_lem os in_memory _ bytes 0 s (omega arith) (omega arith))
  send_with_sender-Delivers on_disk bytes s =
      Delivers-Sends on_disk bytes s _
        (send_loop_lem os on_disk _ bytes 0 s (omega arith) (omega arith))

  Resumes-Sends :
      (bytes : List ℕ) (loc : ℕ) (s : State) (r : Result (Sent × ChunkedDataSender))
      → Sends in_memory bytes loc s r
      → Resumes bytes loc s (
          bind r (λ last t. bind (set_sender t.state (some last.1) t) (λ _. elim last.0 [
            | count n ↦ (λ w. ok tt w)
            | would_block ↦ (λ w.
                bind
                  (set_sender receiving none w)
                  (λ _. control_epoll os (modified w.client_fd watch_input)))
          ])))
  unfolding control_epoll
  Resumes-Sends bytes loc s (halt h t) e = e
  Resumes-Sends bytes loc s (ok (count n, sender) t) (z, sent, same) =
      inl (sent, ap (λ c. c.state) same.0, same.1)
  Resumes-Sends bytes loc s (ok (would_block, sender) t) (k, low, high, kept, sent, same) =
      elim (Bool-cases (os.succeeds t.calls)) [
        | inl holds ↦ rw holds (inr (k, low, high, sent, cc, cc))
        | inr fails ↦ rw fails refl
      ]

  -- A client that waits to send an array from a place on, whatever the system answers: the rest goes
  -- over the wire, and the client's state and the events that it is watched for stay as they are; or
  -- only a part of the rest does, and what is left is given up: the sender is dropped, the state is
  -- RECEIVING and output is no longer watched; or the program exits. The fuel suffices.
  pub resume_sending-Resumes :
      (bytes : List ℕ) (loc : ℕ) (s : State)
      → loc ≤ length bytes
      → s.sender ≡ some (sender_at in_memory bytes loc)
      → Resumes bytes loc s (resume_sending os s)
  unfolding resume_sending resume_with remaining
  resume_sending-Resumes bytes loc s h holds =
      subst (Resumes bytes loc s) (sym (ap (λ o. resume_with os o s) holds))
        (Resumes-Sends bytes loc s _ (send_loop_lem os in_memory _ bytes loc s h (omega arith)))

  -- A call that finds the socket's buffer full.
  send_message_full :
      (bytes : List ℕ) (s : State)
      → 0 < length bytes
      → os.answer s.calls ≡ full
      → os.succeeds (suc s.calls) ≡ true
      → send_message os bytes s
        ≡ ok tt (
            done
              (modified s.client_fd watch_output)
              (record (called s) { self = waiting (array_sender bytes) s }))
  unfolding send_message send_with_sender control_epoll array_sender
  send_message_full bytes s h a e =
      ap
        (λ r. bind r (λ last. elim last.0 [
          | count n ↦ (λ t. ok tt t)
          | would_block ↦ (λ t.
              bind (set_sender sending (some last.1) t)
                (λ _. control_epoll os (modified t.client_fd watch_output)))
        ]))
        (send_loop-stops os _ (array_sender bytes) _ s (called s)
          (send_next_chunk_full os in_memory bytes 0 s h a))
      ∙ ground arith

  -- When the socket's buffer is full for the header of a response, and the system then takes the
  -- change of the events to watch for, the client is left waiting with the header, of which nothing
  -- went over the wire, and the response goes on with the message from there. It is delivered as if it
  -- stood alone: the program exits, or all its bytes go over the wire with no header before them, or
  -- the first of them do, possibly none, and the client waits with the message in place of the header.
  pub respond_overtakes :
      (type : ℕ) (message : List ℕ) (s : State)
      → os.answer s.calls ≡ full
      → os.succeeds (suc s.calls) ≡ true
      → let header = to_byte_array (make_header type (length message)) in
        (w : State) × (w.wire ≡ s.wire)
        × (w.self ≡ waiting (array_sender header) s)
        × Delivers in_memory message w (respond os type message s)
  unfolding respond send_message array_sender to_byte_array
  respond_overtakes type message s a e = (
    w,
    refl,
    refl,
    subst (Delivers in_memory message w)
        (sym (
          ap (λ r. bind r (λ _. send_message os message))
            (send_message_full header s (omega arith) a e)))
        (send_with_sender-Delivers in_memory message w),
  )
    where
      header : List ℕ
      header = to_byte_array (make_header type (length message))

      w : State
      w =
          done (modified s.client_fd watch_output)
            (record (called s) { self = waiting (array_sender header) s })

  -- The chunk after one that was not taken, near the end of a file.
  send_file_chunk_exits :
      (bytes : List ℕ) (loc n : ℕ) (s : State)
      → loc < length bytes
      → length bytes ≤ loc + 2 * 4096
      → os.answer s.calls ≡ takes n
      → (t : State) × (send_next_chunk os (blocked_at on_disk bytes loc) s ≡ halt exited t)
        × (t.wire ≡ s.wire)
  unfolding send_next_chunk send_file_chunk read
  send_file_chunk_exits bytes loc n s left short a = (
    took [] s,
    ground (
      arith,
      drop_all (loc + chunk_at bytes loc + chunk_at bytes loc) bytes (omega arith),
      take_all {A = ℕ} (chunk_at bytes loc) [] (omega arith),
      take_all {A = ℕ} n [] (omega arith),
    ),
    append-nil s.wire,
  )

  resume_with-halts :
      (current : ChunkedDataSender) (s t : State)
      → send_loop os (suc (remaining current)) current s ≡ halt exited t
      → resume_with os (some current) s ≡ halt exited t
  unfolding resume_with
  resume_with-halts current s t e = ground arith

  -- When a chunk of a file was not taken with at most two chunks, 8192 bytes, left from its start,
  -- and a byte at least, and the next answer of the socket is a number of bytes that it takes, then
  -- the call that resumes the sending finds nothing left to read and ends the program, with nothing
  -- more on the wire.
  pub resume_sending_exits :
      (bytes : List ℕ) (loc n : ℕ) (s : State)
      → loc < length bytes
      → length bytes ≤ loc + 2 * 4096
      → s.sender ≡ some (blocked_at on_disk bytes loc)
      → os.answer s.calls ≡ takes n
      → (t : State) × (resume_sending os s ≡ halt exited t) × (t.wire ≡ s.wire)
  unfolding resume_sending
  resume_sending_exits bytes loc n s left short holds a =
      let died = send_file_chunk_exits bytes loc n s left short a in
      (
        died.0,
        ap (λ o. resume_with os o s) holds
            ∙ resume_with-halts (blocked_at on_disk bytes loc) s died.0
                (send_loop-halts os _ (blocked_at on_disk bytes loc) s died.0 died.1),
        died.2,
      )
