-- ===== src/Rdt/Apps/Empty.antt =====
-- What receiver.cpp makes of an empty block.
use networking_projects.Base.{
  ℕ, zero, suc, ◌-◌, ◌%◌, ◌^◌, ◌<◌, ◌≡◌, ◌∙◌, refl, ap, some, List, [], ◌∷◌, ◌++◌, arith, length,
  length-append, length-drop, length-replicate, take-append, drop, map, All, true, replicate,
}
use networking_projects.Rdt.Segment.{Header, rdt_data, max_data_size}
use networking_projects.Rdt.State.{
  State, Os, Event, Action, Status, wait_data0, wait_data1, ok, done, shut,
}
use networking_projects.Rdt.Unreliable.{close}
use networking_projects.Rdt.Acks.{IsAck}
use networking_projects.Rdt.Closing.{leave, close_connection}
use networking_projects.Rdt.Receiver.{expected_seq}
use networking_projects.Rdt.Receiver.Rounds.{IsWellFormed, Passes, arrives}
use networking_projects.Rdt.Receiver.Delivery.{receive_data-delivers}
use networking_projects.Rdt.Apps.{receive_blocks, receive_file}
use networking_projects.Rdt.Apps.Streams.{receive_blocks-suc}

-- What the network may bring a receiver that waits for `q`: blocks as in a stream, and instead of the
-- close request a data segment without payload under the number that is next, with any repeated
-- or foreign segments before it, and answers that are left; with the bytes of the blocks.
pub data EmptyEnded (rest : List Event) : ℕ → List Event → List ℕ → Type 0 where
  ends_empty :
      (q : ℕ) (stale : List (Header × List ℕ)) (h : Header)
      → All (Passes q) stale
      → IsWellFormed h []
      → h.type ≡ rdt_data
      → h.sequence_number ≡ q
      → EmptyEnded rest q (map arrives stale ++ arrives (h, []) ∷ rest) []
  after_block :
      (q : ℕ) (stale : List (Header × List ℕ)) (h : Header) (b : ℕ) (bytes : List ℕ)
      (es : List Event) (written : List ℕ)
      → All (Passes q) stale
      → IsWellFormed h (b ∷ bytes)
      → h.type ≡ rdt_data
      → h.sequence_number ≡ q
      → EmptyEnded rest ((257 - q) % 2 ^ 8) es written
      → EmptyEnded rest q
          (map arrives stale ++ arrives (h, b ∷ bytes) ∷ es)
          ((b ∷ bytes) ++ written)

receive_blocks-EmptyEnded :
    (os : Os) (fuel q : ℕ) (segment : List ℕ) (rest es : List Event) (written : List ℕ) (s : State)
    → ((k : ℕ) → os.succeeds k ≡ true)
    → length es < fuel
    → expected_seq s.state ≡ some q
    → s.connected ≡ true
    → length segment ≡ max_data_size
    → EmptyEnded rest q es written
    → (s' : State) × (last : ℕ) × (a : Action) × (before : List Action) × (receive_blocks os fuel
          segment es s
        ≡ ok (written, rest) s')
      × (expected_seq s'.state ≡ some ((257 - last) % 2 ^ 8))
      × (s'.log ≡ a ∷ before)
      × IsAck last a
unfolding receive_blocks
receive_blocks-EmptyEnded os zero q segment rest es written s up h st co le str =
    absurd (omega arith)
receive_blocks-EmptyEnded os (suc fuel) q segment rest _ _ s up hf st co le
      (ends_empty _ stale h al w ty sq) =
    let (s₁, acks, a, runs, st₁, co₁, lo, ia, all, cnt) =
      receive_data-delivers os up q segment stale h [] rest s st co al w ty sq (omega arith) in
    (s₁, q, a, _, rw runs refl, st₁, lo, ia)
receive_blocks-EmptyEnded os (suc fuel) q segment rest _ _ s up hf st co le
      (after_block _ stale h b bytes es written al w ty sq str) =
    let (s₁, acks, a, runs, st₁, co₁, lo, ia, all, cnt) =
      receive_data-delivers os up q segment stale h (b ∷ bytes) es s st co al w ty sq
        (omega (arith, w.fits)) in
    let target : List ℕ = (b ∷ bytes) ++ drop (length (b ∷ bytes)) segment in
    let (s', last, a', before, rest_runs, waits, log, is_ack) =
      receive_blocks-EmptyEnded os fuel ((257 - q) % 2 ^ 8) target rest es written s₁ up
        (omega (arith, length-append {A = Event} (map arrives stale) (arrives (h, b ∷ bytes) ∷ es)))
        st₁ co₁
        (omega (
          arith,
          length-append (b ∷ bytes) (drop (length (b ∷ bytes)) segment),
          length-drop (length (b ∷ bytes)) segment,
          w.fits,
        ))
        str in
    (
      s',
      last,
      a',
      before,
      receive_blocks-suc os fuel segment _ s (length bytes) target es s₁ written rest s' runs
            rest_runs
          ∙ ap (λ l. ok (l ++ written, rest) s')
              (take-append (b ∷ bytes) (drop (length (b ∷ bytes)) segment)),
      waits,
      log,
      is_ack,
    )

leave_receiving :
    (os : Os) (st : Status) (q : ℕ) (es : List Event) (s : State)
    → expected_seq st ≡ some q
    → leave os st es s ≡ ok es s
unfolding leave
leave_receiving os wait_data0 q es s h = refl
leave_receiving os wait_data1 q es s h = refl
leave_receiving os _ q es s h = cc

-- Let every call of the system succeed, and let the receiver be connected and wait for data. Let the
-- network bring any number of non-empty blocks, each perhaps after repetitions, and then, perhaps
-- after repetitions too, a data segment without payload under the number that is next. Then the receiver
-- writes the blocks, each once and in order, and stops at the empty one: it acknowledges it and gives its
-- descriptor back at once. It still waits for data then, and has looked at nothing of what comes
-- after, which it leaves without an answer.
pub receive_file-EmptyEnded :
    (os : Os) (q : ℕ) (rest es : List Event) (written : List ℕ) (s : State)
    → ((k : ℕ) → os.succeeds k ≡ true)
    → expected_seq s.state ≡ some q
    → s.connected ≡ true
    → EmptyEnded rest q es written
    → (s' : State) × (last : ℕ) × (a : Action) × (before : List Action) × (receive_file os es s
        ≡ ok (written, rest) s')
      × (expected_seq s'.state ≡ some ((257 - last) % 2 ^ 8))
      × (s'.log ≡ shut ∷ a ∷ before)
      × IsAck last a
unfolding receive_file close_connection close
receive_file-EmptyEnded os q rest es written s up st co stream =
    let (s₁, last, a, before, runs, waits, log, is_ack) =
      receive_blocks-EmptyEnded os (suc (length es)) q (replicate max_data_size 0) rest es written s
        up (omega arith) st co (length-replicate {A = ℕ} max_data_size 0) stream in
    (
      done shut s₁,
      last,
      a,
      before,
      rw (runs, leave_receiving os s₁.state ((257 - last) % 2 ^ 8) rest s₁ waits)
          (ground (arith, up s₁.calls)),
      waits,
      ap (λ l. shut ∷ l) log,
      is_ack,
    )
