-- ===== src/Rdt/Apps/Streams.antt =====
-- What receiver.cpp writes of a whole transfer.
use networking_projects.Base.{
  ℕ, zero, suc, ◌-◌, ◌%◌, ◌^◌, ◌<◌, ◌≡◌, ◌∙◌, ap, some, List, [], ◌∷◌, ◌++◌, arith, ◌==◌, length,
  length-append, length-drop, take, take-append, drop, map, All, false, true,
}
use networking_projects.Rdt.Segment.{Header, rdt_data, rdt_close, max_data_size}
use networking_projects.Rdt.State.{State, Os, Event, closing, ok, Result, bind, pure}
use networking_projects.Rdt.Receiver.{expected_seq, receive_data}
use networking_projects.Rdt.Receiver.Rounds.{IsWellFormed, Passes, arrives}
use networking_projects.Rdt.Receiver.Delivery.{receive_data-delivers, receive_data-closes}
use networking_projects.Rdt.Apps.{receive_blocks}

-- What the network may bring a receiver that waits for `q`: for each block that the sender has sent
-- any repeated or foreign segments and then the block, under alternating numbers, and at last a close
-- request and answers that are left; with the bytes of the blocks.
pub data Stream (rest : List Event) : ℕ → List Event → List ℕ → Type 0 where
  ends :
      (q : ℕ) (stale : List (Header × List ℕ)) (h : Header) (payload : List ℕ)
      → All (Passes q) stale
      → IsWellFormed h payload
      → h.type ≡ rdt_close
      → Stream rest q (map arrives stale ++ arrives (h, payload) ∷ rest) []
  block :
      (q : ℕ) (stale : List (Header × List ℕ)) (h : Header) (b : ℕ) (bytes : List ℕ)
      (es : List Event) (written : List ℕ)
      → All (Passes q) stale
      → IsWellFormed h (b ∷ bytes)
      → h.type ≡ rdt_data
      → h.sequence_number ≡ q
      → Stream rest ((257 - q) % 2 ^ 8) es written
      → Stream rest q (map arrives stale ++ arrives (h, b ∷ bytes) ∷ es) ((b ∷ bytes) ++ written)

positive : (n : ℕ) → (suc n == 0) ≡ false
positive n = ground arith

-- One turn of the loop that gets a block.
pub receive_blocks-suc :
    (os : Os) (fuel : ℕ) (segment : List ℕ) (es : List Event) (s : State) (n : ℕ) (filled : List ℕ)
    (left : List Event) (s₁ : State) (written : List ℕ) (rest : List Event) (s' : State)
    → receive_data os segment es s ≡ ok (suc n, filled, left) s₁
    → receive_blocks os fuel filled left s₁ ≡ ok (written, rest) s'
    → receive_blocks os (suc fuel) segment es s ≡ ok (take (suc n) filled ++ written, rest) s'
unfolding receive_blocks
receive_blocks-suc os fuel segment es s n filled left s₁ written rest s' got more =
    rw (got, positive n)
      (ap
        (λ (r : Result (List ℕ × List Event)).
          bind r (λ (tail : List ℕ × List Event). pure (take (suc n) filled ++ tail.0, tail.1)))
        more)

-- Let every call of the system succeed. Of a stream of non-empty blocks, in which each may be
-- preceded by repetitions and followed by a close request, receiver.cpp's loop writes each block
-- exactly once and in order, and ends in CLOSING and connected; any fuel above the number of answers
-- is enough.
pub receive_blocks-Stream :
    (os : Os) (fuel q : ℕ) (segment : List ℕ) (rest es : List Event) (written : List ℕ) (s : State)
    → ((k : ℕ) → os.succeeds k ≡ true)
    → length es < fuel
    → expected_seq s.state ≡ some q
    → s.connected ≡ true
    → length segment ≡ max_data_size
    → Stream rest q es written
    → (s' : State) × (receive_blocks os fuel segment es s ≡ ok (written, rest) s')
      × (s'.state ≡ closing)
      × (s'.connected ≡ true)
unfolding receive_blocks
receive_blocks-Stream os zero q segment rest es written s up h st co le str = absurd (omega arith)
receive_blocks-Stream os (suc fuel) q segment rest _ _ s up hf st co le
      (ends _ stale h payload al w ty) =
    let (s', acks, a, runs, st', co', lo, ia, all, cnt) =
      receive_data-closes os up q segment stale h payload rest s st co al w ty in
    (s', rw runs, st', co')
receive_blocks-Stream os (suc fuel) q segment rest _ _ s up hf st co le
      (block _ stale h b bytes es written al w ty sq str) =
    let (s₁, acks, a, runs, st₁, co₁, lo, ia, all, cnt) =
      receive_data-delivers os up q segment stale h (b ∷ bytes) es s st co al w ty sq
        (omega (arith, w.fits)) in
    let target : List ℕ = (b ∷ bytes) ++ drop (length (b ∷ bytes)) segment in
    let (s', rest_runs, closes, joined) =
      receive_blocks-Stream os fuel ((257 - q) % 2 ^ 8) target rest es written s₁ up
        (omega (arith, length-append {A = Event} (map arrives stale) (arrives (h, b ∷ bytes) ∷ es)))
        st₁ co₁
        (omega (
          arith,
          length-append (b ∷ bytes) (drop (length (b ∷ bytes)) segment),
          length-drop (length (b ∷ bytes)) segment,
          w.fits,
        ))
        str in
    (
      s',
      receive_blocks-suc os fuel segment _ s (length bytes) target es s₁ written rest s' runs
            rest_runs
          ∙ ap (λ l. ok (l ++ written, rest) s')
              (take-append (b ∷ bytes) (drop (length (b ∷ bytes)) segment)),
      closes,
      joined,
    )
