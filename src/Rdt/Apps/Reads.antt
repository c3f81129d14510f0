-- ===== src/Rdt/Apps/Reads.antt =====
-- The loop of sender.cpp over its file, turn by turn.
use networking_projects.Base.{
  ℕ, zero, suc, ◌+◌, ◌<◌, ◌≡◌, refl, ap, inl, inr, true, ◌∙◌, some, List, [], ◌∷◌, arith, length,
  length-append, ltb, take, drop, length-drop, le_of_ltb, Bool-cases,
}
use networking_projects.Rdt.State.{State, Os, Event, wait_send, Result, ok, Result-cases, bind}
use networking_projects.Rdt.Segment.{Span, max_data_size}
use networking_projects.Rdt.Reliable.{new_socket}
use networking_projects.Rdt.Sender.{send_data, connect_to_remote}
use networking_projects.Rdt.Sender.Data.{send_data-hits}
use networking_projects.Rdt.Closing.{close_connection}
use networking_projects.Rdt.Apps.{chunks, file_chunks, send_chunks, sender}
use networking_projects.Rdt.Apps.Programs.{open_file, read_block, send_stream, sender_run}

module _ (os : Os) where
  -- A block that is sent takes an answer, and leaves the sender ready for the next one.
  pub send_data-lt :
      (block : Span) (es left : List Event) (s t : State)
      → s.state ≡ wait_send
      → send_data os block es s ≡ ok left t
      → (t.state ≡ wait_send) × (length left < length es)
  send_data-lt block es left s t st runs =
      let (quiet, e, split, hit, ready, other) = send_data-hits os block es left s t st runs in
      let shorter : length es ≡ length quiet + suc (length left) =
        ap length split ∙ length-append quiet (e ∷ left) in
      (ready, omega arith)

  send_stream-ended :
      (fuel : ℕ) (es : List Event) (s : State)
      → length es < fuel
      → send_stream os fuel (record { left = []; eof = true; failed = true }) es s ≡ ok es s
  unfolding send_stream
  send_stream-ended zero es s h = absurd (omega arith)
  send_stream-ended (suc fuel) es s h = refl

  -- With more fuel than there are answers, the loop sends the blocks of a file that was opened.
  send_stream-chunks :
      (fuel reads : ℕ) (contents : List ℕ) (es : List Event) (s : State)
      → s.state ≡ wait_send
      → length es < fuel
      → length contents < reads
      → send_stream os fuel (open_file (some contents)) es s
        ≡ send_chunks os (chunks reads contents) es s
  unfolding send_stream open_file read_block chunks send_chunks
  send_stream-chunks zero reads contents es s st h room = absurd (omega arith)
  send_stream-chunks (suc fuel) zero contents es s st h room = absurd (omega arith)
  send_stream-chunks (suc fuel) (suc reads) contents es s st h room =
      elim (Bool-cases (ltb (length contents) max_data_size)) [
        | inl short ↦
            elim (Result-cases
              (send_data os (record { memory = contents; size = length contents }) es s)) [
                | inl (left, t, runs) ↦
                    let (ready, fewer) = send_data-lt _ es left s t st runs in
                    rw (short, runs, read_block, chunks)
                      (send_stream-ended fuel left t (omega arith))
                | inr (why, t, stops) ↦ rw (short, stops, read_block, chunks) refl
              ]
        | inr long ↦
            let block = take max_data_size contents in
            elim (Result-cases
              (send_data os (record { memory = block; size = length block }) es s)) [
                | inl (left, t, runs) ↦
                    let (ready, fewer) = send_data-lt _ es left s t st runs in
                    rw (long, runs, read_block, chunks)
                      (send_stream-chunks fuel reads (drop max_data_size contents) left t ready
                        (omega arith)
                        (omega (arith, length-drop max_data_size contents, le_of_ltb _ _ long)))
                | inr (why, t, stops) ↦ rw (long, stops, read_block, chunks) refl
              ]
      ]

  connect_to_remote-wait_send :
      (hostname port_num : ℕ) (es left : List Event) (s t : State)
      → connect_to_remote os hostname port_num es s ≡ ok left t
      → t.state ≡ wait_send
  unfolding connect_to_remote
  connect_to_remote-wait_send hostname port_num es left s t runs = ground arith

  -- The program that reads its file by the block is the one that sends the blocks of the file.
  pub sender_run-sender :
      (hostname port_num : ℕ) (contents : List ℕ) (es : List Event) (s : State)
      → sender_run os hostname port_num (some contents) es s
        ≡ sender os hostname port_num contents es s
  unfolding sender_run sender file_chunks
  sender_run-sender hostname port_num contents es s = elim (Result-cases (new_socket os s)) [
    | inr (why, t, stops) ↦ rw stops refl
    | inl (u, t, made) ↦ elim (Result-cases (connect_to_remote os hostname port_num es t)) [
      | inr (why, t', stops) ↦ rw (made, stops) refl
      | inl (left, t', joined) ↦
          rw (made, joined)
            (ap (λ (r : Result (List Event)). bind r (close_connection os))
              (send_stream-chunks (suc (length left)) (suc (length contents)) contents left t'
                (connect_to_remote-wait_send hostname port_num es left t t' joined) (omega arith)
                (omega arith)))
    ]
  ]
