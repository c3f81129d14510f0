-- ===== src/Rdt/LinkTests.antt =====
-- A link on which a block is sent, lost, sent again, delivered and acknowledged.
use networking_projects.Base.Zones.{lose}
use networking_projects.Rdt.Segment.Wire.{packet}
use networking_projects.Rdt.Sender.{ack_round}
use networking_projects.Rdt.Sender.Acked.{ack_round_miss}
use networking_projects.Rdt.Unreliable.{overwrite, set_timeout_length}
use networking_projects.Rdt.Receiver.{data_round, returns}
use networking_projects.Rdt.Receiver.Rounds.{data_round-packet, handle_segment-delivers}
use networking_projects.Rdt.Link.Sides.{data_segment-IsCurrent}
use networking_projects.Base.{
  drop, ◌∙◌, false, ℕ, ◌≤◌, ◌≡◌, ◌⊎◌, refl, List, [], ◌∷◌, ◌++◌, arith, length, replicate,
  length-replicate,
}
use networking_projects.Rdt.Segment.{Header, max_data_size, payload_segment}
use networking_projects.Rdt.State.{
  wait_send, wait_ack0, wait_data0, State, datagram, again, ok, sent,
}
use networking_projects.Rdt.Reliable.{blank}
use networking_projects.Rdt.Samples.{fine, at_status}
use networking_projects.Rdt.Sender.Data.{data_segment}
use networking_projects.Rdt.Link.{
  misses_ack, delivers, timeout, segment_of, newly_sent, idle, sends, waits, Link, Step, accepts,
  transmits, Steps, stays, then_step, loses_forward,
}
use networking_projects.Rdt.Link.Reach.{IsStart, Steps-in_order}
use networking_projects.Rdt.Link.Refinement.{PipeStep, view, Steps-refine}

abbrev start : Link
start = record {
  sender = at_status wait_send;
  phase = idle;
  receiver = at_status wait_data0;
  segment = replicate max_data_size 0;
  received = blank;
  forward = [];
  backward = [];
  accepted = [];
  delivered = [];
}

start-IsStart : IsStart start
unfolding blank
start-IsStart = record {
  ready = refl;
  first = refl;
  sender_up = refl;
  receiver_up = refl;
  waiting = refl;
  room = length-replicate {A = ℕ} max_data_size 0;
  full = length-replicate {A = ℕ} 1400 0;
  between = refl;
  olds = tt;
  others = tt;
  none_accepted = refl;
  none_delivered = refl;
}

abbrev first_header : Header
first_header = (data_segment fine (7 ∷ 8 ∷ []) start.sender).header

abbrev calling : Link
calling = record start {
  sender = at_status wait_ack0;
  phase = sends first_header (7 ∷ 8 ∷ []);
  accepted = (7 ∷ 8 ∷ []) ∷ [];
}

called : Step fine fine start calling
called = accepts start (7 ∷ 8 ∷ []) (at_status wait_ack0) refl (omega arith) refl

-- The segment is sent, lost, not acknowledged in time, and sent again.
abbrev bytes : List ℕ
bytes = packet first_header (7 ∷ 8 ∷ [])

abbrev lost : Link
lost = record calling { phase = waits first_header (7 ∷ 8 ∷ []) }

lose_first : Steps fine fine start lost
unfolding lose
lose_first =
    then_step
      (then_step (then_step stays called) (transmits calling first_header (7 ∷ 8 ∷ []) refl))
      (loses_forward (record lost { forward = bytes ∷ [] }) 0)

abbrev missed :
    (t : State) × (ack_round fine (segment_of first_header (7 ∷ 8 ∷ [])) bytes 0 again lost.sender
      ≡ ok false t)
    × (t.self ≡ lost.sender.self)
    × (t.log ≡ sent bytes ∷ [])
missed =
    ack_round_miss fine (λ k. refl) (segment_of first_header (7 ∷ 8 ∷ [])) bytes 0 again lost.sender
      refl refl

abbrev sent_again : Link
sent_again = record lost { sender = missed.0; forward = bytes ∷ [] }

send_again : Steps fine fine start sent_again
unfolding payload_segment
send_again =
    then_step
      (then_step lose_first
        (misses_ack lost first_header (7 ∷ 8 ∷ []) again [] missed.0 refl timeout missed.1))
      (transmits (record sent_again { phase = sends first_header (7 ∷ 8 ∷ []); forward = [] })
        first_header (7 ∷ 8 ∷ []) refl)

-- The receiver returns the block.
abbrev filled : List ℕ
filled = (7 ∷ 8 ∷ []) ++ drop 2 start.segment

abbrev second :
    (t : State) × (data_round fine 0 start.segment blank (datagram bytes) start.receiver
      ≡ ok (returns 2 filled) t)
second =
    let whole_block = data_segment-IsCurrent fine (7 ∷ 8 ∷ []) start.sender (omega arith) in
    let got =
      handle_segment-delivers fine (λ k. refl) 0 start.segment first_header (7 ∷ 8 ∷ []) blank
        (overwrite bytes blank) start.receiver whole_block.0 refl whole_block.1 whole_block.2
        (omega arith) in
    (
      got.0,
      data_round-packet fine (λ k. refl) 0 start.segment first_header (7 ∷ 8 ∷ []) blank
            start.receiver whole_block.0 start-IsStart.full refl
          ∙ got.1,
    )

abbrev next_call_of : (s : State) → (t : State) × (set_timeout_length fine 0 s ≡ ok tt t)
unfolding set_timeout_length
next_call_of s = (_, refl)

abbrev got : Link
got = record sent_again {
  receiver = (next_call_of second.0).0;
  segment = filled;
  received = blank;
  forward = [];
  backward = newly_sent start.receiver second.0;
  delivered = (7 ∷ 8 ∷ []) ∷ [];
}

run : Steps fine fine start got
run = then_step send_again (
    delivers sent_again 0 bytes [] 2 filled second.0 (next_call_of second.0).0 refl refl second.1
      (next_call_of second.0).1)

Steps-in_order_example :
    (left : List (List ℕ)) × (got.accepted ≡ got.delivered ++ left)
    × (length left ≤ 1)
    × (got.phase ≡ idle → left ≡ [])
Steps-in_order_example =
    Steps-in_order fine fine start got (λ k. refl) (λ k. refl) start-IsStart run

Steps-refine_example : (view got ≡ view sent_again) ⊎ PipeStep (view sent_again) (view got)
Steps-refine_example =
    Steps-refine fine fine start sent_again got (λ k. refl) (λ k. refl) start-IsStart send_again
      (delivers sent_again 0 bytes [] 2 filled second.0 (next_call_of second.0).0 refl refl second.1
        (next_call_of second.0).1)
