-- ===== src/Rdt/TransferTests.antt =====
-- The theorems about receiving, closing and whole transfers at concrete inputs.
use networking_projects.Rdt.Samples.{
  fine, ack, fresh, at_status, plain, header, header-IsWellFormed, header-IsWellFormed_nil,
}
use networking_projects.Base.{
  ℕ, ◌-◌, ◌%◌, ◌^◌, ◌≡◌, refl, true, some, List, [], ◌∷◌, ◌++◌, map, arith, length, replicate, All,
}
use networking_projects.Base.Decimal.{codes, to_string}
use networking_projects.Rdt.Apps.Programs.{receiver_main}
use networking_projects.Rdt.Apps.Transfers.{receiver_main-Stream}
use networking_projects.Rdt.Clock.{msec_to_timeval}
use networking_projects.Rdt.Segment.{of_bytes}
use networking_projects.Rdt.State.{
  wait_data0, wait_data1, closing, closed, State, Action, shut, timeout_set, Event, datagram, again,
  ok, halt, undefined,
}
use networking_projects.Rdt.Unreliable.{overwrite}
use networking_projects.Rdt.Reliable.{blank}
use networking_projects.Rdt.Acks.{IsAck}
use networking_projects.Rdt.Receiver.{expected_seq, receive_data}
use networking_projects.Rdt.Receiver.Rounds.{arrives}
use networking_projects.Rdt.Receiver.Delivery.{receive_data-delivers}
use networking_projects.Rdt.Receiver.Overrun.{receive_data_overrun}
use networking_projects.Rdt.Closing.{close_connection}
use networking_projects.Rdt.Closing.Sides.{close_connection-receiver}
use networking_projects.Rdt.Apps.{receive_file}
use networking_projects.Rdt.Apps.Empty.{
  EmptyEnded, ends_empty, after_block, receive_file-EmptyEnded,
}
use networking_projects.Rdt.Apps.Streams.{Stream, ends, block}

receive_data-delivers_example :
    (s' : State) × (acks : List Action) × (a : Action) × (receive_data fine
        (1 ∷ 2 ∷ [])
        (map arrives ((header 0 1 1, 55 ∷ []) ∷ []) ++ arrives (header 0 0 1, 66 ∷ []) ∷ [])
        (at_status wait_data0)
      ≡ ok (1, 66 ∷ 2 ∷ [], []) s')
    × (expected_seq s'.state ≡ some 1)
    × (s'.connected ≡ true)
    × (s'.log ≡ a ∷ (acks ++ timeout_set (msec_to_timeval 0) ∷ []))
    × IsAck 0 a
    × All (IsAck 1) acks
    × (length acks ≡ 1)
receive_data-delivers_example =
    receive_data-delivers fine (λ k. refl) 0 (1 ∷ 2 ∷ []) ((header 0 1 1, 55 ∷ []) ∷ [])
      (header 0 0 1) (66 ∷ []) [] (at_status wait_data0) refl refl
      (((header-IsWellFormed 0 1 55 (omega arith), omega arith, λ e. omega arith), tt))
      (header-IsWellFormed 0 0 66 (omega arith)) refl refl (omega arith)

-- A size field of 2000.
receive_data_overrun_example :
    (s' : State) × (a : Action) × (receive_data fine
        (replicate 1394 0)
        (datagram (0 ∷ 0 ∷ 0 ∷ 7 ∷ 7 ∷ 208 ∷ []) ∷ [])
        (at_status wait_data0)
      ≡ halt undefined s')
    × (s'.state ≡ wait_data1)
    × (s'.log ≡ a ∷ timeout_set (msec_to_timeval 0) ∷ [])
    × IsAck 0 a
unfolding of_bytes overwrite blank
receive_data_overrun_example =
    receive_data_overrun fine 0 (replicate 1394 0) (0 ∷ 0 ∷ 0 ∷ 7 ∷ 7 ∷ 208 ∷ [])
      (record {
        header = record {
          sequence_number = 0;
          ack_number = 0;
          type = 0;
          padding = 7;
          payload_size = record { high = 7; low = 208 };
        };
        payload = record { memory = replicate 1394 0; size = 2000 };
      })
      [] (at_status wait_data0) (λ k. refl) refl refl refl refl refl (omega arith)

close_connection-receiver_example :
    (s' : State) × (acks : List Action) × (close_connection fine
        (plain 3 4 0 ∷ again ∷ [])
        (at_status closing)
      ≡ ok [] s')
    × (s'.state ≡ closed)
    × (s'.log ≡ shut ∷ (acks ++ timeout_set (msec_to_timeval 2000) ∷ []))
    × All (IsAck 4) acks
    × (length acks ≡ 1)
unfolding of_bytes overwrite blank
close_connection-receiver_example =
    close_connection-receiver fine (plain 3 4 0 ∷ []) [] (at_status closing) (λ k. refl) refl refl
      (refl, tt)

-- A block, the same block again, and an empty block; then a close request.
abbrev cut_transfer : List Event
cut_transfer =
    arrives (header 0 0 1, 66 ∷ [])
    ∷ arrives (header 0 0 1, 66 ∷ [])
    ∷ arrives (header 0 1 0, [])
    ∷ plain 3 4 0
    ∷ []

cut_transfer-EmptyEnded : EmptyEnded (plain 3 4 0 ∷ []) 0 cut_transfer (66 ∷ [])
cut_transfer-EmptyEnded =
    after_block 0 [] (header 0 0 1) 66 [] _ [] tt (header-IsWellFormed 0 0 66 (omega arith)) refl
      refl
      (ends_empty 1 ((header 0 0 1, 66 ∷ []) ∷ []) (header 0 1 0)
        ((header-IsWellFormed 0 0 66 (omega arith), omega arith, λ e. omega arith), tt)
        (header-IsWellFormed_nil 0 1 (omega arith)) refl refl)

receive_file-EmptyEnded_example :
    (s' : State) × (last : ℕ) × (a : Action) × (before : List Action) × (receive_file fine
        cut_transfer
        (at_status wait_data0)
      ≡ ok (66 ∷ [], plain 3 4 0 ∷ []) s')
    × (expected_seq s'.state ≡ some ((257 - last) % 2 ^ 8))
    × (s'.log ≡ shut ∷ a ∷ before)
    × IsAck last a
receive_file-EmptyEnded_example =
    receive_file-EmptyEnded fine 0 (plain 3 4 0 ∷ []) cut_transfer (66 ∷ []) (at_status wait_data0)
      (λ k. refl) refl refl cut_transfer-EmptyEnded

-- A block, the same block again, and the close request.
abbrev transfer : List Event
transfer =
    arrives (header 0 0 1, 66 ∷ [])
    ∷ arrives (header 0 0 1, 66 ∷ [])
    ∷ arrives (header 3 4 0, [])
    ∷ []

-- The same answers, and then others.
whole_transfer-Stream : (rest : List Event) → Stream rest 0 (transfer ++ rest) (66 ∷ [])
whole_transfer-Stream rest =
    block 0 [] (header 0 0 1) 66 [] _ [] tt (header-IsWellFormed 0 0 66 (omega arith)) refl refl (
      ends 1 ((header 0 0 1, 66 ∷ []) ∷ []) (header 3 4 0) []
        ((header-IsWellFormed 0 0 66 (omega arith), omega arith, λ e. omega arith), tt)
        (header-IsWellFormed_nil 3 4 (omega arith)) refl)

receiver_main-Stream_example :
    (s' : State) × (receiver_main fine
        (λ path. true)
        (to_string 7000 ∷ codes "f" ∷ [])
        (ack 9 ∷ plain 2 0 0 ∷ again ∷ ack 3 ∷ (transfer ++ (plain 3 4 0 ∷ again ∷ [])))
        fresh
      ≡ ok (66 ∷ [], []) s')
    × (s'.state ≡ closed)
unfolding of_bytes overwrite blank
receiver_main-Stream_example =
    receiver_main-Stream fine (λ path. true) (codes "f") 7000 (ack 9 ∷ []) (plain 2 0 0)
      (again ∷ []) (ack 3) (transfer ++ (plain 3 4 0 ∷ again ∷ [])) (plain 3 4 0 ∷ []) [] (66 ∷ [])
      fresh (λ k. refl) (omega arith) refl (refl, tt) refl (refl, tt) refl
      (whole_transfer-Stream (plain 3 4 0 ∷ again ∷ [])) (refl, tt)
