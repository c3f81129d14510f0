-- ===== src/Rdt/SenderTests.antt =====
-- The program sender.cpp on a file of two bytes.
use networking_projects.Rdt.Samples.{fine, ack, fresh}
use networking_projects.Base.{ℕ, ◌≡◌, ◌≢◌, arith, refl, Option, none, some, List, [], ◌∷◌}
use networking_projects.Base.Decimal.{codes, to_string}
use networking_projects.Rdt.Segment.{of_bytes, Header, rdt_data}
use networking_projects.Rdt.Segment.Wire.{packet}
use networking_projects.Rdt.State.{State, Action, sent, again, ok, halt, blocked}
use networking_projects.Rdt.Unreliable.{overwrite}
use networking_projects.Rdt.Reliable.{blank}
use networking_projects.Rdt.Acks.{ack_bytes}
use networking_projects.Rdt.Apps.Programs.{sender_main}
use networking_projects.Rdt.Apps.Missing.{sender_main_missing}
use networking_projects.Rdt.Apps.Sending.{Answered, no_more, acked, Sends}

-- One file of two bytes.
abbrev two_byte_file : List ℕ → Option (List ℕ)
two_byte_file path = some (1 ∷ 2 ∷ [])

-- A file that cannot be opened.
abbrev no_file : List ℕ → Option (List ℕ)
no_file path = none

-- Two empty blocks are acknowledged, and the third one is on its way.
two_empty-Answered : Answered [] 0 ([] ∷ [] ∷ []) (ack 0 ∷ again ∷ ack 1 ∷ [])
unfolding of_bytes overwrite blank
two_empty-Answered = acked [] (ack 0) tt refl (acked (again ∷ []) (ack 1) (refl, tt) refl no_more)

sender_main_missing_example :
    (sender_main fine
        (λ name. 1)
        no_file
        (codes "localhost" ∷ to_string 7000 ∷ codes "f" ∷ [])
        []
        fresh
      ≢ ok [] fresh)
    × (s' : State) × (before : List Action) × (after : List Action) × (pad : ℕ) × (h : Header)
    × (sender_main fine
          (λ name. 1)
          no_file
          (codes "localhost" ∷ to_string 7000 ∷ codes "f" ∷ [])
          (again ∷ ack 2 ∷ ack 0 ∷ again ∷ ack 1 ∷ [])
          fresh
        ≡ halt blocked s')
    × Sends 0 ([] ∷ [] ∷ []) (sent (ack_bytes pad 3) ∷ before) after
    × (h.type ≡ rdt_data)
    × (s'.log ≡ sent (packet h []) ∷ after)
unfolding of_bytes overwrite blank
sender_main_missing_example =
    sender_main_missing fine (λ name. 1) no_file (codes "localhost") (codes "f") 7000 2 (again ∷ [])
      (ack 2) (ack 0 ∷ again ∷ ack 1 ∷ []) [] [] fresh fresh (omega arith) refl (λ i. refl)
      (refl, tt) refl two_empty-Answered
