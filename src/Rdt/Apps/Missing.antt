-- ===== src/Rdt/Apps/Missing.antt =====
-- The sender of a file that cannot be opened.
use networking_projects.Base.{
  ℕ, zero, suc, ◌+◌, ◌%◌, ◌^◌, ◌≤◌, ◌<◌, ◌≡◌, ◌∙◌, refl, ap, subst, inl, inr, true, All, Option,
  none, List, [], ◌∷◌, ◌++◌, ltb_of_lt, arith, if◌then◌else◌, ◌==◌, ◌≢◌, length, replicate,
}
use networking_projects.Base.Decimal.{to_string}
use networking_projects.Base.Text.{Parsed, parsed, invalid_argument, out_of_range, stoi}
use networking_projects.Base.Text.Numbers.{stoi-to_string}
use networking_projects.Rdt.State.{
  State, Os, Event, Action, wait_send, wait_ack0, wait_ack1, sent, Result, ok, halt, blocked,
  bind-eq-ok, Result-cases, bind,
}
use networking_projects.Rdt.Acks.{ack_bytes}
use networking_projects.Rdt.Heard.{hits, overlooks, announce_lem}
use networking_projects.Rdt.Segment.{Header, rdt_data, max_data_size, payload_segment}
use networking_projects.Rdt.Segment.Wire.{whole, packet}
use networking_projects.Rdt.Closing.{close_connection}
use networking_projects.Rdt.Reliable.{new_socket}
use networking_projects.Rdt.Sender.{send_data, send_until_acked, connect_to_remote}
use networking_projects.Rdt.Sender.Acked.{ack_loop_waits}
use networking_projects.Rdt.Sender.Connect.{connect_to_remote-establishes}
use networking_projects.Rdt.Sender.Data.{data_segment, to_buffer_lem}
use networking_projects.Rdt.Apps.{send_chunks}
use networking_projects.Rdt.Apps.Reads.{send_data-lt}
use networking_projects.Rdt.Apps.Sending.{Answered, Sends, send_chunks-Sends, new_socket-ok}
use networking_projects.Rdt.Apps.Programs.{
  open_file, read_block, send_stream, sender_run, sender_main, sender_arguments, with_port,
}

module _ (os : Os) where
  -- More fuel than there are answers makes no difference.
  send_stream_fuel :
      (fuel fuel' : ℕ) (es : List Event) (s : State)
      → s.state ≡ wait_send
      → length es < fuel
      → length es < fuel'
      → send_stream os fuel (open_file none) es s ≡ send_stream os fuel' (open_file none) es s
  unfolding send_stream open_file read_block
  send_stream_fuel zero fuel' es s st h h' = absurd (omega arith)
  send_stream_fuel (suc fuel) zero es s st h h' = absurd (omega arith)
  send_stream_fuel (suc fuel) (suc fuel') es s st h h' =
      elim (Result-cases (send_data os (record { memory = []; size = 0 }) es s)) [
        | inl (left, t, runs) ↦
            let (ready, fewer) = send_data-lt os _ es left s t st runs in
            rw runs (send_stream_fuel fuel fuel' left t ready (omega arith) (omega arith))
        | inr (why, t, stops) ↦ rw stops refl
      ]

  -- No turn ends the loop.
  send_stream_endless :
      (fuel : ℕ) (es rest : List Event) (s t : State)
      → send_stream os fuel (open_file none) es s ≢ ok rest t
  unfolding send_stream open_file read_block
  send_stream_endless zero es rest s t e = cc
  send_stream_endless (suc fuel) es rest s t e =
      let (left, u, sends, more) =
        bind-eq-ok (send_data os (record { memory = []; size = 0 }) es s) _ e in
      send_stream_endless fuel left rest u t more

  -- The empty blocks that are acknowledged are turns of the loop.
  send_stream-send_chunks :
      (k fuel turns : ℕ) (es rest : List Event) (s t : State)
      → turns ≡ k + fuel
      → send_chunks os (replicate k []) es s ≡ ok rest t
      → send_stream os turns (open_file none) es s ≡ send_stream os fuel (open_file none) rest t
  unfolding send_stream open_file read_block send_chunks
  send_stream-send_chunks zero fuel turns es rest s t e runs =
      ap (λ m. send_stream os m (open_file none) es s)
        (let same : turns ≡ fuel = omega arith in same)
      ∙ ap (λ (r : Result (List Event)). bind r (λ left. send_stream os fuel (open_file none) left))
          runs
  send_stream-send_chunks (suc k) fuel zero es rest s t e runs = absurd (omega arith)
  send_stream-send_chunks (suc k) fuel (suc turns) es rest s t e runs =
      let (left, u, sends, more) =
        bind-eq-ok (send_data os (record { memory = []; size = 0 }) es s)
          (send_chunks os (replicate k [])) runs in
      rw sends (send_stream-send_chunks k fuel turns left rest u t (omega arith) more)

  -- After the acknowledged blocks the loop sends one more, to which nothing is answered.
  send_stream-blocked :
      (k : ℕ) (es : List Event) (s t t' : State)
      → s.state ≡ wait_send
      → send_chunks os (replicate k []) es s ≡ ok [] t
      → send_data os (whole []) [] t ≡ halt blocked t'
      → send_stream os (suc (length es)) (open_file none) es s ≡ halt blocked t'
  unfolding send_stream open_file read_block
  send_stream-blocked k es s t t' st runs waits =
      send_stream_fuel (suc (length es)) (k + suc (length es)) es s st (omega arith) (omega arith)
      ∙ send_stream-send_chunks k (suc (length es)) (k + suc (length es)) es [] s t refl runs
      ∙ rw waits refl

  -- A block that nothing answers is sent, and the program waits.
  send_data-blocked :
      (payload : List ℕ) (s : State)
      → ((k : ℕ) → os.succeeds k ≡ true)
      → s.state ≡ wait_send
      → s.connected ≡ true
      → length payload ≤ max_data_size
      → (s' : State) × (send_data os (whole payload) [] s ≡ halt blocked s')
        × (s'.log ≡ sent (packet (data_segment os payload s).header payload) ∷ s.log)
  unfolding send_data send_until_acked payload_segment
  send_data-blocked payload s up st co small =
      let seg = data_segment os payload s in
      let s₁ : State = record s {
        self = record s.self { state = if s.sequence_number == 0 then wait_ack0 else wait_ack1 };
      } in
      let (s₂, runs, same, lo) =
        ack_loop_waits os up seg (packet seg.header payload) s.sequence_number [] s₁ co tt in
      (s₂, ground (arith, announce_lem seg s₁, to_buffer_lem seg.header payload s₁ small, runs), lo)

small_blocks : (k : ℕ) → All (λ (c : List ℕ). length c ≤ max_data_size) (replicate k [])
small_blocks zero = tt
small_blocks (suc k) = (omega arith, small_blocks k)

sender_main_endless :
    (os : Os) (host : List ℕ → ℕ) (read_file : List ℕ → Option (List ℕ))
    (hostname port path : List ℕ) (es rest : List Event) (s t : State)
    → read_file path ≡ none
    → sender_main os host read_file (hostname ∷ port ∷ path ∷ []) es s ≢ ok rest t
unfolding sender_main sender_run sender_arguments with_port
sender_main_endless os host read_file hostname port path es rest s t missing e =
    ends (stoi port) (rw missing at e)
  where
    ends :
        (read : Parsed)
        → with_port os read (λ port_num. sender_run os (host hostname) port_num none es) s
          ≢ ok rest t
    ends (parsed z) e =
        let (u, s₁, opened, on) = bind-eq-ok (new_socket os s) _ e in
        let (connected, s₂, shook, loop) =
          bind-eq-ok (connect_to_remote os (host hostname) _ es s₁) _ on in
        let (left, s₃, turns, closes) =
          bind-eq-ok (send_stream os (suc (length connected)) (open_file none) connected s₂) _
            loop in
        send_stream_endless os (suc (length connected)) connected left s₂ s₃ turns
    ends invalid_argument e = cc
    ends out_of_range e = cc

-- Let every call of the system succeed, and let sender.cpp be given a host, a port number that an
-- `int` has room for and a file that it cannot open. Let the network answer first by any timeouts and
-- segments other than ACK 2 and then by ACK 2; and then acknowledge any number of empty blocks, as it
-- would blocks of a file, and be silent. Then the program has sent, after ACK 3, all of these blocks and
-- one more empty block, and waits for its ACK, however many of them are acknowledged; and whatever else
-- is answered in place of all this, the program does not end as it would after a file.
pub sender_main_missing :
    (os : Os) (host : List ℕ → ℕ) (read_file : List ℕ → Option (List ℕ)) (hostname path : List ℕ)
    (n k : ℕ) (quiet : List Event) (e : Event) (es : List Event) (answers after_all : List Event)
    (s t : State)
    → n < 2 ^ 31
    → read_file path ≡ none
    → ((i : ℕ) → os.succeeds i ≡ true)
    → All (λ x. overlooks 2 x ≡ true) quiet
    → hits 2 e ≡ true
    → Answered [] 0 (replicate k []) es
    → (sender_main os host read_file (hostname ∷ to_string n ∷ path ∷ []) answers s
        ≢ ok after_all t)
      × (s' : State) × (before : List Action) × (after : List Action) × (pad : ℕ) × (h : Header)
      × (sender_main os host read_file (hostname ∷ to_string n ∷ path ∷ []) (quiet ++ e ∷ es) s
          ≡ halt blocked s')
      × Sends 0 (replicate k []) (sent (ack_bytes pad 3) ∷ before) after
      × (h.type ≡ rdt_data)
      × (s'.log ≡ sent (packet h []) ∷ after)
unfolding sender_main sender_run sender_arguments with_port payload_segment
sender_main_missing os host read_file hostname path n k quiet e es answers after_all s t small
      missing up over h answered =
    let (s₁, made, st₁, sq₁, co₁) = new_socket-ok os s up in
    let (s₂, pad, pad', connects, st₂, co₂, sq₂, lo₂) =
      connect_to_remote-establishes os (host hostname) (n % 2 ^ 32) quiet e es s₁ up st₁ over h in
    let (s₃, sends, st₃, co₃, done_so) =
      send_chunks-Sends os up [] s₂ st₂ co₂ (sq₂ ∙ sq₁) (small_blocks k) answered in
    let (s₄, waits, lo₄) = send_data-blocked os [] s₃ up st₃ co₃ (omega arith) in
    (
      sender_main_endless os host read_file hostname (to_string n) path answers after_all s t
          missing,
      s₄,
      _,
      s₃.log,
      pad',
      (data_segment os [] s₃).header,
      rw (stoi-to_string n, ltb_of_lt n (2 ^ 31) small, missing, made, connects)
          (ap (λ (r : Result (List Event)). bind r (close_connection os))
            (send_stream-blocked os k es s₂ s₃ s₄ st₂ sends waits)),
      subst (λ l. Sends 0 (replicate k []) l s₃.log) lo₂ done_so,
      refl,
      lo₄,
    )
