-- ===== src/Rdt/Sender/Acked.antt =====
-- The loop of `send_until_acked` in ReliableSocket.cpp against the answers that it gets.
use networking_projects.Base.{replicate-append}
use networking_projects.Base.{
  ℕ, suc, ◌+◌, ◌-◌, ◌%◌, ◌^◌, ◌≡◌, refl, ◌∙◌, ap, Bool, true, false, List, [], ◌∷◌, ◌++◌, arith,
  ◌==◌, if◌then◌else◌, length, replicate, All, Bool-cases, inl, inr,
}
use networking_projects.Rdt.Clock.{timeval_to_msec, msec_to_timeval}
use networking_projects.Rdt.Reliable.Rtt.{update_rtt_frame}
use networking_projects.Rdt.Segment.{Segment, get_type, rdt_data}
use networking_projects.Rdt.State.{
  State, Os, Event, datagram, again, broken, Action, sent, timeout_set, ok, halt, blocked,
  bind-eq-ok,
}
use networking_projects.Rdt.Unreliable.{send, receive, connect_back, set_timeout_length}
use networking_projects.Rdt.Reliable.{parse, current_msec, announce, update_rtt}
use networking_projects.Rdt.Heard.{
  hits, misses, announce_lem, misses-heard, hits-heard, receive-heard, parse-heard,
}
use networking_projects.Rdt.Sender.{ack_round, ack_loop}

module _ (os : Os) (up : (k : ℕ) → os.succeeds k ≡ true) (segment : Segment) (buffer : List ℕ)
    (n : ℕ) where
  -- A round that does not hear the expected ACK has sent the segment once.
  pub ack_round_miss :
      (e : Event) (s : State)
      → s.connected ≡ true
      → misses n e ≡ true
      → (s' : State) × (ack_round os segment buffer n e s ≡ ok false s')
        × (s'.self ≡ s.self)
        × (s'.log ≡ sent buffer ∷ s.log)
  unfolding ack_round current_msec send
  ack_round_miss again s c m = (
    record s { calls = suc (suc s.calls); log = sent buffer ∷ s.log },
    unfold receive in ground (arith, up (suc s.calls)),
    refl,
    refl,
  )
  ack_round_miss broken s c m = cc
  ack_round_miss (datagram bytes) s c m =
      let (seg, h, known, other) = misses-heard n bytes m in
      (
        record s { calls = suc (suc (suc s.calls)); log = sent buffer ∷ s.log },
        ground (
          arith,
          up (suc s.calls),
          receive-heard os bytes seg h
              (record s { calls = suc (suc s.calls); log = sent buffer ∷ s.log }) c,
          parse-heard os bytes seg h
              (record s { calls = suc (suc (suc s.calls)); log = sent buffer ∷ s.log }),
          announce_lem seg
              (record s { calls = suc (suc (suc s.calls)); log = sent buffer ∷ s.log }),
        ),
        refl,
        refl,
      )

  -- What a finished loop adds above the last transmission: for data, the new timeout.
  abbrev pub retimed : State → List Action
  retimed s =
      if get_type segment == rdt_data
      then timeout_set (msec_to_timeval s.timeout_length) ∷ []
      else []

  -- The expected ACK ends the loop, after one transmission.
  pub ack_round_hit :
      (e : Event) (s : State)
      → s.connected ≡ true
      → hits n e ≡ true
      → (s' : State) × (ack_round os segment buffer n e s ≡ ok true s')
        × (s'.state ≡ s.state)
        × (s'.sequence_number ≡ s.sequence_number)
        × (s'.connected ≡ true)
        × (s'.log ≡ retimed s' ++ sent buffer ∷ s.log)
  unfolding ack_round current_msec send
  ack_round_hit again s c m = cc
  ack_round_hit broken s c m = cc
  ack_round_hit (datagram bytes) s c m =
      let (seg, h, known, same) = hits-heard n bytes m in
      let s₂ : State = record s { calls = suc (suc s.calls); log = sent buffer ∷ s.log } in
      let s₃ : State = record s₂ { calls = suc (suc (suc s.calls)) } in
      let sample : ℕ =
        (timeval_to_msec (os.clock s₂.calls) + 2 ^ 32 - timeval_to_msec (os.clock s.calls))
        % 2 ^ 32 in
      let (s', runs, st, sq, co, ti, lo) = update_rtt_frame os sample s₃ (up s₃.calls) in
      elim (Bool-cases (get_type segment == rdt_data)) [
        | inl isdata ↦ (
          s',
          ground (
            arith,
            up (suc s.calls),
            receive-heard os bytes seg h s₂ c,
            parse-heard os bytes seg h s₃,
            announce_lem seg s₃,
          ),
          st,
          sq,
          co ∙ c,
          ground arith,
        )
        | inr other ↦ (
          s₃,
          ground (
            arith,
            up (suc s.calls),
            receive-heard os bytes seg h s₂ c,
            parse-heard os bytes seg h s₃,
            announce_lem seg s₃,
          ),
          refl,
          refl,
          c,
          ground arith,
        )
      ]

  -- The loop ends on the first expected ACK. It has sent the segment once before each answer.
  pub ack_loop-returns :
      (quiet : List Event) (e : Event) (rest : List Event) (s : State)
      → s.connected ≡ true
      → All (λ x. misses n x ≡ true) quiet
      → hits n e ≡ true
      → (s' : State) × (ack_loop os segment buffer n (quiet ++ e ∷ rest) s ≡ ok rest s')
        × (s'.state ≡ s.state)
        × (s'.sequence_number ≡ s.sequence_number)
        × (s'.connected ≡ true)
        × (s'.log ≡ retimed s' ++ (replicate (suc (length quiet)) (sent buffer) ++ s.log))
  unfolding ack_loop
  ack_loop-returns [] e rest s c m h =
      let (s', runs, st, sq, co, lo) = ack_round_hit e s c h in
      (s', rw (runs, ack_loop), st, sq, co, lo)
  ack_loop-returns (x ∷ quiet) e rest s c m h =
      let (s₁, missed, same, lo) = ack_round_miss x s c m.0 in
      let (s', runs, st, sq, co, lo') =
        ack_loop-returns quiet e rest s₁ (ap (λ r. r.connected) same ∙ c) m.1 h in
      (
        s',
        rw missed runs,
        st ∙ ap (λ r. r.state) same,
        sq ∙ ap (λ r. r.sequence_number) same,
        co,
        lo'
            ∙ ap (λ l. retimed s' ++ (replicate (suc (length quiet)) (sent buffer) ++ l)) lo
            ∙ ap (λ l. retimed s' ++ l) (replicate-append (suc (length quiet)) (sent buffer) s.log),
      )

  -- With no expected ACK the loop never ends: it sends the segment again before each wait.
  pub ack_loop_waits :
      (es : List Event) (s : State)
      → s.connected ≡ true
      → All (λ x. misses n x ≡ true) es
      → (s' : State) × (ack_loop os segment buffer n es s ≡ halt blocked s')
        × (s'.self ≡ s.self)
        × (s'.log ≡ replicate (suc (length es)) (sent buffer) ++ s.log)
  unfolding ack_loop
  ack_loop_waits [] s c m = (
    record s { calls = suc (suc s.calls); log = sent buffer ∷ s.log },
    unfold send current_msec in ground (arith, up (suc s.calls)),
    refl,
    refl,
  )
  ack_loop_waits (x ∷ es) s c m =
      let (s₁, missed, same, lo) = ack_round_miss x s c m.0 in
      let (s', runs, same', lo') = ack_loop_waits es s₁ (ap (λ r. r.connected) same ∙ c) m.1 in
      (
        s',
        rw missed runs,
        same' ∙ same,
        lo'
            ∙ ap (λ l. replicate (suc (length es)) (sent buffer) ++ l) lo
            ∙ replicate-append (suc (length es)) (sent buffer) s.log,
      )

module _ (os : Os) (segment : Segment) (buffer : List ℕ) (n : ℕ) where
  -- Only the expected ACK ends the loop.
  ack_round-hits :
      (e : Event) (s s' : State) → ack_round os segment buffer n e s ≡ ok true s' → hits n e ≡ true
  unfolding ack_round receive parse
  ack_round-hits again s s' r = ground arith
  ack_round-hits broken s s' r = ground arith
  ack_round-hits (datagram bytes) s s' r = ground arith

  ack_round-sequence_number :
      (e : Event) (s s' : State) (acked : Bool)
      → ack_round os segment buffer n e s ≡ ok acked s'
      → s'.sequence_number ≡ s.sequence_number
  unfolding ack_round receive parse connect_back announce update_rtt set_timeout_length current_msec
      send
  ack_round-sequence_number again s s' acked r = ground arith
  ack_round-sequence_number broken s s' acked r = ground arith
  ack_round-sequence_number (datagram bytes) s s' acked r = ground arith

  pub ack_loop-hits :
      (es rest : List Event) (s s' : State)
      → ack_loop os segment buffer n es s ≡ ok rest s'
      → (quiet : List Event) × (e : Event) × (es ≡ quiet ++ e ∷ rest)
        × (hits n e ≡ true)
        × (s'.sequence_number ≡ s.sequence_number)
  unfolding ack_loop
  ack_loop-hits [] rest s s' r = absurd (unfold current_msec send in ground arith)
  ack_loop-hits (e ∷ es) rest s s' r =
      let (acked, t, round, after) = bind-eq-ok (ack_round os segment buffer n e s) _ r in
      elim (Bool-cases acked) [
        | inl yes! ↦ (
          [],
          e,
          ground arith,
          ack_round-hits e s t (rw yes! at round),
          let kept : t.sequence_number ≡ s.sequence_number =
                ack_round-sequence_number e s t acked round in
              ground arith,
        )
        | inr not_yet ↦
            let (quiet, x, split, hit, kept) = ack_loop-hits es rest t s' (rw not_yet at after) in
            (
              e ∷ quiet,
              x,
              ap (λ l. e ∷ l) split,
              hit,
              kept ∙ ack_round-sequence_number e s t acked round,
            )
      ]
