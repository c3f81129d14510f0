-- ===== src/Rdt/Receiver/Confirm.antt =====
-- The wait for ACK 3 in `accept_connection` of ReliableSocket.cpp.
use networking_projects.Base.{
  ℕ, suc, ◌≡◌, refl, ◌∙◌, ap, sym, Bool, true, false, not, some, none, List, [], ◌∷◌, ◌++◌, arith,
  length, ◌==◌, if◌then◌else◌, All, All-append, length-append, append_assoc, Bool-cases, inl, inr,
}
use networking_projects.Rdt.Segment.{get_type, rdt_conn}
use networking_projects.Rdt.State.{
  State, Os, Event, datagram, again, broken, Action, sent, ok, halt, blocked, done,
}
use networking_projects.Rdt.Unreliable.{receive}
use networking_projects.Rdt.Acks.{ack_bytes, IsAck, send_ack_lem}
use networking_projects.Rdt.Heard.{
  heard, hits, overlooks, hits-heard, overlooks-heard, receive-heard, parse-heard,
}
use networking_projects.Rdt.Receiver.{confirm_round, confirm_loop}

-- The datagram asks for a connection.
abbrev pub requests : Event → Bool
requests e = elim (heard e) [ none ↦ false | some seg ↦ get_type seg == rdt_conn ]

-- The datagram is a segment that does not.
abbrev pub ignored : Event → Bool
ignored e = elim (heard e) [ none ↦ false | some seg ↦ not (get_type seg == rdt_conn) ]

-- The answer makes the server send ACK 2 again: a timeout, or another request.
abbrev pub asks_again : Event → Bool
asks_again again = true
asks_again e = requests e

abbrev pub count_asks : List Event → ℕ
count_asks [] = 0
count_asks (e ∷ es) = if asks_again e then suc (count_asks es) else count_asks es

module _ (os : Os) (up : (k : ℕ) → os.succeeds k ≡ true) where
  -- What one round of the wait for ACK 3 does with any other answer.
  abbrev answered : Event → State → State
  answered e s = if asks_again e then done (sent (ack_bytes (os.padding s.calls) 2)) s else s

  confirm_round_quiet :
      (e : Event) (s : State)
      → s.connected ≡ true
      → overlooks 3 e ≡ true
      → confirm_round os e s ≡ ok false (answered e s)
  unfolding confirm_round
  confirm_round_quiet again s c m =
      unfold receive in ground (arith, send_ack_lem os 2 s (up s.calls) c)
  confirm_round_quiet broken s c m = cc
  confirm_round_quiet (datagram bytes) s c m =
      let (seg, h, different) = overlooks-heard 3 bytes m in
      ground (
        arith,
        receive-heard os bytes seg h s c,
        parse-heard os bytes seg h s,
        send_ack_lem os 2 s (up s.calls) c,
      )

  confirm_round_hit :
      (e : Event) (s : State)
      → s.connected ≡ true
      → hits 3 e ≡ true
      → confirm_round os e s ≡ ok true s
  unfolding confirm_round
  confirm_round_hit again s c m = cc
  confirm_round_hit broken s c m = cc
  confirm_round_hit (datagram bytes) s c m =
      let (seg, h, known, same) = hits-heard 3 bytes m in
      ground (arith, receive-heard os bytes seg h s c, parse-heard os bytes seg h s)

  -- What the wait for ACK 3 has done after answers that are not ACK 3: it has answered those that
  -- ask, each by one ACK 2.
  pub record Answered (es : List Event) (s s' : State) : Type 0 where
    pub same : s'.self ≡ s.self
    pub acks : List Action
    pub logged : s'.log ≡ acks ++ s.log
    pub all_acks : All (IsAck 2) acks
    pub counted : length acks ≡ count_asks es

  Answered-cons :
      (e : Event) (es : List Event) (s s' : State)
      → Answered es (answered e s) s'
      → Answered (e ∷ es) s s'
  Answered-cons e es s s' a = elim (Bool-cases (asks_again e)) [
    | inl asks ↦
        let x : Action = sent (ack_bytes (os.padding s.calls) 2) in
        record {
          same = a.same ∙ rw asks;
          acks = a.acks ++ x ∷ [];
          logged = a.logged ∙ rw asks (sym (append_assoc a.acks (x ∷ []) s.log));
          all_acks =
              All-append (IsAck 2) a.acks (x ∷ []) a.all_acks ((os.padding s.calls, refl), tt);
          counted = rw asks (omega (arith, length-append a.acks (x ∷ []), a.counted));
        }
    | inr ignores ↦ record {
      same = a.same ∙ rw ignores;
      acks = a.acks;
      logged = a.logged ∙ rw ignores;
      all_acks = a.all_acks;
      counted = rw ignores a.counted;
    }
  ]

  answered-self : (e : Event) (s : State) → (answered e s).self ≡ s.self
  answered-self e s = elim (Bool-cases (asks_again e)) [ inl h ↦ rw h | inr h ↦ rw h ]

  pub confirm_loop-returns :
      (quiet : List Event) (e : Event) (rest : List Event) (s : State)
      → s.connected ≡ true
      → All (λ x. overlooks 3 x ≡ true) quiet
      → hits 3 e ≡ true
      → (s' : State) × (confirm_loop os (quiet ++ e ∷ rest) s ≡ ok rest s') × Answered quiet s s'
  unfolding confirm_loop
  confirm_loop-returns [] e rest s c m h = (
    s,
    rw (confirm_round_hit e s c h),
    record { same = refl; acks = []; logged = refl; all_acks = tt; counted = refl },
  )
  confirm_loop-returns (x ∷ quiet) e rest s c m h =
      let (s', runs, a) =
        confirm_loop-returns quiet e rest (answered x s)
          (ap (λ r. r.connected) (answered-self x s) ∙ c) m.1 h in
      (s', rw (confirm_round_quiet x s c m.0) runs, Answered-cons x quiet s s' a)

  pub confirm_loop_waits :
      (es : List Event) (s : State)
      → s.connected ≡ true
      → All (λ x. overlooks 3 x ≡ true) es
      → (s' : State) × (confirm_loop os es s ≡ halt blocked s') × Answered es s s'
  unfolding confirm_loop
  confirm_loop_waits [] s c m =
      (s, refl, record { same = refl; acks = []; logged = refl; all_acks = tt; counted = refl })
  confirm_loop_waits (x ∷ es) s c m =
      let (s', runs, a) =
        confirm_loop_waits es (answered x s) (ap (λ r. r.connected) (answered-self x s) ∙ c) m.1 in
      (s', rw (confirm_round_quiet x s c m.0) runs, Answered-cons x es s s' a)
