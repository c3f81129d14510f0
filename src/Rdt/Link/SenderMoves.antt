-- ===== src/Rdt/Link/SenderMoves.antt =====
-- The agreement of the two sides is kept by the steps of the sender.
use networking_projects.Base.{
  ℕ, ◌≤◌, ◌≡◌, sym, ap, subst, ◌∙◌, inl, true, false, List, [], ◌∷◌, ◌++◌, arith, ◌==◌,
  if◌then◌else◌, length,
}
use networking_projects.Base.Zones.{All-map, Zones-first}
use networking_projects.Rdt.Segment.{Header, max_data_size}
use networking_projects.Rdt.Segment.Wire.{packet}
use networking_projects.Rdt.State.{State, Os, Event, wait_send, wait_ack0, wait_ack1, ok, ◌>>◌}
use networking_projects.Rdt.Reliable.{set_state}
use networking_projects.Rdt.Sender.{ack_round, flip_sequence}
use networking_projects.Rdt.Sender.Data.{data_segment}
use networking_projects.Rdt.Link.{segment_of, idle, sends, waits, Link, Answer}
use networking_projects.Rdt.Heard.{hits}
use networking_projects.Rdt.Link.Sides.{
  Acks, AcksOther, Old, Carries, Old-Carries, AcksOther-Acks, IsHeard, ack_round_frame,
  data_segment-IsCurrent,
}
use networking_projects.Rdt.Link.Agreement.{other, Rests, Agree, Inv}
use networking_projects.Rdt.Link.Turns.{Stands-answer}

module _ (os os' : Os) (up : (k : ℕ) → os.succeeds k ≡ true)
    (up' : (k : ℕ) → os'.succeeds k ≡ true) where
  pub accepts-Inv :
      (q : ℕ) (l : Link) (payload : List ℕ) (t : State)
      → l.phase ≡ idle
      → length payload ≤ max_data_size
      → set_state (if l.sender.sequence_number == 0 then wait_ack0 else wait_ack1) l.sender
        ≡ ok tt t
      → Inv q l
      → Inv q (record l {
        sender = t;
        phase = sends (data_segment os payload l.sender).header payload;
        accepted = l.accepted ++ payload ∷ [];
      })
  accepts-Inv q l payload t ph small e i =
      let n : ℕ = l.sender.sequence_number in
      let seq : t.sequence_number ≡ n = cc in
      let (qe, olds, acks, a) = subst (λ p. Agree p n q l) ph i.agree in
      record {
        binary = omega arith;
        sender_up = cc (i.sender_up);
        receiver_up = i.receiver_up;
        expected = i.expected;
        room = i.room;
        full = i.full;
        agree =
            subst
              (λ k.
                Agree (sends (data_segment os payload l.sender).header payload) k q
                  (record l { accepted = l.accepted ++ payload ∷ [] }))
              (sym seq)
              (
                data_segment-IsCurrent os payload l.sender small,
                inl (
                  qe,
                  Zones-first (Old n) (Carries n payload) l.forward olds,
                  acks,
                  ap (λ x. x ++ payload ∷ []) a,
                ),
              );
      }

  pub answer-Inv :
      (q : ℕ) (l : Link) (h : Header) (payload : List ℕ) (e : Event) (rest : List (List ℕ))
      (t : State)
      → l.phase ≡ waits h payload
      → Answer l.backward e rest
      → ack_round os (segment_of h payload) (packet h payload) h.sequence_number e l.sender
        ≡ ok false t
      → Inv q l
      → Inv q (record l { sender = t; phase = sends h payload; backward = rest })
  answer-Inv q l h payload e rest t ph a r i =
      let n : ℕ = l.sender.sequence_number in
      let (c, stands) = subst (λ p. Agree p n q l) ph i.agree in
      let (heard, other_answer, ack) = Stands-answer n q payload l e rest a stands in
      let (seq, co, hit) =
        ack_round_frame os up (segment_of h payload) (packet h payload) h.sequence_number e l.sender
          false t i.sender_up (subst (λ k. IsHeard k e) (sym c.2) heard) r in
      record {
        binary = omega arith;
        sender_up = co;
        receiver_up = i.receiver_up;
        expected = i.expected;
        room = i.room;
        full = i.full;
        agree =
            subst (λ k. Agree (sends h payload) k q (record l { backward = rest })) (sym seq)
              (c, other_answer (ap (λ k. hits k e) (sym c.2) ∙ sym hit));
      }

  pub ack-Inv :
      (q : ℕ) (l : Link) (h : Header) (payload : List ℕ) (e : Event) (rest : List (List ℕ))
      (t u : State)
      → l.phase ≡ waits h payload
      → Answer l.backward e rest
      → ack_round os (segment_of h payload) (packet h payload) h.sequence_number e l.sender
        ≡ ok true t
      → (flip_sequence >> set_state wait_send) t ≡ ok tt u
      → Inv q l
      → Inv q (record l { sender = u; phase = idle; backward = rest })
  ack-Inv q l h payload e rest t u ph a r f i =
      let n : ℕ = l.sender.sequence_number in
      let (c, stands) = subst (λ p. Agree p n q l) ph i.agree in
      let (heard, other_answer, ack) = Stands-answer n q payload l e rest a stands in
      let (seq, co, hit) =
        ack_round_frame os up (segment_of h payload) (packet h payload) h.sequence_number e l.sender
          true t i.sender_up (subst (λ k. IsHeard k e) (sym c.2) heard) r in
      let (qe, all, owns, same) = ack (ap (λ k. hits k e) (sym c.2) ∙ sym hit) in
      let flipped : u.sequence_number ≡ other t.sequence_number = cc in
      let next : u.sequence_number ≡ other n = flipped ∙ ap other seq in
      record {
        binary = omega (arith, i.binary);
        sender_up = cc;
        receiver_up = i.receiver_up;
        expected = i.expected;
        room = i.room;
        full = i.full;
        agree =
            subst (λ k. Rests k q (record l { backward = rest })) (sym next)
              (
                qe,
                All-map (Carries n payload) (Old (other n))
                    (λ b. Old-Carries (other n) n payload b (λ s. omega (arith, i.binary)))
                    l.forward all,
                All-map (Acks n) (AcksOther (other n))
                    (λ b. AcksOther-Acks (other n) n b (λ s. omega (arith, i.binary))) rest owns,
                same,
              );
      }
