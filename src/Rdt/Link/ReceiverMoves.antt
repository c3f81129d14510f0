-- ===== src/Rdt/Link/ReceiverMoves.antt =====
-- The agreement of the two sides is kept by the steps of the receiver.
use networking_projects.Base.{
  ℕ, ◌≡◌, sym, ap, subst, ◌∙◌, inl, inr, true, some, List, [], ◌∷◌, ◌++◌, arith, length,
  length-append, length-drop, length-replicate, take, take-append, drop,
}
use networking_projects.Rdt.Segment.{max_seg_size}
use networking_projects.Rdt.State.{State, Os, datagram, ok}
use networking_projects.Rdt.Reliable.{blank}
use networking_projects.Rdt.Unreliable.{set_timeout_length}
use networking_projects.Rdt.Receiver.{expected_seq, data_round, returns, again_with}
use networking_projects.Rdt.Receiver.Rounds.{expected_seq-alternate}
use networking_projects.Rdt.Link.{Link, newly_sent}
use networking_projects.Rdt.Link.Sides.{
  data_round-Old, data_round-Carries, set_timeout_length_frame,
}
use networking_projects.Rdt.Link.Agreement.{other, Agree, Inv, Agree-elsewhere}
use networking_projects.Rdt.Link.Turns.{Agree-head, after_round, after_delivery}

module _ (os os' : Os) (up : (k : ℕ) → os.succeeds k ≡ true)
    (up' : (k : ℕ) → os'.succeeds k ≡ true) where
  pub pass-Inv :
      (q q' : ℕ) (l : Link) (b : List ℕ) (rest : List (List ℕ)) (next : List ℕ) (t : State)
      → expected_seq l.receiver.state ≡ some q'
      → l.forward ≡ b ∷ rest
      → data_round os' q' l.segment l.received (datagram b) l.receiver ≡ ok (again_with next) t
      → Inv q l
      → Inv q (record l {
        receiver = t;
        received = next;
        forward = rest;
        backward = l.backward ++ newly_sent l.receiver t;
      })
  pass-Inv q q' l b rest next t ex fw r i =
      let same_q : q' ≡ q = cc (i.expected) in
      let round =
        subst
          (λ k.
            data_round os' k l.segment l.received (datagram b) l.receiver ≡ ok (again_with next) t)
          same_q r in
      elim (Agree-head l.phase l.sender.sequence_number q l b rest i.binary fw i.agree) [
        | inl (o, keeps) ↦
            let (next', is_next, full', self, acks) =
              data_round-Old os' up' q l.segment l.received b l.receiver (again_with next) t
                i.receiver_up i.full o round in
            record {
              binary = i.binary;
              sender_up = i.sender_up;
              receiver_up = ap (λ x. x.connected) self ∙ i.receiver_up;
              expected = ap (λ x. expected_seq x.state) self ∙ i.expected;
              room = i.room;
              full = let e : next ≡ next' = cc in ap length e ∙ full';
              agree =
                  Agree-elsewhere l.phase l.sender.sequence_number q
                    (after_round rest (newly_sent l.receiver t) l) t l.segment next
                    (keeps (newly_sent l.receiver t) acks);
            }
        | inr (payload, c, keeps) ↦
            let (is_returned, st, co, acks) =
              data_round-Carries os' up' q payload l.segment l.received b l.receiver
                (again_with next) t i.receiver_up i.full i.room c round in
            absurd (cc)
      ]

  pub deliver-Inv :
      (q q' : ℕ) (l : Link) (b : List ℕ) (rest : List (List ℕ)) (count : ℕ) (filled : List ℕ)
      (t u : State)
      → expected_seq l.receiver.state ≡ some q'
      → l.forward ≡ b ∷ rest
      → data_round os' q' l.segment l.received (datagram b) l.receiver ≡ ok (returns count filled) t
      → set_timeout_length os' 0 t ≡ ok tt u
      → Inv q l
      → Inv (other q) (record l {
        receiver = u;
        segment = filled;
        received = blank;
        forward = rest;
        backward = l.backward ++ newly_sent l.receiver t;
        delivered = l.delivered ++ take count filled ∷ [];
      })
  unfolding blank
  deliver-Inv q q' l b rest count filled t u ex fw r f i =
      let same_q : q' ≡ q = cc (i.expected) in
      let round =
        subst
          (λ k.
            data_round os' k l.segment l.received (datagram b) l.receiver
            ≡ ok (returns count filled) t)
          same_q r in
      elim (Agree-head l.phase l.sender.sequence_number q l b rest i.binary fw i.agree) [
        | inl (o, keeps) ↦
            let (next', is_next, full', self, acks) =
              data_round-Old os' up' q l.segment l.received b l.receiver (returns count filled) t
                i.receiver_up i.full o round in
            absurd (cc)
        | inr (payload, c, keeps) ↦
            let (is_returned, st, co, acks) =
              data_round-Carries os' up' q payload l.segment l.received b l.receiver
                (returns count filled) t i.receiver_up i.full i.room c round in
            let counted : count ≡ length payload = cc in
            let is_filled : filled ≡ payload ++ drop (length payload) l.segment = cc in
            let block : payload ≡ take count filled =
              sym (take-append payload (drop (length payload) l.segment))
              ∙ ap (λ k. take k (payload ++ drop (length payload) l.segment)) (sym counted)
              ∙ ap (take count) (sym is_filled) in
            let (st', co') = set_timeout_length_frame os' up' 0 t u f in
            record {
              binary = i.binary;
              sender_up = i.sender_up;
              receiver_up = co' ∙ co;
              expected =
                  ap expected_seq (st' ∙ st) ∙ expected_seq-alternate l.receiver.state q i.expected;
              room =
                  ap length is_filled
                  ∙ omega (
                    arith,
                    length-append payload (drop (length payload) l.segment),
                    length-drop (length payload) l.segment,
                    c.2.0.fits,
                    i.room,
                  );
              full = length-replicate {A = ℕ} max_seg_size 0;
              agree =
                  Agree-elsewhere l.phase l.sender.sequence_number (other q)
                    (after_delivery rest (newly_sent l.receiver t) (take count filled) l) u filled
                    blank
                    (subst
                      (λ x.
                        Agree l.phase l.sender.sequence_number (other q)
                          (after_delivery rest (newly_sent l.receiver t) x l))
                      block (keeps (newly_sent l.receiver t) acks));
            }
      ]
