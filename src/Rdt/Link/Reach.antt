-- ===== src/Rdt/Link/Reach.antt =====
-- The agreement of the two sides is kept by every step, and what it says of the blocks.
use networking_projects.Base.{
  ℕ, ◌≤◌, ◌≡◌, refl, sym, ap, subst, ◌∙◌, inl, inr, true, List, [], ◌∷◌, ◌++◌, append-nil, arith,
  length, All,
}
use networking_projects.Base.Zones.{lose, repeat_at}
use networking_projects.Rdt.Segment.{max_data_size, max_seg_size}
use networking_projects.Rdt.State.{Os, wait_send, wait_data0}
use networking_projects.Rdt.Receiver.{expected_seq}
use networking_projects.Rdt.Link.{
  Phase, idle, sends, waits, Link, Step, accepts, transmits, misses_ack, hears_ack, passes_over,
  delivers, loses_forward, repeats_forward, loses_backward, repeats_backward, Steps, stays,
  then_step,
}
use networking_projects.Rdt.Link.Sides.{AcksOther, Old}
use networking_projects.Rdt.Link.Agreement.{
  other, Rests, Agree, Inv, Disturbs, Disturbs-lose, Disturbs-repeat_at, Agree-forward,
  Agree-backward, Agree-transmits,
}
use networking_projects.Rdt.Link.SenderMoves.{accepts-Inv, answer-Inv, ack-Inv}
use networking_projects.Rdt.Link.ReceiverMoves.{pass-Inv, deliver-Inv}

-- The start: the handshake is done, `send_data` and `receive_data` are to be called first, and what
-- is still on its way is no data and no ACK of the first block.
pub record IsStart (l : Link) : Type 0 where
  pub ready : l.sender.state ≡ wait_send
  pub first : l.sender.sequence_number ≡ 0
  pub sender_up : l.sender.connected ≡ true
  pub receiver_up : l.receiver.connected ≡ true
  pub waiting : l.receiver.state ≡ wait_data0
  pub room : length l.segment ≡ max_data_size
  pub full : length l.received ≡ max_seg_size
  pub between : l.phase ≡ idle
  pub olds : All (Old 0) l.forward
  pub others : All (AcksOther 0) l.backward
  pub none_accepted : l.accepted ≡ []
  pub none_delivered : l.delivered ≡ []

module _ (os os' : Os) (up : (k : ℕ) → os.succeeds k ≡ true)
    (up' : (k : ℕ) → os'.succeeds k ≡ true) where
  forward-Inv :
      (q : ℕ) (l : Link) (f : List (List ℕ) → List (List ℕ))
      → Disturbs f
      → Inv q l
      → Inv q (record l { forward = f l.forward })
  forward-Inv q l f d i = record {
    binary = i.binary;
    sender_up = i.sender_up;
    receiver_up = i.receiver_up;
    expected = i.expected;
    room = i.room;
    full = i.full;
    agree = Agree-forward f l.phase l.sender.sequence_number q l d i.agree;
  }

  backward-Inv :
      (q : ℕ) (l : Link) (f : List (List ℕ) → List (List ℕ))
      → Disturbs f
      → Inv q l
      → Inv q (record l { backward = f l.backward })
  backward-Inv q l f d i = record {
    binary = i.binary;
    sender_up = i.sender_up;
    receiver_up = i.receiver_up;
    expected = i.expected;
    room = i.room;
    full = i.full;
    agree = Agree-backward f l.phase l.sender.sequence_number q l d i.agree;
  }

  pub Step-Inv : (q : ℕ) (l l' : Link) → Step os os' l l' → Inv q l → (q' : ℕ) × Inv q' l'
  Step-Inv q l l' (accepts _ payload t ph small e) i =
      (q, accepts-Inv os os' up up' q l payload t ph small e i)
  Step-Inv q l l' (transmits _ h payload ph) i = (
    q,
    record {
      binary = i.binary;
      sender_up = i.sender_up;
      receiver_up = i.receiver_up;
      expected = i.expected;
      room = i.room;
      full = i.full;
      agree =
          Agree-transmits h payload l.sender.sequence_number q l
            (subst (λ p. Agree p l.sender.sequence_number q l) ph i.agree);
    },
  )
  Step-Inv q l l' (misses_ack _ h payload e rest t ph a r) i =
      (q, answer-Inv os os' up up' q l h payload e rest t ph a r i)
  Step-Inv q l l' (hears_ack _ h payload e rest t u ph a r f) i =
      (q, ack-Inv os os' up up' q l h payload e rest t u ph a r f i)
  Step-Inv q l l' (passes_over _ q' b rest next t ex fw r) i =
      (q, pass-Inv os os' up up' q q' l b rest next t ex fw r i)
  Step-Inv q l l' (delivers _ q' b rest count filled t u ex fw r f) i =
      (other q, deliver-Inv os os' up up' q q' l b rest count filled t u ex fw r f i)
  Step-Inv q l l' (loses_forward _ j) i = (q, forward-Inv q l (lose j) (Disturbs-lose j) i)
  Step-Inv q l l' (repeats_forward _ j) i =
      (q, forward-Inv q l (repeat_at j) (Disturbs-repeat_at j) i)
  Step-Inv q l l' (loses_backward _ j) i = (q, backward-Inv q l (lose j) (Disturbs-lose j) i)
  Step-Inv q l l' (repeats_backward _ j) i =
      (q, backward-Inv q l (repeat_at j) (Disturbs-repeat_at j) i)

  pub Steps-Inv : (start l : Link) → Steps os os' start l → Inv 0 start → (q : ℕ) × Inv q l
  Steps-Inv start l stays i = (0, i)
  Steps-Inv start l' (then_step {l} steps step) i =
      let (q, before) = Steps-Inv start l steps i in Step-Inv q l l' step before

IsStart-Inv : (l : Link) → IsStart l → Inv 0 l
IsStart-Inv l s = record {
  binary = omega (arith, s.first);
  sender_up = s.sender_up;
  receiver_up = s.receiver_up;
  expected = ap expected_seq s.waiting;
  room = s.room;
  full = s.full;
  agree =
      subst (λ p. Agree p l.sender.sequence_number 0 l) (sym s.between)
        (subst (λ k. Rests k 0 l) (sym s.first)
          (refl, s.olds, s.others, s.none_accepted ∙ sym s.none_delivered));
}

-- What `Agree` says of the blocks.
Agree-blocks :
    (ph : Phase) (n q : ℕ) (l : Link)
    → Agree ph n q l
    → (left : List (List ℕ)) × (l.accepted ≡ l.delivered ++ left)
      × (length left ≤ 1)
      × (ph ≡ idle → left ≡ [])
Agree-blocks idle n q l (qe, olds, acks, a) =
    ([], a ∙ sym (append-nil l.delivered), omega arith, λ e. refl)
Agree-blocks (sends h payload) n q l (c, inl s) = (payload ∷ [], s.3, omega arith, λ e. absurd (cc))
Agree-blocks (sends h payload) n q l (c, inr s) =
    ([], s.3 ∙ sym (append-nil l.delivered), omega arith, λ e. refl)
Agree-blocks (waits h payload) n q l (c, inl s) = (payload ∷ [], s.3, omega arith, λ e. absurd (cc))
Agree-blocks (waits h payload) n q l (c, inr s) =
    ([], s.3 ∙ sym (append-nil l.delivered), omega arith, λ e. refl)

-- Let every call of the two systems succeed, and let the handshake be done, with no data and no ACK of
-- the first number on its way and nothing sent yet. After any steps of the two sides from there, and
-- any losses and repetitions of datagrams, the blocks that `receive_data` has returned
-- are the blocks that `send_data` was given, in their order and each once, but for at most the last;
-- and all of them while the sender is between two calls of `send_data`.
pub Steps-in_order :
    (os os' : Os) (start l : Link)
    → ((k : ℕ) → os.succeeds k ≡ true)
    → ((k : ℕ) → os'.succeeds k ≡ true)
    → IsStart start
    → Steps os os' start l
    → (left : List (List ℕ)) × (l.accepted ≡ l.delivered ++ left)
      × (length left ≤ 1)
      × (l.phase ≡ idle → left ≡ [])
Steps-in_order os os' start l up up' s steps =
    let (q, i) = Steps-Inv os os' up up' start l steps (IsStart-Inv start s) in
    Agree-blocks l.phase l.sender.sequence_number q l i.agree
