-- ===== src/Rdt/Link/Agreement.antt =====
-- What the two sides of a link agree on, whatever the channels lose or repeat.
use networking_projects.Base.{
  ℕ, ◌-◌, ◌%◌, ◌^◌, ◌<◌, ◌≡◌, refl, ◌⊎◌, inl, inr, true, some, List, [], ◌∷◌, ◌++◌, length, All,
  All-append,
}
use networking_projects.Base.Zones.{
  lose, repeat_at, All-lose, All-repeat_at, Zones, Zones-append, Zones-lose, Zones-repeat_at,
}
use networking_projects.Rdt.Segment.{Header, max_data_size, max_seg_size}
use networking_projects.Rdt.Segment.Wire.{packet}
use networking_projects.Rdt.State.{State}
use networking_projects.Rdt.Receiver.{expected_seq}
use networking_projects.Rdt.Link.{Phase, idle, sends, waits, Link}
use networking_projects.Rdt.Link.Sides.{Acks, AcksOther, Old, IsCurrent, Carries}

-- The other sequence number.
abbrev pub other : ℕ → ℕ
other n = (257 - n) % 2 ^ 8

-- The receiver still waits for the block of the sender: in front of it come old datagrams only, and no ACK of it
-- is on its way.
abbrev pub Behind : ℕ → List ℕ → ℕ → Link → Type 0
Behind n payload q l =
    (q ≡ n)
    × Zones (Old n) (Carries n payload) l.forward
    × All (AcksOther n) l.backward
    × (l.accepted ≡ l.delivered ++ payload ∷ [])

-- The receiver has returned the block: all on its way to it is that block again, and its ACKs are
-- the last on their way back.
abbrev pub Level : ℕ → List ℕ → ℕ → Link → Type 0
Level n payload q l =
    (q ≡ other n)
    × All (Carries n payload) l.forward
    × Zones (AcksOther n) (Acks n) l.backward
    × (l.accepted ≡ l.delivered)

-- Between two calls of `send_data` nothing new is on its way.
abbrev pub Rests : ℕ → ℕ → Link → Type 0
Rests n q l =
    (q ≡ n) × All (Old n) l.forward × All (AcksOther n) l.backward × (l.accepted ≡ l.delivered)

-- The sender's block: behind, or level.
abbrev pub Stands : ℕ → List ℕ → ℕ → Link → Type 0
Stands n payload q l = Behind n payload q l ⊎ Level n payload q l

abbrev pub Agree : Phase → ℕ → ℕ → Link → Type 0
Agree idle n q l = Rests n q l
Agree (sends h payload) n q l = IsCurrent n payload h × Stands n payload q l
Agree (waits h payload) n q l = IsCurrent n payload h × Stands n payload q l

-- `q` is the number that the receiver waits for.
pub record Inv (q : ℕ) (l : Link) : Type 0 where
  pub binary : l.sender.sequence_number < 2
  pub sender_up : l.sender.connected ≡ true
  pub receiver_up : l.receiver.connected ≡ true
  pub expected : expected_seq l.receiver.state ≡ some q
  pub room : length l.segment ≡ max_data_size
  pub full : length l.received ≡ max_seg_size
  pub agree : Agree l.phase l.sender.sequence_number q l

-- A change to a channel that takes datagrams away, or repeats them in place.
abbrev pub Disturbs : (List (List ℕ) → List (List ℕ)) → Type 1
Disturbs f =
    ((P : List ℕ → Type 0) (xs : List (List ℕ)) → All P xs → All P (f xs))
    × ((P Q : List ℕ → Type 0) (xs : List (List ℕ)) → Zones P Q xs → Zones P Q (f xs))

pub Disturbs-lose : (i : ℕ) → Disturbs (lose i)
Disturbs-lose i = (λ P. All-lose P i, λ P Q. Zones-lose P Q i)

pub Disturbs-repeat_at : (i : ℕ) → Disturbs (repeat_at i)
Disturbs-repeat_at i = (λ P. All-repeat_at P i, λ P Q. Zones-repeat_at P Q i)

pub Agree-forward :
    (f : List (List ℕ) → List (List ℕ)) (ph : Phase) (n q : ℕ) (l : Link)
    → Disturbs f
    → Agree ph n q l
    → Agree ph n q (record l { forward = f l.forward })
Agree-forward f idle n q l d (e, olds, acks, a) = (e, d.0 (Old n) l.forward olds, acks, a)
Agree-forward f (sends h payload) n q l d (c, inl (e, z, acks, a)) =
    (c, inl (e, d.1 (Old n) (Carries n payload) l.forward z, acks, a))
Agree-forward f (sends h payload) n q l d (c, inr (e, all, acks, a)) =
    (c, inr (e, d.0 (Carries n payload) l.forward all, acks, a))
Agree-forward f (waits h payload) n q l d (c, inl (e, z, acks, a)) =
    (c, inl (e, d.1 (Old n) (Carries n payload) l.forward z, acks, a))
Agree-forward f (waits h payload) n q l d (c, inr (e, all, acks, a)) =
    (c, inr (e, d.0 (Carries n payload) l.forward all, acks, a))

pub Agree-backward :
    (f : List (List ℕ) → List (List ℕ)) (ph : Phase) (n q : ℕ) (l : Link)
    → Disturbs f
    → Agree ph n q l
    → Agree ph n q (record l { backward = f l.backward })
Agree-backward f idle n q l d (e, olds, acks, a) = (e, olds, d.0 (AcksOther n) l.backward acks, a)
Agree-backward f (sends h payload) n q l d (c, inl (e, z, acks, a)) =
    (c, inl (e, z, d.0 (AcksOther n) l.backward acks, a))
Agree-backward f (sends h payload) n q l d (c, inr (e, all, acks, a)) =
    (c, inr (e, all, d.1 (AcksOther n) (Acks n) l.backward acks, a))
Agree-backward f (waits h payload) n q l d (c, inl (e, z, acks, a)) =
    (c, inl (e, z, d.0 (AcksOther n) l.backward acks, a))
Agree-backward f (waits h payload) n q l d (c, inr (e, all, acks, a)) =
    (c, inr (e, all, d.1 (AcksOther n) (Acks n) l.backward acks, a))

-- The segment is sent once more.
pub Agree-transmits :
    (h : Header) (payload : List ℕ) (n q : ℕ) (l : Link)
    → Agree (sends h payload) n q l
    → Agree (waits h payload) n q (record l { forward = l.forward ++ packet h payload ∷ [] })
Agree-transmits h payload n q l (c, inl (e, z, acks, a)) = (
  c,
  inl (
    e,
    Zones-append (Old n) (Carries n payload) l.forward (packet h payload ∷ []) z ((h, refl, c), tt),
    acks,
    a,
  ),
)
Agree-transmits h payload n q l (c, inr (e, all, acks, a)) = (
  c,
  inr (
    e,
    All-append (Carries n payload) l.forward (packet h payload ∷ []) all ((h, refl, c), tt),
    acks,
    a,
  ),
)

-- The agreement is about the channels and the blocks only.
pub Agree-elsewhere :
    (ph : Phase) (n q : ℕ) (l : Link) (receiver : State) (segment received : List ℕ)
    → Agree ph n q l
    → Agree ph n q (record l { receiver = receiver; segment = segment; received = received })
Agree-elsewhere idle n q l receiver segment received a = a
Agree-elsewhere (sends h payload) n q l receiver segment received a = a
Agree-elsewhere (waits h payload) n q l receiver segment received a = a
