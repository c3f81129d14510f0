-- ===== src/Rdt/Link/Sides.antt =====
-- The rounds of the two sides of a link, for the datagrams that the other side sends.
use networking_projects.Base.{
  ℕ, suc, ◌-◌, ◌%◌, ◌^◌, ◌≤◌, ◌≡◌, ◌≢◌, refl, sym, ap, subst, ◌∙◌, ◌⊎◌, inl, inr, Bool, true, false,
  not, List, [], ◌∷◌, ◌++◌, arith, ◌==◌, length, take, drop, Bool-cases, All,
}
use networking_projects.Rdt.Segment.{
  Header, Segment, of_bytes, control_segment, rdt_data, max_data_size, max_seg_size,
  payload_segment,
}
use networking_projects.Rdt.Segment.Wire.{packet, ntohs-htons}
use networking_projects.Rdt.State.{sent, State, Os, Event, datagram, again, broken, ok, done}
use networking_projects.Rdt.Unreliable.{overwrite, set_timeout_length}
use networking_projects.Rdt.Reliable.{blank}
use networking_projects.Rdt.Acks.{ack_bytes}
use networking_projects.Rdt.Heard.{hits, misses}
use networking_projects.Rdt.Sender.{ack_round}
use networking_projects.Rdt.Sender.Acked.{ack_round_miss, ack_round_hit}
use networking_projects.Rdt.Receiver.{Round, returns, again_with, data_round, alternate}
use networking_projects.Rdt.Receiver.Rounds.{
  IsWellFormed, Passes, data_round-packet, handle_segment-passes, handle_segment-delivers,
  length-overwrite,
}
use networking_projects.Rdt.Sender.Data.{data_segment}
use networking_projects.Rdt.Link.{datagrams, newly_sent}

-- An ACK is heard as such, and is the expected one exactly if it has its number.
hits-ack_bytes : (pad k n : ℕ) → hits n (datagram (ack_bytes pad k)) ≡ (k == n)
unfolding of_bytes overwrite blank control_segment
hits-ack_bytes pad k n = refl

misses-ack_bytes : (pad k n : ℕ) → misses n (datagram (ack_bytes pad k)) ≡ not (k == n)
unfolding of_bytes overwrite blank control_segment
misses-ack_bytes pad k n = refl

-- What is newly sent by a round that sent nothing, or one datagram.
newly_sent_none : (s t : State) → t.log ≡ s.log → newly_sent s t ≡ []
unfolding newly_sent
newly_sent_none s t e =
    ap (λ l. datagrams (take (length l - length s.log) l)) e
    ∙ ap (λ n. datagrams (take n s.log))
        (let z : length s.log - length s.log ≡ 0 = omega arith in z)

newly_sent_one : (s t : State) (b : List ℕ) → t.log ≡ sent b ∷ s.log → newly_sent s t ≡ b ∷ []
unfolding newly_sent
newly_sent_one s t b e =
    ap (λ l. datagrams (take (length l - length s.log) l)) e
    ∙ ap (λ n. datagrams (take n (sent b ∷ s.log)))
        (let z : suc (length s.log) - length s.log ≡ 1 = omega arith in z)

-- The datagram is an ACK of the number; or of any other.
abbrev pub Acks : ℕ → List ℕ → Type 0
Acks n b = (pad : ℕ) × (b ≡ ack_bytes pad n)

abbrev pub AcksOther : ℕ → List ℕ → Type 0
AcksOther n b = (pad : ℕ) × (k : ℕ) × (b ≡ ack_bytes pad k) × (k ≢ n)

-- The datagram is one that a receiver that waits for the number passes over; or it holds the block
-- under the number.
abbrev pub Old : ℕ → List ℕ → Type 0
Old q b = (h : Header) × (payload : List ℕ) × (b ≡ packet h payload) × Passes q (h, payload)

abbrev pub IsCurrent : ℕ → List ℕ → Header → Type 0
IsCurrent n payload h = IsWellFormed h payload × (h.type ≡ rdt_data) × (h.sequence_number ≡ n)

abbrev pub Carries : ℕ → List ℕ → List ℕ → Type 0
Carries n payload b = (h : Header) × (b ≡ packet h payload) × IsCurrent n payload h

-- A block under a number is old to a receiver that waits for another.
pub Old-Carries : (q n : ℕ) (payload b : List ℕ) → n ≢ q → Carries n payload b → Old q b
Old-Carries q n payload b ne (h, e, (w, ty, sq)) =
    (h, payload, e, (w, (λ c. ground arith), λ d. λ s. ne (sym sq ∙ s)))

pub AcksOther-Acks : (q n : ℕ) (b : List ℕ) → n ≢ q → Acks n b → AcksOther q b
AcksOther-Acks q n b ne (pad, e) = (pad, n, e, ne)

-- An answer that a round of the sender takes: the expected ACK, or one that it overlooks.
abbrev pub IsHeard : ℕ → Event → Type 0
IsHeard n e = (hits n e ≡ true) ⊎ (misses n e ≡ true)

pub IsHeard-Acks : (n k : ℕ) (b : List ℕ) → Acks k b → IsHeard n (datagram b)
IsHeard-Acks n k b (pad, e) =
    subst (λ x. IsHeard n (datagram x)) (sym e)
      (elim (Bool-cases (k == n)) [
        | inl same ↦ inl (hits-ack_bytes pad k n ∙ same)
        | inr other ↦ inr (misses-ack_bytes pad k n ∙ ap not other)
      ])

misses-hits : (n : ℕ) (e : Event) → misses n e ≡ true → hits n e ≡ false
misses-hits n again m = refl
misses-hits n broken m = refl
misses-hits n (datagram bytes) m = ground arith

-- An ACK of another number ends no round.
pub hits-AcksOther : (n : ℕ) (b : List ℕ) → AcksOther n b → hits n (datagram b) ≡ false
hits-AcksOther n b (pad, k, e, ne) =
    ap (λ x. hits n (datagram x)) e ∙ hits-ack_bytes pad k n ∙ ground (arith, ne)

module _ (os : Os) (up : (k : ℕ) → os.succeeds k ≡ true) where
  -- A round of the sender keeps its sequence number, and ends only by the expected ACK.
  pub ack_round_frame :
      (segment : Segment) (buffer : List ℕ) (n : ℕ) (e : Event) (s : State) (acked : Bool)
      (t : State)
      → s.connected ≡ true
      → IsHeard n e
      → ack_round os segment buffer n e s ≡ ok acked t
      → (t.sequence_number ≡ s.sequence_number) × (t.connected ≡ true) × (acked ≡ hits n e)
  ack_round_frame segment buffer n e s acked t co (inl hit) r =
      let (s', runs, st, sq, co', lo) = ack_round_hit os up segment buffer n e s co hit in
      let same : ok true s' ≡ ok acked t = sym runs ∙ r in (cc, cc, cc)
  ack_round_frame segment buffer n e s acked t co (inr miss) r =
      let (s', runs, self, lo) = ack_round_miss os up segment buffer n e s co miss in
      let same : ok false s' ≡ ok acked t = sym runs ∙ r in
      (cc, cc, let no_hit = misses-hits n e miss in cc)

  -- What the receiver answers to an old datagram: for data an ACK of the number it does not wait for.
  pub data_round-Old :
      (q : ℕ) (target buffer b : List ℕ) (s : State) (r : Round) (t : State)
      → s.connected ≡ true
      → length buffer ≡ max_seg_size
      → Old q b
      → data_round os q target buffer (datagram b) s ≡ ok r t
      → (next : List ℕ) × (r ≡ again_with next)
        × (length next ≡ max_seg_size)
        × (t.self ≡ s.self)
        × All (Acks ((257 - q) % 2 ^ 8)) (newly_sent s t)
  data_round-Old q target buffer b s r t co full (h, payload, e, (w, nc, nd)) runs =
      let next : List ℕ = overwrite (packet h payload) buffer in
      let round =
        data_round-packet os up q target h payload buffer s w full co
        ∙ handle_segment-passes os up q target h payload buffer next s co
            (ground (arith, nc, nd)) in
      let runs' : data_round os q target buffer (datagram (packet h payload)) s ≡ ok r t =
        subst (λ x. data_round os q target buffer (datagram x) s ≡ ok r t) e runs in
      let full' : length next ≡ max_seg_size =
        omega (arith, length-overwrite (packet h payload) buffer, w.fits) in
      elim (Bool-cases (h.type == rdt_data)) [
        | inl isdata ↦
            let a : List ℕ = ack_bytes (os.padding s.calls) ((257 - q) % 2 ^ 8) in
            let same : ok (again_with next) (done (sent a) s) ≡ ok r t =
              sym (rw isdata at round) ∙ runs' in
            let log : t.log ≡ sent a ∷ s.log = cc in
            (
              next,
              cc,
              full',
              cc,
              subst (All (Acks ((257 - q) % 2 ^ 8))) (sym (newly_sent_one s t a log))
                  ((os.padding s.calls, refl), tt),
            )
        | inr other ↦
            let same : ok (again_with next) s ≡ ok r t = sym (rw other at round) ∙ runs' in
            let log : t.log ≡ s.log = cc in
            (
              next,
              cc,
              full',
              cc,
              subst (All (Acks ((257 - q) % 2 ^ 8))) (sym (newly_sent_none s t log)) tt,
            )
      ]

  -- The block that the receiver waits for is returned as it was sent, and answered by its ACK.
  pub data_round-Carries :
      (q : ℕ) (payload target buffer b : List ℕ) (s : State) (r : Round) (t : State)
      → s.connected ≡ true
      → length buffer ≡ max_seg_size
      → length target ≡ max_data_size
      → Carries q payload b
      → data_round os q target buffer (datagram b) s ≡ ok r t
      → (r ≡ returns (length payload) (payload ++ drop (length payload) target))
        × (t.state ≡ alternate s.state)
        × (t.connected ≡ true)
        × All (Acks q) (newly_sent s t)
  data_round-Carries q payload target buffer b s r t co full room (h, e, (w, ty, sq)) runs =
      let runs' : data_round os q target buffer (datagram (packet h payload)) s ≡ ok r t =
        subst (λ x. data_round os q target buffer (datagram x) s ≡ ok r t) e runs in
      let (s', ends, st, co', lo) =
        handle_segment-delivers os up q target h payload buffer
          (overwrite (packet h payload) buffer) s w co ty sq (omega (arith, w.fits)) in
      let a : List ℕ = ack_bytes (os.padding s.calls) q in
      let same : ok (returns (length payload) (payload ++ drop (length payload) target)) s'
          ≡ ok r t =
        sym (data_round-packet os up q target h payload buffer s w full co ∙ ends) ∙ runs' in
      let log : t.log ≡ sent a ∷ s.log = cc in
      (
        cc,
        cc,
        cc,
        subst (All (Acks q)) (sym (newly_sent_one s t a log)) ((os.padding s.calls, refl), tt),
      )

  -- The next call of `receive_data` sets no timeout, and changes neither state nor remote host.
  pub set_timeout_length_frame :
      (n : ℕ) (s t : State)
      → set_timeout_length os n s ≡ ok tt t
      → (t.state ≡ s.state) × (t.connected ≡ s.connected)
  unfolding set_timeout_length
  set_timeout_length_frame n s t e = ground (arith, up s.calls)

-- The segment that `send_data` makes is a current one.
pub data_segment-IsCurrent :
    (os : Os) (payload : List ℕ) (s : State)
    → length payload ≤ max_data_size
    → IsCurrent s.sequence_number payload (data_segment os payload s).header
unfolding payload_segment
data_segment-IsCurrent os payload s small = (
  record { fits = small; sized = ntohs-htons (length payload) (omega arith); named = omega arith },
  refl,
  refl,
)
