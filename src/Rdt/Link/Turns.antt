-- ===== src/Rdt/Link/Turns.antt =====
-- What an answer does to the sender's side of the agreement, and what the receiver's oldest datagram
-- is and does to it.
use networking_projects.Base.{
  ℕ, ◌<◌, ◌≡◌, ◌≢◌, refl, sym, ap, subst, ◌∙◌, ◌⊎◌, inl, inr, true, false, List, [], ◌∷◌, ◌++◌,
  arith, All, All-append,
}
use networking_projects.Base.Zones.{All-map, Zones, Zones-first, Zones-second, Zones-append}
use networking_projects.Rdt.State.{Event, datagram}
use networking_projects.Rdt.Link.{Phase, idle, sends, waits, Link, Answer, timeout, arrival}
use networking_projects.Rdt.Heard.{hits}
use networking_projects.Rdt.Link.Sides.{
  Acks, AcksOther, Old, Carries, Old-Carries, AcksOther-Acks, IsHeard, IsHeard-Acks, hits-AcksOther,
}
use networking_projects.Rdt.Link.Agreement.{other, Stands, Agree}

-- Every datagram of the channel back is an ACK.
IsHeard-AcksOther : (n k : ℕ) (b : List ℕ) → AcksOther k b → IsHeard n (datagram b)
IsHeard-AcksOther n k b (pad, j, e, ne) = IsHeard-Acks n j b (pad, e)

-- The sender takes an answer.
pub Stands-answer :
    (n q : ℕ) (payload : List ℕ) (l : Link) (e : Event) (rest : List (List ℕ))
    → Answer l.backward e rest
    → Stands n payload q l
    → IsHeard n e
      × ((hits n e ≡ false) → Stands n payload q (record l { backward = rest }))
      × ((hits n e ≡ true)
          → (q ≡ other n)
            × All (Carries n payload) l.forward
            × All (Acks n) rest
            × (l.accepted ≡ l.delivered))
Stands-answer n q payload l e rest timeout s =
    (inr refl, λ _. s, λ h. absurd (let no_hit : false ≡ true = h in cc))
Stands-answer n q payload l e rest (arrival b _ ch) (inl (qe, z, acks, a)) =
    let split : All (AcksOther n) (b ∷ rest) = subst (All (AcksOther n)) ch acks in
    (
      IsHeard-AcksOther n n b split.0,
      λ _. inl (qe, z, split.1, a),
      λ h. absurd (let no_hit : false ≡ true = sym (hits-AcksOther n b split.0) ∙ h in cc),
    )
Stands-answer n q payload l e rest (arrival b _ ch) (inr (qe, all, acks, a)) =
    after (subst (Zones (AcksOther n) (Acks n)) ch acks)
  where
    after :
        Zones (AcksOther n) (Acks n) (b ∷ rest)
        → IsHeard n (datagram b)
          × ((hits n (datagram b) ≡ false) → Stands n payload q (record l { backward = rest }))
          × ((hits n (datagram b) ≡ true)
              → (q ≡ other n)
                × All (Carries n payload) l.forward
                × All (Acks n) rest
                × (l.accepted ≡ l.delivered))
    after (inl (o, z)) = (
      IsHeard-AcksOther n n b o,
      λ _. inr (qe, all, z, a),
      λ h. absurd (let no_hit : false ≡ true = sym (hits-AcksOther n b o) ∙ h in cc),
    )
    after (inr (own, owns)) = (
      IsHeard-Acks n n b own,
      λ _. inr (qe, all, Zones-second (AcksOther n) (Acks n) rest owns, a),
      λ _. (qe, all, owns, a),
    )

-- The link after the receiver took the oldest datagram and sent some ACKs.
abbrev pub after_round : List (List ℕ) → List (List ℕ) → Link → Link
after_round rest acks l = record l { forward = rest; backward = l.backward ++ acks }

abbrev pub after_delivery : List (List ℕ) → List (List ℕ) → List ℕ → Link → Link
after_delivery rest acks payload l = record l {
  forward = rest;
  backward = l.backward ++ acks;
  delivered = l.delivered ++ payload ∷ [];
}

append-others :
    (q n : ℕ) (xs acks : List (List ℕ))
    → q ≢ n
    → All (AcksOther n) xs
    → All (Acks q) acks
    → All (AcksOther n) (xs ++ acks)
append-others q n xs acks ne h new =
    All-append (AcksOther n) xs acks h
      (All-map (Acks q) (AcksOther n) (λ x. AcksOther-Acks n q x ne) acks new)

-- What the oldest datagram on the way to the receiver is, and what becomes of the agreement.
Stands-head :
    (n q : ℕ) (payload : List ℕ) (l : Link) (b : List ℕ) (rest : List (List ℕ))
    → n < 2
    → l.forward ≡ b ∷ rest
    → Stands n payload q l
    → (Old q b
        × ((acks : List (List ℕ))
            → All (Acks (other q)) acks
            → Stands n payload q (after_round rest acks l)))
      ⊎ (Carries q payload b
          × ((acks : List (List ℕ))
              → All (Acks q) acks
              → Stands n payload (other q) (after_delivery rest acks payload l)))
Stands-head n q payload l b rest bin fw (inl (qe, z, acks, a)) =
    after (subst (Zones (Old n) (Carries n payload)) fw z)
  where
    after :
        Zones (Old n) (Carries n payload) (b ∷ rest)
        → (Old q b
            × ((acks : List (List ℕ))
                → All (Acks (other q)) acks
                → Stands n payload q (after_round rest acks l)))
          ⊎ (Carries q payload b
              × ((acks : List (List ℕ))
                  → All (Acks q) acks
                  → Stands n payload (other q) (after_delivery rest acks payload l)))
    after (inl (o, olds)) = inl (
      subst (λ k. Old k b) (sym qe) o,
      λ new hs.
          inl (qe, olds, append-others (other q) n l.backward new (λ e. omega arith) acks hs, a),
    )
    after (inr (c, cs)) = inr (
      subst (λ k. Carries k payload b) (sym qe) c,
      λ new hs. inr (
        ap other qe,
        cs,
        Zones-append (AcksOther n) (Acks n) l.backward new
            (Zones-first (AcksOther n) (Acks n) l.backward acks)
            (subst (λ k. All (Acks k) new) qe hs),
        a,
      ),
    )
Stands-head n q payload l b rest bin fw (inr (qe, all, acks, a)) =
    let split : All (Carries n payload) (b ∷ rest) = subst (All (Carries n payload)) fw all in
    let back : other q ≡ n = omega arith in
    inl (
      Old-Carries q n payload b (λ e. omega arith) split.0,
      λ new hs. inr (
        qe,
        split.1,
        Zones-append (AcksOther n) (Acks n) l.backward new acks
            (subst (λ k. All (Acks k) new) back hs),
        a,
      ),
    )

pub Agree-head :
    (ph : Phase) (n q : ℕ) (l : Link) (b : List ℕ) (rest : List (List ℕ))
    → n < 2
    → l.forward ≡ b ∷ rest
    → Agree ph n q l
    → (Old q b
        × ((acks : List (List ℕ))
            → All (Acks (other q)) acks
            → Agree ph n q (after_round rest acks l)))
      ⊎ ((payload : List ℕ) × Carries q payload b
          × ((acks : List (List ℕ))
              → All (Acks q) acks
              → Agree ph n (other q) (after_delivery rest acks payload l)))
Agree-head idle n q l b rest bin fw (qe, olds, acks, a) =
    let split : All (Old n) (b ∷ rest) = subst (All (Old n)) fw olds in
    inl (
      subst (λ k. Old k b) (sym qe) split.0,
      λ new hs.
          (qe, split.1, append-others (other q) n l.backward new (λ e. omega arith) acks hs, a),
    )
Agree-head (sends h payload) n q l b rest bin fw (c, s) =
    elim (Stands-head n q payload l b rest bin fw s) [
      | inl (o, k) ↦ inl (o, λ new hs. (c, k new hs))
      | inr (o, k) ↦ inr (payload, o, λ new hs. (c, k new hs))
    ]
Agree-head (waits h payload) n q l b rest bin fw (c, s) =
    elim (Stands-head n q payload l b rest bin fw s) [
      | inl (o, k) ↦ inl (o, λ new hs. (c, k new hs))
      | inr (o, k) ↦ inr (payload, o, λ new hs. (c, k new hs))
    ]
