-- ===== src/Rdt/Link/Refinement.antt =====
-- What the transport promises: a pipe that holds one block at most.
use networking_projects.Base.{
  ℕ, ◌≡◌, refl, ap, ◌∙◌, ◌⊎◌, inl, inr, true, List, [], ◌∷◌, ◌++◌, append-nil, arith, length,
  length-append, nil_of_length, take,
}
use networking_projects.Rdt.State.{Os}
use networking_projects.Rdt.Link.{
  Link, Step, accepts, transmits, misses_ack, hears_ack, passes_over, delivers, loses_forward,
  repeats_forward, loses_backward, repeats_backward, Steps, then_step,
}
use networking_projects.Rdt.Link.Reach.{IsStart, Steps-in_order}

-- The blocks that were put into the pipe, and those that came out of it.
pub record Pipe : Type 0 where
  pub put : List (List ℕ)
  pub got : List (List ℕ)

-- A block is put into an empty pipe, or the block in the pipe comes out.
pub data PipeStep (p p' : Pipe) : Type 0 where
  puts : (b : List ℕ) → p.put ≡ p.got → p' ≡ record p { put = p.put ++ b ∷ [] } → PipeStep p p'
  gets :
      (b : List ℕ)
      → p.put ≡ p.got ++ b ∷ []
      → p' ≡ record p { got = p.got ++ b ∷ [] }
      → PipeStep p p'

-- What the two programs see of a link.
abbrev pub view : Link → Pipe
view l = record { put = l.accepted; got = l.delivered }

-- Let every call of the two systems succeed, and let the handshake be done, with no data and no ACK of
-- the first number on its way and nothing sent yet. Then every later step of the two sides and their channels, the losses and repetitions included, is a step of a pipe that holds one
-- block at most, or is not seen by the programs.
pub Steps-refine :
    (os os' : Os) (start l l' : Link)
    → ((k : ℕ) → os.succeeds k ≡ true)
    → ((k : ℕ) → os'.succeeds k ≡ true)
    → IsStart start
    → Steps os os' start l
    → Step os os' l l'
    → (view l' ≡ view l) ⊎ PipeStep (view l) (view l')
Steps-refine os os' start l l' up up' s steps (accepts _ payload t ph small e) =
    let (left, a, few, none_left) = Steps-in_order os os' start l up up' s steps in
    inr (puts payload (a ∙ ap (λ x. l.delivered ++ x) (none_left ph) ∙ append-nil l.delivered) refl)
Steps-refine os os' start l l' up up' s steps (transmits _ h payload ph) = inl refl
Steps-refine os os' start l l' up up' s steps (misses_ack _ h payload e rest t ph a r) = inl refl
Steps-refine os os' start l l' up up' s steps (hears_ack _ h payload e rest t u ph a r f) = inl refl
Steps-refine os os' start l l' up up' s steps (passes_over _ q b rest next t ex fw r) = inl refl
Steps-refine os os' start l l' up up' s steps (delivers _ q b rest count filled t u ex fw r f) =
    let block : List ℕ = take count filled in
    let (left, a, few, none_left) = Steps-in_order os os' start l up up' s steps in
    let (left', a', few', none_left') =
      Steps-in_order os os' start l' up up' s
        (then_step steps (delivers l q b rest count filled t u ex fw r f)) in
    let empty : left' ≡ [] = nil_of_length left' (
      omega (
        arith,
        ap length a,
        ap length a',
        length-append l.delivered left,
        length-append (l.delivered ++ block ∷ []) left',
        length-append l.delivered (block ∷ []),
      )) in
    inr (
      gets block
        (a'
          ∙ ap (λ x. (l.delivered ++ block ∷ []) ++ x) empty
          ∙ append-nil (l.delivered ++ block ∷ []))
        refl)
Steps-refine os os' start l l' up up' s steps (loses_forward _ j) = inl refl
Steps-refine os os' start l l' up up' s steps (repeats_forward _ j) = inl refl
Steps-refine os os' start l l' up up' s steps (loses_backward _ j) = inl refl
Steps-refine os os' start l l' up up' s steps (repeats_backward _ j) = inl refl
