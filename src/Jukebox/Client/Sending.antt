-- ===== src/Jukebox/Client/Sending.antt =====
-- The loop of ConnectedClient::send_with_sender: what goes over the wire, and what is kept when the
-- socket's buffer is full.
use networking_projects.Base.{
  ℕ, zero, suc, ◌+◌, ◌-◌, ◌≤◌, ◌<◌, ◌≡◌, refl, ap, sym, ◌∙◌, subst, ◌⊎◌, inl, inr, min, List, ◌++◌,
  append_assoc, append-nil, arith, ltb, Bool-cases, le_of_ltb, lt_of_ltb, length, take, drop,
  drop_all, take-append-take-drop, drop-drop, take-append-drop,
}
use networking_projects.Jukebox.State.{
  ChunkedDataSender, State, Answer, takes, full, broken, Os, Result, ok, halt, exited,
}
use networking_projects.Jukebox.Chunked.{Sent, count, would_block, send_next_chunk}
use networking_projects.Jukebox.Chunked.Steps.{
  Medium, in_memory, on_disk, sender_at, blocked_at, chunk_at, called, took, send_next_chunk_end,
  send_next_chunk_takes, send_next_chunk_full, send_next_chunk_zero, send_array_chunk_broken,
  send_file_chunk_broken,
}
use networking_projects.Jukebox.Client.{send_loop}

-- Nothing but the wire and the number of calls differs.
abbrev pub Same : State → State → Type 0
Same s t = (t.self ≡ s.self) × (t.log ≡ s.log)

-- What the loop comes to from a place in the bytes: all the rest is sent; or the bytes before a later
-- place are, and the sender is what an answer of -1 leaves of it; or the program exits.
abbrev pub Sends : Medium → List ℕ → ℕ → State → Result (Sent × ChunkedDataSender) → Type 0
Sends m bytes loc s (halt h t) = h ≡ exited
Sends m bytes loc s (ok (count n, sender) t) =
    (n ≡ 0) × (t.wire ≡ s.wire ++ drop loc bytes) × Same s t
Sends m bytes loc s (ok (would_block, sender) t) =
    (k : ℕ) × (loc ≤ k)
    × (k < length bytes)
    × (sender ≡ blocked_at m bytes k)
    × (t.wire ≡ s.wire ++ take (k - loc) (drop loc bytes))
    × Same s t

Answer-cases : (a : Answer) → ((n : ℕ) × (a ≡ takes n)) ⊎ ((a ≡ full) ⊎ (a ≡ broken))
Answer-cases (takes n) = inl (n, refl)
Answer-cases full = inr (inl refl)
Answer-cases broken = inr (inr refl)

-- A chunk before what the rest of the loop comes to.
Sends-took :
    (m : Medium) (bytes : List ℕ) (loc n : ℕ) (s : State) (r : Result (Sent × ChunkedDataSender))
    → Sends m bytes (loc + n) (took (take n (drop loc bytes)) s) r
    → Sends m bytes loc s r
Sends-took m bytes loc n s (halt h t) e = e
Sends-took m bytes loc n s (ok (count c, sender) t) (z, sent, same) = (
  z,
  sent
      ∙ append_assoc s.wire (take n (drop loc bytes)) (drop (loc + n) bytes)
      ∙ ap (λ l. s.wire ++ (take n (drop loc bytes) ++ l)) (sym (drop-drop loc n bytes))
      ∙ ap (λ l. s.wire ++ l) (take-append-drop n (drop loc bytes)),
  same,
)
Sends-took m bytes loc n s (ok (would_block, sender) t) (k, later, within, kept, sent, same) = (
  k,
  omega arith,
  within,
  kept,
  sent
      ∙ append_assoc s.wire (take n (drop loc bytes)) (take (k - (loc + n)) (drop (loc + n) bytes))
      ∙ ap (λ l. s.wire ++ (take n (drop loc bytes) ++ take (k - (loc + n)) l))
          (sym (drop-drop loc n bytes))
      ∙ ap (λ l. s.wire ++ l) (take-append-take-drop n (k - (loc + n)) (drop loc bytes))
      ∙ ap (λ d. s.wire ++ take d (drop loc bytes))
          (let e : n + (k - (loc + n)) ≡ k - loc = omega arith in e),
  same,
)

module _ (os : Os) where
  -- The first chunk decides.
  pub send_loop-stops :
      (fuel : ℕ) (sender : ChunkedDataSender) (next : ChunkedDataSender) (s t : State)
      → send_next_chunk os sender s ≡ ok (would_block, next) t
      → send_loop os (suc fuel) sender s ≡ ok (would_block, next) t
  unfolding send_loop
  send_loop-stops fuel sender next s t e = ground arith

  pub send_loop-ends :
      (fuel : ℕ) (sender : ChunkedDataSender) (next : ChunkedDataSender) (s t : State)
      → send_next_chunk os sender s ≡ ok (count 0, next) t
      → send_loop os (suc fuel) sender s ≡ ok (count 0, next) t
  unfolding send_loop
  send_loop-ends fuel sender next s t e = ground arith

  pub send_loop-halts :
      (fuel : ℕ) (sender : ChunkedDataSender) (s t : State)
      → send_next_chunk os sender s ≡ halt exited t
      → send_loop os (suc fuel) sender s ≡ halt exited t
  unfolding send_loop
  send_loop-halts fuel sender s t e = ground arith

  pub send_loop-goes_on :
      (fuel n : ℕ) (sender : ChunkedDataSender) (next : ChunkedDataSender) (s t : State)
      → 0 < n
      → send_next_chunk os sender s ≡ ok (count n, next) t
      → send_loop os (suc fuel) sender s ≡ send_loop os fuel next t
  unfolding send_loop
  send_loop-goes_on fuel n sender next s t h e = ground arith

  -- The loop where the first chunk is not taken.
  Sends-blocked :
      (m : Medium) (fuel : ℕ) (bytes : List ℕ) (loc : ℕ) (s : State)
      → loc < length bytes
      → send_next_chunk os (sender_at m bytes loc) s
        ≡ ok (would_block, blocked_at m bytes loc) (called s)
      → Sends m bytes loc s (send_loop os (suc fuel) (sender_at m bytes loc) s)
  Sends-blocked m fuel bytes loc s left e =
      subst (Sends m bytes loc s) (sym (send_loop-stops fuel _ _ s (called s) e)) (
        loc,
        omega arith,
        left,
        refl,
        sym (append-nil s.wire)
            ∙ ap (λ d. s.wire ++ take d (drop loc bytes))
                (let z : 0 ≡ loc - loc = omega arith in z),
        (refl, refl),
      )

  Sends-halts :
      (m : Medium) (fuel : ℕ) (bytes : List ℕ) (loc : ℕ) (s t : State)
      → send_next_chunk os (sender_at m bytes loc) s ≡ halt exited t
      → Sends m bytes loc s (send_loop os (suc fuel) (sender_at m bytes loc) s)
  Sends-halts m fuel bytes loc s t e =
      subst (Sends m bytes loc s) (sym (send_loop-halts fuel _ s t e)) refl

  Sends-broken :
      (m : Medium) (fuel : ℕ) (bytes : List ℕ) (loc : ℕ) (s : State)
      → loc < length bytes
      → os.answer s.calls ≡ broken
      → Sends m bytes loc s (send_loop os (suc fuel) (sender_at m bytes loc) s)
  Sends-broken in_memory fuel bytes loc s left a =
      Sends-halts in_memory fuel bytes loc s _ (send_array_chunk_broken os bytes loc s left a)
  Sends-broken on_disk fuel bytes loc s left a =
      Sends-blocked on_disk fuel bytes loc s left (send_file_chunk_broken os bytes loc s left a)

  pub send_loop_lem :
      (m : Medium) (fuel : ℕ) (bytes : List ℕ) (loc : ℕ) (s : State)
      → loc ≤ length bytes
      → length bytes - loc < fuel
      → Sends m bytes loc s (send_loop os fuel (sender_at m bytes loc) s)
  send_loop_lem m zero bytes loc s h enough = absurd (omega arith)
  send_loop_lem m (suc fuel) bytes loc s h enough = elim (Bool-cases (ltb loc (length bytes))) [
    | inr over ↦
        let none_left = le_of_ltb _ _ over in
        subst (Sends m bytes loc s)
          (sym (send_loop-ends fuel _ _ s s (send_next_chunk_end os m bytes loc s none_left)))
          (
            refl,
            sym (append-nil s.wire) ∙ ap (λ l. s.wire ++ l) (sym (drop_all loc bytes none_left)),
            (refl, refl),
          )
    | inl some_left ↦
        let left = lt_of_ltb _ _ some_left in
        elim (Answer-cases (os.answer s.calls)) [
          | inl (zero, a) ↦
              let died = send_next_chunk_zero os m bytes loc s left a in
              Sends-halts m fuel bytes loc s died.0 died.1
          | inl (suc n, a) ↦
              let k : ℕ = min (suc n) (chunk_at bytes loc) in
              subst (Sends m bytes loc s)
                (sym (
                  send_loop-goes_on fuel k _ _ s _ (omega arith)
                    (send_next_chunk_takes os m bytes loc n s left a)))
                (Sends-took m bytes loc k s _ (
                  send_loop_lem m fuel bytes (loc + k) (took (take k (drop loc bytes)) s)
                    (omega arith) (omega arith)))
          | inr (inl a) ↦
              Sends-blocked m fuel bytes loc s left (send_next_chunk_full os m bytes loc s left a)
          | inr (inr a) ↦ Sends-broken m fuel bytes loc s left a
        ]
  ]
