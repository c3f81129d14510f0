-- ===== src/Torero/Buffer/Runs.antt =====
-- What holds of the shared buffer after any turns of the threads.
use networking_projects.Base.{
  ℕ, ◌≡◌, ◌≤◌, ◌<◌, refl, sym, ap, ◌∙◌, Bool, true, false, Option, none, some, List, [], ◌∷◌, ◌++◌,
  append_assoc, arith, length, length-append,
}
use networking_projects.Torero.Buffer.{
  BoundedBuffer, empty_buffer, get_item, put_item, Threads, notify_one, Step, puts, holds, gets,
  idles, wakes_consumer, wakes_producer, Steps, stays, then_step, run_server,
}

-- The buffer holds what was put and not got, in order, and no more than it may.
abbrev pub IsWellFormed : ℕ → Threads → Type 0
IsWellFormed max_size t =
    (t.shared.capacity ≡ max_size)
    × (length t.shared.buffer ≤ max_size)
    × (t.handled ++ t.shared.buffer ≡ t.accepted)

put_item-some :
    (b b' : BoundedBuffer) (c : ℕ)
    → length b.buffer ≤ b.capacity
    → put_item b c ≡ some b'
    → (b'.capacity ≡ b.capacity)
      × (b'.buffer ≡ b.buffer ++ (c ∷ []))
      × (length b.buffer < b.capacity)
unfolding put_item
put_item-some b b' c h e = ground arith

get_item-some :
    (b b' : BoundedBuffer) (c : ℕ)
    → get_item b ≡ some (c, b')
    → (b'.capacity ≡ b.capacity) × (b.buffer ≡ c ∷ b'.buffer)
unfolding get_item
get_item-some b b' c e = go b.buffer refl
  where
    go :
        (items : List ℕ)
        → b.buffer ≡ items
        → (b'.capacity ≡ b.capacity) × (b.buffer ≡ c ∷ b'.buffer)
    go [] h = absurd (let none_got : get_item b ≡ none = rw h refl in cc)
    go (item ∷ rest) h =
        let got : get_item b ≡ some (item, record b { buffer = rest }) = rw h refl in
        let same : some (item, record b { buffer = rest }) ≡ some (c, b') = sym got ∙ e in (cc, cc)

IsWellFormed-puts :
    (max_size : ℕ) (t : Threads) (c : ℕ) (b : BoundedBuffer) (n : ℕ) (o : Option ℕ)
    → put_item t.shared c ≡ some b
    → IsWellFormed max_size t
    → IsWellFormed max_size
        (record t { shared = b; idle = n; held = o; accepted = t.accepted ++ (c ∷ []) })
IsWellFormed-puts max_size t c b n o e (room, small, same) =
    let put = put_item-some t.shared b c (omega arith) e in
    (
      put.0 ∙ room,
      omega (arith, ap length put.1, length-append t.shared.buffer (c ∷ [])),
      ap (λ l. t.handled ++ l) put.1
          ∙ sym (append_assoc t.handled t.shared.buffer (c ∷ []))
          ∙ ap (λ l. l ++ (c ∷ [])) same,
    )

module _ {spurious : Bool} (max_size : ℕ) where
  Step-IsWellFormed :
      (t u : Threads) → Step spurious t u → IsWellFormed max_size t → IsWellFormed max_size u
  Step-IsWellFormed t u (puts _ c b h e) w =
      IsWellFormed-puts max_size t c b (notify_one t.idle) t.held e w
  Step-IsWellFormed t u (holds _ c h e) w = w
  Step-IsWellFormed t u (gets _ c b h e) (room, small, same) =
      let got = get_item-some t.shared b c e in
      (
        got.0 ∙ room,
        omega (arith, ap length got.1),
        append_assoc t.handled (c ∷ []) b.buffer ∙ ap (λ l. t.handled ++ l) (sym got.1) ∙ same,
      )
  Step-IsWellFormed t u (idles _ h e) w = w
  Step-IsWellFormed t u (wakes_consumer _ n h e) w = w
  Step-IsWellFormed t u (wakes_producer _ c b h k e) w =
      IsWellFormed-puts max_size t c b (notify_one t.idle) none e w

  Steps-IsWellFormed :
      (t u : Threads) → Steps spurious t u → IsWellFormed max_size t → IsWellFormed max_size u
  Steps-IsWellFormed t u (stays _) w = w
  Steps-IsWellFormed t w' (then_step _ u _ steps step) w =
      Step-IsWellFormed u w' step (Steps-IsWellFormed t u steps w)

  -- After any turns of the threads from the start of the server, whether or not waits end by
  -- themselves, the buffer holds at most as many clients as it was made for, and the clients that
  -- were got, then those in the buffer, are those that were put, in the order in which they were.
  pub run_server-IsWellFormed :
      (t : Threads) → Steps spurious (run_server max_size) t → IsWellFormed max_size t
  unfolding run_server empty_buffer
  run_server-IsWellFormed t steps =
      Steps-IsWellFormed (run_server max_size) t steps (refl, omega arith, refl)

Step-stuck :
    (c : ℕ) (t u : Threads)
    → Step false t u
    → t.held ≡ some c
    → (u.held ≡ some c) × (u.accepted ≡ t.accepted)
Step-stuck c t u (puts _ d b h e) k = absurd (let no : none ≡ some c = sym h ∙ k in cc)
Step-stuck c t u (holds _ d h e) k = absurd (let no : none ≡ some c = sym h ∙ k in cc)
Step-stuck c t u (gets _ d b h e) k = (k, refl)
Step-stuck c t u (idles _ h e) k = (k, refl)
Step-stuck c t u (wakes_consumer _ n h e) k = absurd (let no : false ≡ true = h in cc)
Step-stuck c t u (wakes_producer _ d b h m e) k = absurd (let no : false ≡ true = h in cc)

-- When putItem waits for space, and no wait ends by itself, then after any turns of the threads,
-- those that take every client out of the buffer included, it still waits, and no client was put.
pub Steps-stuck :
    (c : ℕ) (t u : Threads)
    → Steps false t u
    → t.held ≡ some c
    → (u.held ≡ some c) × (u.accepted ≡ t.accepted)
Steps-stuck c t u (stays _) k = (k, refl)
Steps-stuck c t w (then_step _ u _ steps step) k =
    let before = Steps-stuck c t u steps k in
    let after = Step-stuck c u w step before.0 in (after.0, after.1 ∙ before.1)
