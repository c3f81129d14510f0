-- ===== src/Jukebox/Server/Keeping.antt =====
-- Conditions on a client that its sends keep, and how the operations of a client keep them.
use networking_projects.Base.{
  ℕ, zero, suc, ◌-◌, Bool, true, false, Option, none, some, List, ◌++◌, ◌==◌, ltb, if◌then◌else◌,
  min, take, drop, length,
}
use networking_projects.Jukebox.State.{
  Answer, ArraySender, FileSender, ChunkedDataSender, of_array, of_file, State, Os, M, Result, ok,
  halt, Halt, exited, out_of_fuel, takes, full, broken, bind, transmit, ◌>>=◌,
}
use networking_projects.Jukebox.Chunked.{
  read, Sent, count, would_block, send_array_chunk, send_file_chunk, send_next_chunk,
}
use networking_projects.Jukebox.Client.{send_loop}

-- A condition on a client that neither calls of the system nor bytes taken touch, and the ways in
-- which an operation may stop.
pub record Promise : Type 1 where
  pub holds : State → Type 0
  pub halts : Halt → Type 0
  pub sent :
      (s : State) (calls : ℕ) (wire : List ℕ)
      → holds s
      → holds (record s { calls = calls; wire = wire })
  pub exits : halts exited
  pub fuel : halts out_of_fuel

module _ (p : Promise) where
  -- An operation that returns leaves a client of which it holds.
  abbrev pub Good {ℓ} : {A : Type ℓ} → Result A → Type 0
  Good (ok a s) = p.holds s
  Good (halt h s) = p.halts h

  abbrev pub Keeps {ℓ} : {A : Type ℓ} → M A → Type 0
  Keeps m = (s : State) → p.holds s → Good (m s)

  pub bind-Good {ℓ κ} :
      {A : Type ℓ} {B : Type κ} (r : Result A) (f : A → M B)
      → Good r
      → ((a : A) → Keeps (f a))
      → Good (bind r f)
  bind-Good (ok a s) f good next = next a s good
  bind-Good (halt h s) f good next = good

  pub then_Keeps {ℓ κ} :
      {A : Type ℓ} {B : Type κ} (m : M A) (f : A → M B)
      → Keeps m
      → ((a : A) → Keeps (f a))
      → Keeps (m >>= f)
  then_Keeps m f first next s c = bind-Good (m s) f (first s c) next

  pub if_Keeps {ℓ} :
      {A : Type ℓ} (b : Bool) (m n : M A) → Keeps m → Keeps n → Keeps (if b then m else n)
  if_Keeps true m n first second = first
  if_Keeps false m n first second = second

  pub answer_Keeps {ℓ} :
      {A : Type ℓ} (a : Answer) (f : ℕ → M A) (g h : M A)
      → ((n : ℕ) → Keeps (f n))
      → Keeps g
      → Keeps h
      → Keeps (elim a [ takes n ↦ f n | full ↦ g | broken ↦ h ])
  answer_Keeps (takes n) f g h first second third = first n
  answer_Keeps full f g h first second third = second
  answer_Keeps broken f g h first second third = third

  pub sent_Keeps {ℓ} :
      {A : Type ℓ} (sent : Sent) (f : ℕ → M A) (g : M A)
      → ((n : ℕ) → Keeps (f n))
      → Keeps g
      → Keeps (elim sent [ count n ↦ f n | would_block ↦ g ])
  sent_Keeps (count n) f g first second = first n
  sent_Keeps would_block f g first second = second

  pub option_Keeps {ℓ κ} :
      {A : Type ℓ} {B : Type κ} (found : Option B) (m : M A) (f : B → M A)
      → Keeps m
      → ((b : B) → Keeps (f b))
      → Keeps (elim found [ none ↦ m | some b ↦ f b ])
  option_Keeps none m f first second = first
  option_Keeps (some b) m f first second = second b

module _ (os : Os) (p : Promise) where
  transmit-Keeps : (bytes : List ℕ) → Keeps p (transmit os bytes)
  transmit-Keeps bytes s c =
      elim (os.answer s.calls)
        as (λ a. Good p (
          (elim a [
            | takes n ↦
                ok (takes (length (take n bytes)))
                  (record s { calls = suc s.calls; wire = s.wire ++ take n bytes })
            | full ↦ ok full (record s { calls = suc s.calls })
            | broken ↦ ok broken (record s { calls = suc s.calls })
          ]))) [
            | takes n ↦ p.sent s (suc s.calls) (s.wire ++ take n bytes) c
            | full ↦ p.sent s (suc s.calls) s.wire c
            | broken ↦ p.sent s (suc s.calls) s.wire c
          ]

  send_array_chunk-Keeps : (a : ArraySender) → Keeps p (send_array_chunk os a)
  unfolding send_array_chunk
  send_array_chunk-Keeps a =
      if_Keeps p (ltb 0 (min (length a.array - a.curr_loc) 4096)) _ _
        (then_Keeps p
          (transmit os (take (min (length a.array - a.curr_loc) 4096) (drop a.curr_loc a.array))) _
          (transmit-Keeps (take (min (length a.array - a.curr_loc) 4096) (drop a.curr_loc a.array)))
          (λ sent.
            answer_Keeps p sent _ _ _ (λ n. if_Keeps p (ltb 0 n) _ _ (λ s c. c) (λ s c. p.exits))
              (λ s c. c) (λ s c. p.exits)))
        (λ s c. c)

  send_file_chunk-Keeps : (f : FileSender) → Keeps p (send_file_chunk os f)
  unfolding send_file_chunk
  send_file_chunk-Keeps f =
      let bytes_in_chunk = min (f.file_size - f.bytes_sent) 4096 in
      if_Keeps p (ltb 0 bytes_in_chunk) _ _
        (then_Keeps p (transmit os (read bytes_in_chunk f.file).0) _
          (transmit-Keeps (read bytes_in_chunk f.file).0)
          (λ sent.
            answer_Keeps p sent _ _ _ (λ n. if_Keeps p (ltb 0 n) _ _ (λ s c. c) (λ s c. p.exits))
              (λ s c. c) (λ s c. c)))
        (λ s c. c)

  send_next_chunk-Keeps : (sender : ChunkedDataSender) → Keeps p (send_next_chunk os sender)
  unfolding send_next_chunk
  send_next_chunk-Keeps (of_array a) =
      then_Keeps p (send_array_chunk os a) _ (send_array_chunk-Keeps a) (λ next s c. c)
  send_next_chunk-Keeps (of_file f) =
      then_Keeps p (send_file_chunk os f) _ (send_file_chunk-Keeps f) (λ next s c. c)

  pub send_loop-Keeps : (fuel : ℕ) (sender : ChunkedDataSender) → Keeps p (send_loop os fuel sender)
  unfolding send_loop
  send_loop-Keeps zero sender = λ s c. p.fuel
  send_loop-Keeps (suc fuel) sender =
      then_Keeps p (send_next_chunk os sender) _ (send_next_chunk-Keeps sender) (λ next.
        sent_Keeps p next.0 _ _
          (λ n. if_Keeps p (n == 0) _ _ (λ s c. c) (send_loop-Keeps fuel next.1)) (λ s c. c))
