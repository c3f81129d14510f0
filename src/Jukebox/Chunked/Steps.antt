-- ===== src/Jukebox/Chunked/Steps.antt =====
-- One chunk of a sender that stands at a place in its bytes, for each answer of the system.
use networking_projects.Base.{
  ℕ, suc, ◌+◌, ◌-◌, ◌≤◌, ◌<◌, ◌≡◌, min, false, List, ◌++◌, arith, length, take, drop, length-take,
  length-drop, take-take, [],
}
use networking_projects.Jukebox.State.{
  ChunkedDataSender, of_array, of_file, takes, full, broken, State, Os, ok, halt, exited,
}
use networking_projects.Jukebox.Chunked.{
  chunk_size, count, would_block, read, seek_forward, seek_backward, send_array_chunk,
  send_file_chunk, send_next_chunk,
}

pub data Medium : Type 0 where
  in_memory on_disk : Medium

-- The file sender that read up to a position and counted some bytes as sent.
abbrev pub file_at : List ℕ → ℕ → ℕ → ChunkedDataSender
file_at bytes position bytes_sent = of_file (record {
  file = record { contents = bytes; position = position; failed = false };
  file_size = length bytes;
  bytes_sent = bytes_sent;
})

-- A sender that sent the bytes before a place.
abbrev pub sender_at : Medium → List ℕ → ℕ → ChunkedDataSender
sender_at in_memory bytes loc = of_array (record { array = bytes; curr_loc = loc })
sender_at on_disk bytes loc = file_at bytes loc loc

abbrev pub chunk_at : List ℕ → ℕ → ℕ
chunk_at bytes loc = min (length bytes - loc) chunk_size

-- What it is after an answer of -1: the file sender stands two chunks ahead.
abbrev pub blocked_at : Medium → List ℕ → ℕ → ChunkedDataSender
blocked_at in_memory bytes loc = of_array (record { array = bytes; curr_loc = loc })
blocked_at on_disk bytes loc = file_at bytes (loc + chunk_at bytes loc + chunk_at bytes loc) loc

abbrev pub called : State → State
called s = record s { calls = suc s.calls }

abbrev pub took : List ℕ → State → State
took bytes s = record s { calls = suc s.calls; wire = s.wire ++ bytes }

pub length-chunk :
    (bytes : List ℕ) (loc : ℕ)
    → length (take (chunk_at bytes loc) (drop loc bytes)) ≡ chunk_at bytes loc
length-chunk bytes loc =
    omega (arith, length-take (chunk_at bytes loc) (drop loc bytes), length-drop loc bytes)

pub length-part :
    (n : ℕ) (bytes : List ℕ) (loc : ℕ)
    → length (take (min n (chunk_at bytes loc)) (drop loc bytes)) ≡ min n (chunk_at bytes loc)
length-part n bytes loc =
    omega (arith, length-take (min n (chunk_at bytes loc)) (drop loc bytes), length-drop loc bytes)

module _ (os : Os) where
  pub send_next_chunk_end :
      (m : Medium) (bytes : List ℕ) (loc : ℕ) (s : State)
      → length bytes ≤ loc
      → send_next_chunk os (sender_at m bytes loc) s ≡ ok (count 0, sender_at m bytes loc) s
  unfolding send_next_chunk send_array_chunk send_file_chunk
  send_next_chunk_end in_memory bytes loc s h = ground arith
  send_next_chunk_end on_disk bytes loc s h = ground arith

  pub send_next_chunk_takes :
      (m : Medium) (bytes : List ℕ) (loc n : ℕ) (s : State)
      → loc < length bytes
      → os.answer s.calls ≡ takes (suc n)
      → let k = min (suc n) (chunk_at bytes loc) in
        send_next_chunk os (sender_at m bytes loc) s
        ≡ ok (count k, sender_at m bytes (loc + k)) (took (take k (drop loc bytes)) s)
  unfolding send_next_chunk send_array_chunk send_file_chunk read seek_forward seek_backward
  send_next_chunk_takes in_memory bytes loc n s h a = ground (
    arith,
    take-take (suc n) (chunk_at bytes loc) (drop loc bytes),
    length-part (suc n) bytes loc,
  )
  send_next_chunk_takes on_disk bytes loc n s h a = ground (
    arith,
    take-take (suc n) (chunk_at bytes loc) (drop loc bytes),
    length-part (suc n) bytes loc,
    length-chunk bytes loc,
  )

  pub send_next_chunk_full :
      (m : Medium) (bytes : List ℕ) (loc : ℕ) (s : State)
      → loc < length bytes
      → os.answer s.calls ≡ full
      → send_next_chunk os (sender_at m bytes loc) s
        ≡ ok (would_block, blocked_at m bytes loc) (called s)
  unfolding send_next_chunk send_array_chunk send_file_chunk read seek_forward
  send_next_chunk_full in_memory bytes loc s h a = ground arith
  send_next_chunk_full on_disk bytes loc s h a = ground (arith, length-chunk bytes loc)

  pub send_next_chunk_zero :
      (m : Medium) (bytes : List ℕ) (loc : ℕ) (s : State)
      → loc < length bytes
      → os.answer s.calls ≡ takes 0
      → (t : State) × (send_next_chunk os (sender_at m bytes loc) s ≡ halt exited t)
  unfolding send_next_chunk send_array_chunk send_file_chunk read
  send_next_chunk_zero in_memory bytes loc s h a = (took [] s, ground arith)
  send_next_chunk_zero on_disk bytes loc s h a = (took [] s, ground arith)

  pub send_array_chunk_broken :
      (bytes : List ℕ) (loc : ℕ) (s : State)
      → loc < length bytes
      → os.answer s.calls ≡ broken
      → send_next_chunk os (sender_at in_memory bytes loc) s ≡ halt exited (called s)
  unfolding send_next_chunk send_array_chunk
  send_array_chunk_broken bytes loc s h a = ground arith

  pub send_file_chunk_broken :
      (bytes : List ℕ) (loc : ℕ) (s : State)
      → loc < length bytes
      → os.answer s.calls ≡ broken
      → send_next_chunk os (sender_at on_disk bytes loc) s
        ≡ ok (would_block, blocked_at on_disk bytes loc) (called s)
  unfolding send_next_chunk send_file_chunk read seek_forward
  send_file_chunk_broken bytes loc s h a = ground (arith, length-chunk bytes loc)
