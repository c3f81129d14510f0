-- ===== src/Jukebox/Chunked.antt =====
-- ChunkedDataSender.cpp: an array or a file sent in chunks over a socket that does not block.
pub mod Steps
use networking_projects.Base.{
  ℕ, suc, ◌+◌, ◌-◌, Bool, true, false, min, List, [], ◌∷◌, ltb, ◌==◌, if◌then◌else◌, length, take,
  drop,
}
use networking_projects.Jukebox.State.{
  Stream, ArraySender, FileSender, ChunkedDataSender, of_array, of_file, Answer, takes, full,
  broken, Os, M, pure, stop, exited, transmit, ◌>>=◌, ◌>>◌,
}

abbrev pub chunk_size : ℕ
chunk_size = 4096

-- What `send_next_chunk` returns: a number of bytes, or -1.
pub data Sent : Type 0 where
  count : ℕ → Sent
  would_block : Sent

-- `read` and `gcount`: the bytes read. A read of fewer than it asks for sets the failbit, and a
-- stream that failed reads nothing.
unfoldable pub read : ℕ → Stream → List ℕ × Stream
read n st =
    let got : List ℕ = take n (drop st.position st.contents) in
    if st.failed
    then ([], st)
    else (got, record st { position = st.position + length got; failed = ltb (length got) n })

-- `seekg` from the current position, forward or backward; it does nothing on a stream that failed.
unfoldable pub seek_forward : ℕ → Stream → Stream
seek_forward n st = if st.failed then st else record st { position = st.position + n }

unfoldable pub seek_backward : ℕ → Stream → Stream
seek_backward n st = if st.failed then st else record st { position = st.position - n }

-- The constructors.
unfoldable pub array_sender : List ℕ → ChunkedDataSender
array_sender array = of_array (record { array = array; curr_loc = 0 })

unfoldable pub file_sender : List ℕ → ChunkedDataSender
file_sender contents = of_file (record {
  file = record { contents = contents; position = 0; failed = false };
  file_size = length contents;
  bytes_sent = 0;
})

-- `num_bytes_remaining`. The subtraction does not wrap, since `send` takes at most what it is given.
unfoldable pub remaining : ChunkedDataSender → ℕ
remaining (of_array a) = length a.array - a.curr_loc
remaining (of_file f) = f.file_size - f.bytes_sent

module _ (os : Os) where
  -- ArraySender::send_next_chunk
  unfoldable pub send_array_chunk : ArraySender → M (Sent × ArraySender)
  send_array_chunk a =
      let bytes_in_chunk = min (length a.array - a.curr_loc) chunk_size in
      if ltb 0 bytes_in_chunk
      then (do
        num_bytes_sent ← transmit os (take bytes_in_chunk (drop a.curr_loc a.array))
        elim num_bytes_sent [
          | takes n ↦
              if ltb 0 n
              then pure (count n, record a { curr_loc = a.curr_loc + n })
              else stop exited
          | full ↦ pure (would_block, a)
          | broken ↦ stop exited
        ])
      else pure (count 0, a)

  -- FileSender::send_next_chunk
  unfoldable pub send_file_chunk : FileSender → M (Sent × FileSender)
  unfolding read seek_forward seek_backward
  send_file_chunk f =
      let bytes_in_chunk = min (f.file_size - f.bytes_sent) chunk_size in
      let got = read bytes_in_chunk f.file in
      let bytes_read = length got.0 in
      let skipped : FileSender = record f { file = seek_forward bytes_read got.1 } in
      if ltb 0 bytes_in_chunk
      then (do
        num_bytes_sent ← transmit os got.0
        elim num_bytes_sent [
          | takes n ↦
              if ltb 0 n
              then pure (
                count n,
                record f {
                  file = if ltb n bytes_read then seek_backward (bytes_read - n) got.1 else got.1;
                  bytes_sent = f.bytes_sent + n;
                },
              )
              else stop exited
          | full ↦ pure (would_block, skipped)
          | broken ↦ pure (would_block, skipped)
        ])
      else pure (count 0, f)

  -- ChunkedDataSender::send_next_chunk
  unfoldable pub send_next_chunk : ChunkedDataSender → M (Sent × ChunkedDataSender)
  unfolding send_array_chunk send_file_chunk
  send_next_chunk (of_array a) = do next ← send_array_chunk a; pure (next.0, of_array next.1)
  send_next_chunk (of_file f) = do next ← send_file_chunk f; pure (next.0, of_file next.1)
