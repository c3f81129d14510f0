-- ===== src/Torero/Buffer.antt =====
-- BoundedBuffer.cpp and BoundedBuffer.hpp, and the threads of torero-serve.cpp that share a buffer:
-- the one of runServer, which accepts clients, and those of consumeClients.
pub mod Runs
use networking_projects.Base.{
  ℕ, zero, suc, ◌≡◌, ◌<◌, Bool, true, false, Option, none, some, List, [], ◌∷◌, ◌++◌, ◌==◌,
  if◌then◌else◌, length,
}

-- class BoundedBuffer. The mutex and the condition variables are in the steps of `Step`. A client is
-- a number, its descriptor.
pub record BoundedBuffer : Type 0 where
  pub capacity : ℕ
  pub buffer : List ℕ

unfoldable pub empty_buffer : ℕ → BoundedBuffer
empty_buffer max_size = record { capacity = max_size; buffer = [] }

-- `getItem` under the lock. `none`: it waits for `data_available`.
unfoldable pub get_item : BoundedBuffer → Option (ℕ × BoundedBuffer)
get_item b = elim b.buffer [ [] ↦ none | item ∷ rest ↦ some (item, record b { buffer = rest }) ]

-- `putItem` under the lock. `none`: it waits for `space_available`.
unfoldable pub put_item : BoundedBuffer → ℕ → Option BoundedBuffer
put_item b new_item =
    if length b.buffer == b.capacity
    then none
    else some (record b { buffer = b.buffer ++ (new_item ∷ []) })

-- The threads: how many consumers wait for data, the client for which the accepting thread waits for
-- space, and, for the theorems, the clients that were put and those that were got, the oldest first.
pub record Threads : Type 0 where
  pub shared : BoundedBuffer
  pub idle : ℕ
  pub held : Option ℕ
  pub accepted : List ℕ
  pub handled : List ℕ

-- `notify_one` on `data_available`, with `n` threads waiting.
unfoldable pub notify_one : ℕ → ℕ
notify_one zero = zero
notify_one (suc n) = n

-- The threads that run consumeClients.
abbrev pub workers : ℕ
workers = 4

-- One turn of a thread under the lock. `spurious` tells whether a wait may end with no notification,
-- which the language allows.
pub data Step (spurious : Bool) : Threads → Threads → Type 0 where
  -- `putItem` returns.
  puts :
      (t : Threads) (c : ℕ) (b : BoundedBuffer)
      → t.held ≡ none
      → put_item t.shared c ≡ some b
      → Step spurious t
          (record t { shared = b; idle = notify_one t.idle; accepted = t.accepted ++ (c ∷ []) })
  -- `putItem` starts to wait.
  holds :
      (t : Threads) (c : ℕ)
      → t.held ≡ none
      → put_item t.shared c ≡ none
      → Step spurious t (record t { held = some c })
  -- `getItem` returns.
  gets :
      (t : Threads) (c : ℕ) (b : BoundedBuffer)
      → t.idle < workers
      → get_item t.shared ≡ some (c, b)
      → Step spurious t (record t { shared = b; handled = t.handled ++ (c ∷ []) })
  -- `getItem` starts to wait.
  idles :
      (t : Threads)
      → t.idle < workers
      → get_item t.shared ≡ none
      → Step spurious t (record t { idle = suc t.idle })
  -- A wait ends by itself, and the thread tests its condition again.
  wakes_consumer :
      (t : Threads) (n : ℕ)
      → spurious ≡ true
      → t.idle ≡ suc n
      → Step spurious t (record t { idle = n })
  wakes_producer :
      (t : Threads) (c : ℕ) (b : BoundedBuffer)
      → spurious ≡ true
      → t.held ≡ some c
      → put_item t.shared c ≡ some b
      → Step spurious t (record t {
        shared = b;
        held = none;
        idle = notify_one t.idle;
        accepted = t.accepted ++ (c ∷ []);
      })

-- Any number of turns.
pub data Steps (spurious : Bool) : Threads → Threads → Type 0 where
  stays : (t : Threads) → Steps spurious t t
  then_step : (t u w : Threads) → Steps spurious t u → Step spurious u w → Steps spurious t w

-- The threads when runServer has made the buffer.
unfoldable pub run_server : ℕ → Threads
unfolding empty_buffer
run_server max_size = record {
  shared = empty_buffer max_size;
  idle = 0;
  held = none;
  accepted = [];
  handled = [];
}
