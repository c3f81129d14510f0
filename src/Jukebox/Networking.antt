-- ===== src/Jukebox/Networking.antt =====
-- networking.cpp: the calls that set up sockets. A function returns the number of calls of the system
-- made so far, or `none` where it exits, since a call failed.
use networking_projects.Base.{ℕ, suc, Option, none, some, if◌then◌else◌}
use networking_projects.Jukebox.State.{Os}

module _ (os : Os) where
  -- One call of the system that exits when it fails.
  abbrev pub checked : ℕ → Option ℕ
  checked calls = if os.succeeds calls then some (suc calls) else none

  abbrev pub and_then : Option ℕ → (ℕ → Option ℕ) → Option ℕ
  and_then none next = none
  and_then (some calls) next = next calls

  -- The two calls of `fcntl`.
  unfoldable pub set_non_blocking : ℕ → Option ℕ
  set_non_blocking calls = and_then (checked calls) checked

  unfoldable pub add_socket_to_epoll : ℕ → Option ℕ
  add_socket_to_epoll calls = checked calls

  -- `socket`, whose answer is not looked at, then `setsockopt`, `fcntl`, `bind` and `listen`.
  unfoldable pub setup_server_socket : ℕ → Option ℕ
  unfolding set_non_blocking
  setup_server_socket calls =
      and_then (and_then (and_then (checked (suc calls)) set_non_blocking) checked) checked
