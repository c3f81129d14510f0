-- ===== src/Jukebox/Server/Resuming.antt =====
-- What ConnectedClient.cpp's resume_sending and handle_close keep true of a client.
use networking_projects.Base.{ℕ, suc, ◌≢◌, refl, sym, subst, inl, inr, none, some}
use networking_projects.Jukebox.SongLibrary.{SongLibrary}
use networking_projects.Jukebox.State.{
  ChunkedDataSender, receiving, modified, removed, State, Os, M, Result, ok, halt, undefined, bind,
  pure, ◌>>◌,
}
use networking_projects.Jukebox.Chunked.{Sent, count, would_block, remaining}
use networking_projects.Jukebox.Client.{
  watch_input, set_sender, control_epoll, send_loop, handle_close, resume_with, resume_sending,
}
use networking_projects.Jukebox.Server.Keeping.{Promise, Good, Keeps, bind-Good, send_loop-Keeps}
use networking_projects.Jukebox.Server.Upkeep.{
  watched, Resumes, Consistent, exited_is_defined, out_of_fuel_is_defined, promise, safely,
  control_epoll-Good, dropped-Good,
}

module _ (os : Os) (library : SongLibrary) (fd : ℕ) where
  -- A client that is sending.
  abbrev resuming : Promise
  resuming = record {
    holds = λ s. Consistent library fd s × Resumes s;
    halts = λ h. h ≢ undefined;
    sent = λ s calls wire (c, r).
        (record { same_fd = c.same_fd; has_library = c.has_library; phase = c.phase }, r);
    exits = exited_is_defined;
    fuel = out_of_fuel_is_defined;
  }

  resume_with-Good :
      (sender : ChunkedDataSender) (s : State)
      → Consistent library fd s
      → Resumes s
      → Good (safely os library fd) (resume_with os (some sender) s)
  unfolding resume_with
  resume_with-Good sender s c r =
      go (send_loop os (suc (remaining sender)) sender s)
        (send_loop-Keeps os resuming (suc (remaining sender)) sender s (c, r))
    where
      last_turn : Sent × ChunkedDataSender → M (Unit {0})
      last_turn last = do
        λ t. set_sender t.state (some last.1) t
        elim last.0 [
          | count n ↦ pure tt
          | would_block ↦ (do
            set_sender receiving none
            λ t. control_epoll os (modified t.client_fd watch_input) t)
        ]

      go :
          (sent : Result (Sent × ChunkedDataSender))
          → Good resuming sent
          → Good (safely os library fd) (bind sent last_turn)
      go (halt h t) good = good
      go (ok (count n, next) t) (d, q) = record {
        same_fd = d.same_fd;
        has_library = d.has_library;
        phase = inr (q.0, next, refl, q.3);
      }
      go (ok (would_block, next) t) (d, q) =
          dropped-Good os library fd (safely os library fd) (λ u e. e)
            (record t { self = record t.self { sender = some next } }) d.same_fd d.has_library

  -- The phase of a client that is watched for output.
  Resumes-watched : (s : State) → Consistent library fd s → watched s.log ≢ watch_input → Resumes s
  Resumes-watched s c w = elim c.phase [ inl p ↦ absurd (w p.2) | inr r ↦ r ]

  pub resume_sending-Good :
      (s : State)
      → Consistent library fd s
      → watched s.log ≢ watch_input
      → Good (safely os library fd) (resume_sending os s)
  unfolding resume_sending
  resume_sending-Good s c w =
      let r = Resumes-watched s c w in
      subst (λ o. Good (safely os library fd) (resume_with os o s)) (sym r.2)
        (resume_with-Good r.1 s c r)

  -- `resume_sending` of any client; without a sender it uses a null pointer.
  pub resume_sending-Keeps : Keeps (promise os library fd) (resume_sending os)
  unfolding resume_sending resume_with
  resume_sending-Keeps s c = elim c.phase [
    | inl w ↦ subst (λ o. Good (promise os library fd) (resume_with os o s)) (sym w.1) tt
    | inr r ↦
        subst (λ o. Good (promise os library fd) (resume_with os o s)) (sym r.2)
          (safely-promise (resume_with os (some r.1) s) (resume_with-Good r.1 s c r))
  ]
    where
      safely-promise :
          (r : Result (Unit {0})) → Good (safely os library fd) r → Good (promise os library fd) r
      safely-promise (ok a t) good = good
      safely-promise (halt h t) good = tt

  pub handle_close-Keeps : Keeps (promise os library fd) (handle_close os)
  unfolding handle_close
  handle_close-Keeps s c =
      bind-Good (promise os library fd) (control_epoll os (removed s.client_fd) s) _
        (control_epoll-Good os library fd (promise os library fd) (removed s.client_fd) s
          (record { same_fd = c.same_fd; has_library = c.has_library; phase = c.phase }))
        (λ u t d. record { same_fd = d.same_fd; has_library = d.has_library; phase = d.phase })
