-- ===== src/Rdt/Reliable/Rtt.antt =====
-- The estimate of the round trip time in ReliableSocket.cpp: its bounds, and where it leads.
use networking_projects.Base.{
  ℕ, zero, suc, ◌+◌, ◌-◌, ◌*◌, ◌^◌, ◌≤◌, ◌<◌, ◌≡◌, refl, true, List, [], ◌∷◌, arith, min, max,
  replicate,
}
use networking_projects.Rdt.Clock.{msec_to_timeval}
use networking_projects.Rdt.State.{State, Os, M, ok, pure, timeout_set, ◌>>◌}
use networking_projects.Rdt.Unreliable.{set_timeout_length}
use networking_projects.Rdt.Reliable.{
  abs_difference, next_estimate, next_deviation, update_rtt, timeout_of,
}

-- The unsigned difference, read as an `int`, is the distance.
abs_difference_lem : (a b : ℕ) → a < 2 ^ 31 → b < 2 ^ 31 → abs_difference a b ≡ max a b - min a b
unfolding abs_difference
abs_difference_lem a b ha hb = ground arith

-- The call, with its result: the new estimate exactly, and the deviation by its inequality.
update_rtt_lem :
    (os : Os) (sample_rtt : ℕ) (s : State)
    → os.succeeds s.calls ≡ true
    → s.estimated_rtt < 2 ^ 28
    → s.dev_rtt < 2 ^ 28
    → sample_rtt < 2 ^ 28
    → (s' : State) × (update_rtt os sample_rtt s ≡ ok tt s')
      × (s'.estimated_rtt ≡ next_estimate s.estimated_rtt sample_rtt)
      × (4 * s'.dev_rtt
          ≤ 3 * s.dev_rtt + (max sample_rtt s'.estimated_rtt - min sample_rtt s'.estimated_rtt))
      × (s'.timeout_length ≡ s'.estimated_rtt + 4 * s'.dev_rtt)
      × (s'.log ≡ timeout_set (msec_to_timeval s'.timeout_length) ∷ s.log)
unfolding update_rtt next_deviation set_timeout_length
update_rtt_lem os x s up he hd hx =
    (after, ground arith, refl, omega (arith, distance), omega (arith, distance), refl)
  where
    estimate : ℕ
    estimate = next_estimate s.estimated_rtt x

    distance : abs_difference x estimate ≡ max x estimate - min x estimate
    distance = abs_difference_lem x estimate (omega arith) (omega arith)

    moved : State
    moved = record s {
      self = record s.self {
        estimated_rtt = estimate;
        dev_rtt = next_deviation s.dev_rtt x estimate;
      };
    }

    after : State
    after = record moved {
      self = record moved.self {
        socket = record moved.socket { timeout_length = timeout_of os moved };
      };
      calls = suc s.calls;
      log = timeout_set (msec_to_timeval (timeout_of os moved)) ∷ s.log;
    }

-- With all values below 2^28 and a socket option that can be set, `update_rtt` returns; it moves the
-- estimate towards the sample and not past it, keeps the deviation at most the larger of what it was
-- and the distance of the new estimate from the sample, and sets the timeout to the sum of the new
-- estimate and four new deviations, which does not wrap.
pub update_rtt_bounds :
    (os : Os) (sample_rtt : ℕ) (s : State)
    → os.succeeds s.calls ≡ true
    → s.estimated_rtt < 2 ^ 28
    → s.dev_rtt < 2 ^ 28
    → sample_rtt < 2 ^ 28
    → (s' : State) × (update_rtt os sample_rtt s ≡ ok tt s')
      × (min s.estimated_rtt sample_rtt ≤ s'.estimated_rtt)
      × (s'.estimated_rtt ≤ max s.estimated_rtt sample_rtt)
      × (s'.dev_rtt
          ≤ max s.dev_rtt (max sample_rtt s'.estimated_rtt - min sample_rtt s'.estimated_rtt))
      × (s'.timeout_length ≡ s'.estimated_rtt + 4 * s'.dev_rtt)
      × (s'.log ≡ timeout_set (msec_to_timeval s'.timeout_length) ∷ s.log)
update_rtt_bounds os x s up he hd hx =
    let (s', runs, e, d, t, l) = update_rtt_lem os x s up he hd hx in
    (s', runs, omega arith, omega arith, omega arith, t, l)

-- Samples taken one after the other.
pub update_each : Os → List ℕ → M (Unit {0})
update_each os [] = pure tt
update_each os (x ∷ xs) = update_rtt os x >> update_each os xs

-- Let every call of the system succeed, let the estimate and the deviation be below 2 ^ 28, and let
-- the timeout be the sum of the estimate and four deviations. After as many samples of 0 in a row as
-- the estimate and the larger of estimate and deviation together, or more, the timeout is 0.
pub timeout_collapses :
    (os : Os) (n : ℕ) (s : State)
    → ((k : ℕ) → os.succeeds k ≡ true)
    → s.estimated_rtt < 2 ^ 28
    → s.dev_rtt < 2 ^ 28
    → s.timeout_length ≡ s.estimated_rtt + 4 * s.dev_rtt
    → s.estimated_rtt + max s.estimated_rtt s.dev_rtt ≤ n
    → (s' : State) × (update_each os (replicate n 0) s ≡ ok tt s') × (s'.timeout_length ≡ 0)
unfolding update_each
timeout_collapses os zero s up he hd ht hn = (s, refl, omega arith)
timeout_collapses os (suc n) s up he hd ht hn =
    let (s', runs, e, d, t, l) = update_rtt_lem os 0 s (up s.calls) he hd (omega arith) in
    let (s'', rest, zeroed) =
      timeout_collapses os n s' up (omega arith) (omega arith) t (omega arith) in
    (s'', rw runs rest, zeroed)

-- What an update leaves alone, for any sample.
pub update_rtt_frame :
    (os : Os) (sample_rtt : ℕ) (s : State)
    → os.succeeds s.calls ≡ true
    → (s' : State) × (update_rtt os sample_rtt s ≡ ok tt s')
      × (s'.state ≡ s.state)
      × (s'.sequence_number ≡ s.sequence_number)
      × (s'.connected ≡ s.connected)
      × (s'.timeout_length ≡ timeout_of os s')
      × (s'.log ≡ timeout_set (msec_to_timeval s'.timeout_length) ∷ s.log)
unfolding update_rtt set_timeout_length
update_rtt_frame os x s up = (
  record moved {
    self = record moved.self {
      socket = record moved.socket { timeout_length = timeout_of os moved };
    };
    calls = suc s.calls;
    log = timeout_set (msec_to_timeval (timeout_of os moved)) ∷ s.log;
  },
  ground arith,
  refl,
  refl,
  refl,
  refl,
  refl,
)
  where
    moved : State
    moved = record s {
      self = record s.self {
        estimated_rtt = next_estimate s.estimated_rtt x;
        dev_rtt = next_deviation s.dev_rtt x (next_estimate s.estimated_rtt x);
      };
    }
