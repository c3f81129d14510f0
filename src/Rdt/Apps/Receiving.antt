-- ===== src/Rdt/Apps/Receiving.antt =====
-- The loop of receiver.cpp.
use networking_projects.Base.{
  ℕ, zero, suc, ◌<◌, ◌≡◌, ◌≢◌, ◌⊎◌, Option-cases, refl, ap, List, [], ◌∷◌, ◌++◌, arith, ◌==◌,
  length, take, Bool-cases, inl, inr,
}
use networking_projects.Rdt.State.{
  State, Os, Event, ok, bind-eq-ok, Result-cases, Result, bind, pure,
}
use networking_projects.Rdt.Reliable.{blank}
use networking_projects.Rdt.Unreliable.{set_timeout_length}
use networking_projects.Rdt.Receiver.{
  expected_seq, data_round, data_loop, receive_data, Round, returns, again_with,
}
use networking_projects.Rdt.Apps.{receive_blocks}

Round-cases :
    (round : Round)
    → ((count : ℕ) × (filled : List ℕ) × (round ≡ returns count filled))
      ⊎ ((next : List ℕ) × (round ≡ again_with next))
Round-cases (returns count filled) = inl (count, filled, refl)
Round-cases (again_with next) = inr (next, refl)

module _ (os : Os) where
  data_loop-lt :
      (q : ℕ) (target buffer : List ℕ) (es : List Event) (s s' : State)
      {r : ℕ × List ℕ × List Event}
      → data_loop os q target buffer es s ≡ ok r s'
      → length r.2 < length es
  unfolding data_loop
  data_loop-lt q target buffer [] s s' h = absurd (ground arith)
  data_loop-lt q target buffer (e ∷ es) s s' {r} h =
      let (round, t, first, more) = bind-eq-ok (data_round os q target buffer e s) _ h in
      elim (Round-cases round) [
        | inl (count, filled, eq) ↦ let m = rw eq at more in ground arith
        | inr (next, eq) ↦ omega (arith, data_loop-lt q target next es t s' (rw eq at more))
      ]

  receive_data-lt :
      (target : List ℕ) (es : List Event) (s s' : State) {r : ℕ × List ℕ × List Event}
      → receive_data os target es s ≡ ok r s'
      → r.0 ≢ 0
      → length r.2 < length es
  unfolding receive_data
  receive_data-lt target es s s' {r} h nz = elim (Option-cases (expected_seq s.state)) [
    | inl refused ↦ let m = rw (refused, receive_data) at h in absurd (ground (arith, nz))
    | inr (q, expects) ↦
        let (u, t, timed, runs) =
          bind-eq-ok (set_timeout_length os 0 s) _ (rw (expects, receive_data) at h) in
        data_loop-lt q target blank es t s' runs
  ]

  -- More fuel than there are answers makes no difference: the loop of receiver.cpp takes an answer in
  -- each turn but the last.
  receive_blocks_fuel :
      (fuel fuel' : ℕ) (segment : List ℕ) (es : List Event) (s : State)
      → length es < fuel
      → length es < fuel'
      → receive_blocks os fuel segment es s ≡ receive_blocks os fuel' segment es s
  unfolding receive_blocks
  receive_blocks_fuel zero fuel' segment es s h h' = absurd (omega arith)
  receive_blocks_fuel (suc fuel) zero segment es s h h' = absurd (omega arith)
  receive_blocks_fuel (suc fuel) (suc fuel') segment es s h h' =
      elim (Result-cases (receive_data os segment es s)) [
        | inl (got, t, runs) ↦ elim (Bool-cases (got.0 == 0)) [
          | inl ends ↦ rw (runs, ends)
          | inr goes ↦
              rw (runs, goes)
                (ap
                  (λ (r : Result (List ℕ × List Event)).
                    bind r (λ more. pure (take got.0 got.1 ++ more.0, more.1)))
                  (receive_blocks_fuel fuel fuel' got.1 got.2 t
                    (omega (arith, receive_data-lt segment es s t runs (ground arith)))
                    (omega (arith, receive_data-lt segment es s t runs (ground arith)))))
        ]
        | inr (why, t, stops) ↦ rw stops
      ]
