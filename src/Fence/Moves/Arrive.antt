-- ===== src/Fence/Moves/Arrive.antt =====
-- The moves by which a thread comes to the fence of src/include/determ.h keep the invariant.
use dthreads.Base.{ℕ, ◌+◌, ◌≤◌, ◌<◌, ◌≡◌, ◌≢◌, ◌⊎◌, inl, inr, true, false, arith}
use dthreads.Base.Maps.{update}
use dthreads.Fence.{arrive, arrive_last}
use dthreads.Fence.Family.{sum_below, weight-le-sum_below}
use dthreads.Fence.System.{away, running, polled, waiting, Thread, thread, Shared, Enters}
use dthreads.Fence.Invariant.{inside, outside, Inv}
use dthreads.Fence.Moves.{sums, Knows-all, Enters-arrival, others_inside, others_inside_if}

module _ {n : ℕ} {s : Shared} {ts : ℕ → Thread} (inv : Inv n s ts) (i : ℕ) (l : i < n) where
  open inv use {few, outer, inner, gathering, leaving, knows}

  pub poll-Inv :
      (ts i).pc ≡ running
      → s.fence.is_arrival_phase ≡ true
      → Inv n s (update ts i (thread polled (ts i).round))
  poll-Inv p q =
      let t = thread polled (ts i).round in
      let c = sums inv i l t in
      record {
        few = few;
        outer = ground (arith, c.out);
        inner = ground (arith, c.ins);
        gathering = gathering;
        leaving = leaving;
        knows = Knows-all inv i l s t (ground (arith, knows i l)) (λ j k ne. knows j k);
      }

  pub enter_and_wait-Inv :
      Enters s.fence (ts i).pc
      → (arrive s.fence).1 ≡ false
      → Inv n (record s { fence = (arrive s.fence).0 }) (update ts i (thread waiting (ts i).round))
  unfolding arrive
  enter_and_wait-Inv e q =
      let t = thread waiting (ts i).round in
      let c = sums inv i l t in
      let a = Enters-arrival inv i l e in
      record {
        few = few;
        outer = ground (arith, c.out, c.fit_before);
        inner = ground (arith, c.ins, c.fit_before);
        gathering = λ h. inr (ground (arith, c.fit_before, a));
        leaving = λ h. ground (arith, a);
        knows =
            Knows-all inv i l (record s { fence = (arrive s.fence).0 }) t (inl (ground (arith, a)))
              (λ j k ne. ground (arith, knows j k, a));
      }

  pub enter_last-Inv :
      Enters s.fence (ts i).pc
      → (arrive s.fence).1 ≡ true
      → Inv n
          (record { fence = arrive_last s.fence; era = s.era + 1 })
          (update ts i (thread running ((ts i).round + 1)))
  unfolding arrive_last
  enter_last-Inv e q =
      let t = thread running ((ts i).round + 1) in
      let c = sums inv i l t in
      let a = Enters-arrival inv i l e in
      let last : sum_below n (λ j. outside (ts j).pc) ≤ outside (ts i).pc =
        ground (arith, c.fit_before, a) in
      record {
        few = few;
        outer = ground (arith, c.out, c.ins, c.fit_before, a);
        inner = ground (arith, c.ins, c.fit_before, a);
        gathering = λ h. ground (arith, c.fit_before, a);
        leaving = λ h. ground (arith, c.fit_before, a);
        knows =
            Knows-all inv i l (record { fence = arrive_last s.fence; era = s.era + 1 }) t
              (ground (arith, a))
              (λ j k ne. ground (
                arith,
                others_inside inv i l last j k ne,
                knows j k,
                a,
                c.fit_before,
                weight-le-sum_below n (λ x. inside (ts x).pc) j k,
              ));
      }

  -- The last to arrive finds every other counted thread waiting.
  pub enter_last-gathered :
      Enters s.fence (ts i).pc
      → (arrive s.fence).1 ≡ true
      → (j : ℕ) → j < n
      → j ≢ i
      → ((ts j).pc ≡ away) ⊎ ((ts j).pc ≡ waiting)
  unfolding arrive
  enter_last-gathered e q j k ne =
      let c = sums inv i l (ts i) in
      let a = Enters-arrival inv i l e in
      ground (arith, others_inside_if inv i l j k ne, knows j k, c.fit_before, a)
