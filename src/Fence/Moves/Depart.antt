-- ===== src/Fence/Moves/Depart.antt =====
-- The moves by which a thread leaves the fence of src/include/determ.h keep the invariant.
use dthreads.Base.{ℕ, ◌+◌, ◌<◌, ◌≡◌, refl, false, arith}
use dthreads.Base.Maps.{update}
use dthreads.Fence.{incr_fence, decr_fence, leave}
use dthreads.Fence.System.{
  away, running, waiting, released, Thread, thread, Shared, era_after, Leaves,
}
use dthreads.Fence.Invariant.{Inv}
use dthreads.Fence.Moves.{sums, Knows-all, Leaves-departure, others_gone_if, others_inside_if}

module _ {n : ℕ} {s : Shared} {ts : ℕ → Thread} (inv : Inv n s ts) (i : ℕ) (l : i < n) where
  open inv use {few, outer, inner, gathering, leaving, knows}

  pub see_release-Inv :
      (ts i).pc ≡ waiting
      → s.fence.is_arrival_phase ≡ false
      → Inv n s (update ts i (thread released (ts i).round))
  see_release-Inv p q =
      let t = thread released (ts i).round in
      let c = sums inv i l t in
      record {
        few = few;
        outer = ground (arith, c.out);
        inner = ground (arith, c.ins);
        gathering = gathering;
        leaving = leaving;
        knows = Knows-all inv i l s t (ground (arith, knows i l)) (λ j k ne. knows j k);
      }

  pub exit_fence-Inv :
      Leaves s.fence (ts i).pc
      → Inv n
          (record s { fence = (leave s.fence).0 })
          (update ts i (thread running ((ts i).round + 1)))
  unfolding leave
  exit_fence-Inv e =
      let t = thread running ((ts i).round + 1) in
      let c = sums inv i l t in
      let a = Leaves-departure inv i l e in
      record {
        few = few;
        outer = ground (arith, c.out, c.ins, c.fit_before, a);
        inner = ground (arith, c.ins, c.fit_before, a);
        gathering = λ h. ground (arith, c.fit_before, a);
        leaving = λ h. ground (arith, c.fit_before, a);
        knows =
            Knows-all inv i l (record s { fence = (leave s.fence).0 }) t (ground (arith, a))
              (λ j k ne. ground (arith, others_gone_if inv i l j k ne, knows j k, a, c.fit_before));
      }

  pub join_party-Inv :
      (ts i).pc ≡ away
      → Inv n (record s { fence = incr_fence 1 s.fence }) (update ts i (thread running s.era))
  unfolding incr_fence
  join_party-Inv p =
      let t = thread running s.era in
      let c = sums inv i l t in
      record {
        few = few;
        outer = ground (arith, c.out, c.ins, c.fit);
        inner = ground (arith, c.ins);
        gathering = λ h. ground (arith, c.out, c.ins, c.fit, gathering h);
        leaving = leaving;
        knows =
            Knows-all inv i l (record s { fence = incr_fence 1 s.fence }) t refl
              (λ j k ne. knows j k);
      }

  pub quit_party-Inv :
      (ts i).pc ≡ running
      → Inv n
          (record {
            fence = decr_fence s.fence;
            era = era_after s.fence (decr_fence s.fence) s.era;
          })
          (update ts i (thread away (ts i).round))
  unfolding decr_fence
  quit_party-Inv p =
      let t = thread away (ts i).round in
      let c = sums inv i l t in
      record {
        few = few;
        outer = ground (arith, c.out, c.ins, c.fit_before);
        inner = ground (arith, c.ins);
        gathering = λ h. ground (arith, c.out, c.fit_before);
        leaving = λ h. ground (arith, c.out, c.fit_before);
        knows =
            Knows-all inv i l
              (record {
                fence = decr_fence s.fence;
                era = era_after s.fence (decr_fence s.fence) s.era;
              })
              t tt
              (λ j k ne. ground (arith, others_inside_if inv i l j k ne, knows j k, c.fit_before));
      }
