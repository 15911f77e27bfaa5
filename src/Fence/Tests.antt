-- ===== src/Fence/Tests.antt =====
-- The theorems on the fence of src/include/determ.h in a run of two threads: thread 1 comes in and
-- waits at the fence, and thread 0 reads the phase and is about to arrive.
use dthreads.Base.{◌+◌, ◌≡◌, inr, refl, true, arith, [], ◌∷◌}
use dthreads.Base.Maps.{update}
use dthreads.Fence.{incr_fence, arrive, arrive_last, leave}
use dthreads.Fence.System.{
  running, polled, waiting, thread, Leaves, System, pick, init, Reach, start, later, join_party,
  enter_and_wait, enter_last, started,
}
use dthreads.Fence.Safety.{start_fence-strands}

abbrev both : System
both = record {
  shared = record init.shared { fence = incr_fence 1 init.shared.fence };
  threads = update init.threads 1 (thread running 0);
}

abbrev one_waits : System
one_waits = record {
  shared = record both.shared { fence = (arrive both.shared.fence).0 };
  threads = update both.threads 1 (thread waiting 0);
}

abbrev one_polls : System
one_polls = record {
  shared = one_waits.shared;
  threads = update one_waits.threads 0 (thread polled 0);
}

-- Thread 0 is the last to arrive and goes on, and thread 1 has not left yet; then thread 0 starts the
-- fence for thread 2.
abbrev one_passes : System
one_passes = record {
  shared = record { fence = arrive_last one_waits.shared.fence; era = 1 };
  threads = update one_waits.threads 0 (thread running 1);
}

one_passes-reached : Reach 3 0 one_passes
unfolding arrive incr_fence
one_passes-reached =
    later
      (later (later start (pick 1 (omega arith) (join_party refl)))
        (pick 1 (omega arith) (enter_and_wait (inr (refl, refl)) refl)))
      (pick 0 (omega arith) (enter_last (inr (refl, refl)) refl))

start_fence-strands_example :
    ((started (2 ∷ []) one_passes).shared.fence.is_arrival_phase ≡ true)
    × (((started (2 ∷ []) one_passes).threads 1).pc ≡ waiting)
    × (¬ Leaves
        (started (2 ∷ []) one_passes).shared.fence
        ((started (2 ∷ []) one_passes).threads 1).pc)
    × (((started (2 ∷ []) one_passes).threads 0).round
        ≡ ((started (2 ∷ []) one_passes).threads 1).round + 1)
unfolding arrive incr_fence arrive_last leave
start_fence-strands_example =
    start_fence-strands (omega arith) (omega arith) one_passes-reached 0 1 (2 ∷ []) (omega arith)
      (omega arith) refl refl refl (omega arith, refl, refl, 0)
