-- ===== src/Fence/System.antt =====
-- Threads at the fence of src/include/determ.h, interleaved in any order: `waitFence` cut at the
-- points where the mutex is taken and given back, threads that enter by `incrFence`, threads that drop
-- out by `decrFence`, and threads that `startFence` takes in. A wait on the condition variable may end
-- whenever its test of the phase allows, with or without a broadcast, which only adds runs: what
-- holds here says nothing on whether a broadcast comes.
use dthreads.Base.{
  ℕ, ◌+◌, ◌<◌, ◌≡◌, ◌⊎◌, true, false, not, ◌&&◌, if◌then◌else◌, List, [], ◌∷◌, count, length,
}
use dthreads.Base.Maps.{update}
use dthreads.Fence.{Fence, start_fence, incr_fence, decr_fence, arrive, leave, arrive_last}

-- Where a thread stands.
pub data Pc : Type 0 where
  away : Pc  -- not counted by the fence
  running : Pc  -- at work, or before `waitFence`
  polled : Pc  -- has read `_is_arrival_phase == true` without the mutex, and takes the mutex next
  waiting : Pc  -- counted by `_currthreads`, waits for the end of the phase
  released : Pc  -- has read the end of the phase without the mutex, and takes the mutex next

-- `round` counts the fences that the thread has passed.
pub record Thread : Type 0 where
  pub pc : Pc
  pub round : ℕ

-- `era` counts the gatherings that are complete.
pub record Shared : Type 0 where
  pub fence : Fence
  pub era : ℕ

-- The gathering is complete when the arrival phase ends.
abbrev pub era_after : Fence → Fence → ℕ → ℕ
era_after f g era = if f.is_arrival_phase && not g.is_arrival_phase then era + 1 else era

abbrev pub thread : Pc → ℕ → Thread
thread p r = record { pc = p; round = r }

-- `waitFence` takes the mutex: `polled` on the path that spins, where the phase is not read again,
-- or `running` with the phase read under the mutex.
abbrev pub Enters : Fence → Pc → Type 0
Enters f p = (p ≡ polled) ⊎ ((p ≡ running) × (f.is_arrival_phase ≡ true))

abbrev pub Leaves : Fence → Pc → Type 0
Leaves f p = (p ≡ released) ⊎ ((p ≡ waiting) × (f.is_arrival_phase ≡ false))

-- What one thread may do.
pub data Move (s : Shared) (t : Thread) : Shared → Thread → Type 0 where
  poll : t.pc ≡ running → s.fence.is_arrival_phase ≡ true → Move s t s (thread polled t.round)
  enter_and_wait :
      Enters s.fence t.pc
      → (arrive s.fence).1 ≡ false
      → Move s t (record s { fence = (arrive s.fence).0 }) (thread waiting t.round)
  enter_last :
      Enters s.fence t.pc
      → (arrive s.fence).1 ≡ true
      → Move s t
          (record { fence = arrive_last s.fence; era = s.era + 1 })
          (thread running (t.round + 1))
  see_release :
      t.pc ≡ waiting → s.fence.is_arrival_phase ≡ false → Move s t s (thread released t.round)
  exit_fence :
      Leaves s.fence t.pc
      → Move s t (record s { fence = (leave s.fence).0 }) (thread running (t.round + 1))
  join_party :
      t.pc ≡ away → Move s t (record s { fence = incr_fence 1 s.fence }) (thread running s.era)
  quit_party :
      t.pc ≡ running
      → Move s t
          (record {
            fence = decr_fence s.fence;
            era = era_after s.fence (decr_fence s.fence) s.era;
          })
          (thread away t.round)

pub record System : Type 0 where
  pub shared : Shared
  pub threads : ℕ → Thread

-- One of the first `n` threads moves.
pub data Step (n : ℕ) (s : System) : System → Type 0 where
  pick :
      (i : ℕ) {h : Shared} {t : Thread}
      → i < n
      → Move s.shared (s.threads i) h t
      → Step n s (record { shared = h; threads = update s.threads i t })

-- Threads that stand outside of the fence, all of them below `n` and different.
abbrev pub AreAway : (n : ℕ) → (ℕ → Thread) → List ℕ → Type 0
AreAway n ts [] = ℕ
AreAway n ts (j ∷ js) = (j < n) × ((ts j).pc ≡ away) × (count j js ≡ 0) × AreAway n ts js

-- They are at work from now on.
unfoldable pub enrol : List ℕ → (era : ℕ) → (ℕ → Thread) → ℕ → Thread
enrol [] era ts = ts
enrol (j ∷ js) era ts = update (enrol js era ts) j (thread running era)

-- `startFence` by a thread at work, for the children `js` that it has spawned.
unfoldable pub started : List ℕ → System → System
unfolding enrol start_fence
started js s = record {
  shared = record s.shared { fence = start_fence (length js) s.shared.fence };
  threads = enrol js s.shared.era s.threads;
}

-- After `registerMaster`: thread 0 alone is counted.
abbrev pub init : System
init = record {
  shared = record {
    fence = record { maxthreads = 1; currthreads = 0; is_arrival_phase = true };
    era = 0;
  };
  threads = update (λ _. thread away 0) 0 (thread running 0);
}

-- The states that `n` threads reach; `early` counts the calls of `startFence` that came while threads
-- were still leaving the fence.
pub data Reach (n : ℕ) : (early : ℕ) → System → Type 0 where
  start : Reach n 0 init
  later : {early : ℕ} {s t : System} → Reach n early s → Step n s t → Reach n early t
  starts :
      {early : ℕ} {s : System} (i : ℕ) (js : List ℕ)
      → Reach n early s
      → i < n
      → (s.threads i).pc ≡ running
      → AreAway n s.threads js
      → Reach n (if s.shared.fence.is_arrival_phase then early else early + 1) (started js s)
