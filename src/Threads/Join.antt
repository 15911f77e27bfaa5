-- ===== src/Threads/Join.antt =====
-- What a thread leaves for the one that joins it, in src/source/xthread.cpp.
use dthreads.Base.{ℕ, zero, suc, ◌≡◌, ◌≢◌, ltb, Bool, true, false, some, arith, refl}
use dthreads.Base.Maps.{update}
use dthreads.Threads.{
  Objects, spawn, child_starts, child_ends, perform, run_thread, join, get_thread_index,
}

-- The pages of the parent when the thread has done `k` of the acts of `run_thread`, and whether a joiner
-- may go on.
abbrev pub joinable : (v pid index result k : ℕ) → Objects → Objects × Bool
joinable v pid index result k o =
    perform run_thread k v result (child_starts v pid index (spawn v o).1, false)

-- A page of the thread, as a joiner finds it once it may go on.
abbrev pub Joined : (v index : ℕ) (wanted : Bool) (value : ℕ) (o found : Objects) → Type 0
Joined v index wanted value o found =
    (get_thread_index v found ≡ some index)
    × (o' : Objects) × (join v wanted found ≡ some (value, o'))
    × (o'.mapped v ≡ false)
    × ((u : ℕ) → u ≢ v → (o'.mapped u ≡ o.mapped u) × (o'.pages u ≡ o.pages u))

early :
    (v pid index : ℕ) (o : Objects)
    → Joined v index true 0 o (child_starts v pid index (spawn v o).1)
unfolding spawn child_starts join get_thread_index
early v pid index o = (
  ground arith,
  record (child_starts v pid index (spawn v o).1) {
    mapped = update (update o.mapped v true) v false;
  },
  ground arith,
  ground arith,
  λ u d. (ground (arith, d), ground (arith, d)),
)

late :
    (v pid index result : ℕ) (o : Objects)
    → Joined v index true result o (child_ends v result (child_starts v pid index (spawn v o).1))
unfolding spawn child_starts child_ends join get_thread_index
late v pid index result o = (
  ground arith,
  record (child_ends v result (child_starts v pid index (spawn v o).1)) {
    mapped = update (update o.mapped v true) v false;
  },
  ground arith,
  ground arith,
  λ u d. (ground (arith, d), ground (arith, d)),
)

-- A thread may be joined as soon as `run_thread` has done two of its three acts, and not before; the
-- joiner reads NULL then, and the result of the thread only when it has done all three. In both cases
-- it reads the index of the thread, gives up the page, and touches no other page.
pub spawn-join :
    (v pid index result : ℕ) (o : Objects)
    → ((k : ℕ) → (joinable v pid index result k o).1 ≡ ltb 1 k)
      × Joined v index true 0 o (joinable v pid index result 2 o).0
      × ((k : ℕ)
          → Joined v index true result o (joinable v pid index result (suc (suc (suc k))) o).0)
unfolding perform
spawn-join v pid index result o = (may_join, early v pid index o, λ k. late v pid index result o)
  where
    may_join : (k : ℕ) → (joinable v pid index result k o).1 ≡ ltb 1 k
    may_join zero = refl
    may_join (suc zero) = refl
    may_join (suc (suc zero)) = refl
    may_join (suc (suc (suc k))) = ground arith
