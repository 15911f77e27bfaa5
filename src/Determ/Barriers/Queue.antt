-- ===== src/Determ/Barriers/Queue.antt =====
-- `barrier_wait` of src/include/determ.h: who waits, and what the last thread does for all.
use dthreads.Base.{
  ℕ, ◌+◌, ◌≤◌, ◌<◌, ◌≡◌, ◌≢◌, refl, true, false, some, List, [], ◌∷◌, ◌++◌, arith, count,
  count-append, length, length-append, ==_self, ==_ne, eq_or_ne, inl, inr,
}
use dthreads.Base.Maps.{update}
use dthreads.Links.{Ptr, null, load_next}
use dthreads.Links.Chain.{IsRing, IsRing-frame, Chain-ends, first}
use dthreads.Links.Insert.{insert_tail-IsRing}
use dthreads.Links.Move.{move_whole_list-IsRing}
use dthreads.Links.Remove.{head_after, remove_entry-RemovedFrom}
use dthreads.Fence.{decr_fence, incr_fence, add64, dec64}
use dthreads.Determ.{barr_waiting, Determ, entry_at, index_of, max_threads}
use dthreads.Determ.Sync.{get_sync_entry}
use dthreads.Determ.Barriers.{stop_at, release_all, barrier_wait}
use dthreads.Determ.Conds.Queue.{Apart}
use dthreads.Determ.Token.Exit.{named_at}
use dthreads.Determ.Token.Pass.{advanced-IsWell}
use dthreads.Determ.Token.Ring.{
  IsWell, leave-IsWell, move-IsWell, decr-maxthreads, next_of_holder, few,
}

-- `ws` are the threads that wait at the barrier whose entry is at `c`, in the order they came.
pub record IsWaited (d : Determ) (c : Ptr) (ws : List Ptr) : Type 0 where
  pub ring : IsRing d.links ws
  pub head : (d.barriers c).head ≡ first ws
  pub threads : (d.barriers c).threads ≡ length ws
  pub short : length ws < (d.barriers c).maxthreads
  pub bounded : (d.barriers c).maxthreads ≤ max_threads
  pub inside : (a : ℕ) → max_threads < a → count a ws ≡ 0
  pub named : (a : ℕ) → 0 < count a ws → (d.entries (index_of a)).threadindex ≡ index_of a

-- A thread that is not the last: it is out of the ring and the last of those that wait, the token is
-- at the next thread and the fence counts one less.
pub stop_at-IsWaited :
    {d : Determ} (i : ℕ) (c x : Ptr) (rest ws : List Ptr) (owed : ℕ)
    → IsWell d (entry_at i ∷ x ∷ rest) owed
    → IsWaited d c ws
    → Apart (entry_at i ∷ x ∷ rest) ws
    → 0 < d.fence.maxthreads
    → i < max_threads
    → length ws + 1 < (d.barriers c).maxthreads
    → (d' : Determ) × (stop_at i c d ≡ some d')
      × IsWell d' (x ∷ rest) owed
      × IsWaited d' c (ws ++ (entry_at i ∷ []))
unfolding stop_at load_next
stop_at-IsWaited {d} i c x rest ws owed w q apart counted l more =
    let t = entry_at i in
    let (m1, run, ring, same, kept) =
      remove_entry-RemovedFrom d.links t (x ∷ rest) d.activelist w.ring in
    let queue1 = IsRing-frame (t ∷ x ∷ rest) ws same (λ a. omega (arith, apart a)) q.ring in
    let out : count t ws ≡ 0 = ground (arith, apart t) in
    let (m2, run2, queue2, same2) = insert_tail-IsRing t ws queue1 out (omega arith) in
    let ring2 =
      IsRing-frame (ws ++ (t ∷ [])) (x ∷ rest) same2
        (λ a. omega (arith, apart a, count-append a ws (t ∷ []))) ring in
    let d' = record d {
      links = m2;
      activelist = head_after t d.activelist (x ∷ rest);
      barriers = update d.barriers c (record (d.barriers c) {
        head = first (ws ++ (t ∷ []));
        threads = add64 (d.barriers c).threads 1;
      });
      entries = update d.entries i (record (d.entries i) { status = barr_waiting; barrier = c });
      fence = decr_fence d.fence;
      tokenpos = x;
    } in
    (
      d',
      rw (next_of_holder t x rest owed w, run, q.head, run2, ==_ne t null (omega arith)),
      leave-IsWell t x rest owed w d' ring2 refl refl (λ j. ground arith)
          (decr-maxthreads t x rest owed w counted),
      record {
        ring = queue2;
        head = ground arith;
        threads = ground (arith, q.threads, q.bounded, length-append ws (t ∷ []));
        short = ground (arith, length-append ws (t ∷ []));
        bounded = ground (arith, q.bounded);
        inside = λ a p. ground (arith, q.inside a p, count-append a ws (t ∷ []));
        named = λ a p. elim (eq_or_ne (index_of a) i) [
          | inl e ↦ rw (e, ==_self i) (named_at i (x ∷ rest) owed w)
          | inr k ↦
              rw (==_ne (index_of a) i k)
                (q.named a (ground (arith, k, count-append a ws (t ∷ []))))
        ];
      },
    )

-- The last thread `i` to come: all that wait come right behind it in the ring, in the order they
-- came, the fence counts them again, the barrier is empty, and the token goes to the first of them,
-- or to the next thread of the ring if no one waited.
pub release_all-IsWell :
    {d : Determ} (i : ℕ) (c : Ptr) (rest ws : List Ptr) (owed : ℕ)
    → IsWell d (entry_at i ∷ rest) owed
    → IsWaited d c ws
    → Apart (entry_at i ∷ rest) ws
    → length ws + 1 ≡ (d.barriers c).maxthreads
    → (d' : Determ) × (release_all i c d ≡ some d')
      × IsWell d' ((ws ++ rest) ++ (entry_at i ∷ [])) owed
      × IsWaited d' c []
      × (d'.entries ≡ d.entries)
unfolding release_all load_next incr_fence
release_all-IsWell {d} i c rest ws owed w q apart last =
    let t = entry_at i in
    let (m', run, ring, same) =
      move_whole_list-IsRing d.links [] t ws rest w.ring q.ring (λ a. omega (arith, apart a)) in
    let moved = record d {
      links = m';
      fence = incr_fence (dec64 (d.barriers c).maxthreads) d.fence;
      barriers = update d.barriers c (record (d.barriers c) { head = null; threads = 0 });
      bitmap_cur = 1;
    } in
    let joined =
      move-IsWell t ws rest owed w moved ring q.inside w.token refl (λ j. refl) q.named
        (omega (arith, q.bounded, last, w.counted, few owed w)) in
    (
      record moved { tokenpos = first ((ws ++ rest) ++ (t ∷ [])) },
      rw (
        w.token,
        q.head,
        run,
        ==_ne t null (omega arith),
        (Chain-ends m' t (ws ++ rest) ring.linked).1,
      ),
      advanced-IsWell t (ws ++ rest) owed joined,
      record {
        ring = record { linked = tt; distinct = λ a. omega arith; solid = refl };
        head = ground arith;
        threads = ground arith;
        short = ground (arith, q.short);
        bounded = ground (arith, q.bounded);
        inside = λ a p. refl;
        named = λ a p. absurd (omega arith);
      },
      refl,
    )

-- `barrier_wait` by the token holder `i`, with others active, on a barrier that has been made, for at
-- most 2048 threads, while more threads are to come: the caller does not go on; it is out
-- of the ring and the last of those that wait, the token is at the next thread `x` and the fence
-- counts one less.
pub barrier_wait-stops :
    {d : Determ} (bar : Ptr) (i : ℕ) (x : Ptr) (rest ws : List Ptr) (owed : ℕ)
    → get_sync_entry bar d ≢ null
    → IsWell d (entry_at i ∷ x ∷ rest) owed
    → IsWaited d (get_sync_entry bar d) ws
    → Apart (entry_at i ∷ x ∷ rest) ws
    → 0 < d.fence.maxthreads
    → i < max_threads
    → length ws + 1 < (d.barriers (get_sync_entry bar d)).maxthreads
    → (d' : Determ) × (barrier_wait bar i d ≡ some (d', false))
      × IsWell d' (x ∷ rest) owed
      × IsWaited d' (get_sync_entry bar d) (ws ++ (entry_at i ∷ []))
unfolding barrier_wait get_sync_entry
barrier_wait-stops {d} bar i x rest ws owed found w q apart counted l more =
    let (d', run, w', q') =
      stop_at-IsWaited i (d.sync bar) x rest ws owed w q apart counted l more in
    (
      d',
      rw (
        ==_ne (d.sync bar) null found,
        ==_ne (add64 (d.barriers (d.sync bar)).threads 1) (d.barriers (d.sync bar)).maxthreads
            (omega (arith, q.threads, q.bounded, more)),
        run,
      ),
      w',
      q',
    )

-- `barrier_wait` by the token holder `i`, the last to come to a barrier that has been made, for at most
-- 2048 threads: the caller goes on; all that wait come right
-- behind it in the ring, in the order they came, the fence counts them again, the barrier is empty
-- for its next use, and the token goes to the first of them, or to the next thread of the ring if no
-- one waited. The entries of the threads are as before.
pub barrier_wait-releases :
    {d : Determ} (bar : Ptr) (i : ℕ) (rest ws : List Ptr) (owed : ℕ)
    → get_sync_entry bar d ≢ null
    → IsWell d (entry_at i ∷ rest) owed
    → IsWaited d (get_sync_entry bar d) ws
    → Apart (entry_at i ∷ rest) ws
    → length ws + 1 ≡ (d.barriers (get_sync_entry bar d)).maxthreads
    → (d' : Determ) × (barrier_wait bar i d ≡ some (d', true))
      × IsWell d' ((ws ++ rest) ++ (entry_at i ∷ [])) owed
      × IsWaited d' (get_sync_entry bar d) []
      × (d'.entries ≡ d.entries)
unfolding barrier_wait get_sync_entry
barrier_wait-releases {d} bar i rest ws owed found w q apart last =
    let (d', run, w', q', same) = release_all-IsWell i (d.sync bar) rest ws owed w q apart last in
    let reached : add64 (d.barriers (d.sync bar)).threads 1 ≡ (d.barriers (d.sync bar)).maxthreads =
      omega (arith, q.threads, q.bounded, last) in
    (
      d',
      rw (
        ==_ne (d.sync bar) null found,
        reached,
        ==_self (d.barriers (d.sync bar)).maxthreads,
        run,
      ),
      w',
      q',
      same,
    )
