-- ===== src/Determ/Conds/Queue.antt =====
-- The queue of a condition variable in src/include/determ.h, and `cond_wait`.
use dthreads.Base.{
  ℕ, ◌+◌, ◌≤◌, ◌<◌, ◌≡◌, ◌≢◌, refl, false, some, List, [], ◌∷◌, ◌++◌, arith, count, count-append,
  length, length-append, ==_self, ==_ne, eq_or_ne, inl, inr,
}
use dthreads.Base.Maps.{update}
use dthreads.Links.{Ptr, null, Links, load_next}
use dthreads.Links.Chain.{IsRing, IsRing-frame, first}
use dthreads.Links.Insert.{insert_tail-IsRing}
use dthreads.Links.Remove.{head_after, remove_entry-RemovedFrom}
use dthreads.Fence.{decr_fence, add64}
use dthreads.Determ.{cond_waiting, Determ, entry_at, index_of, max_threads}
use dthreads.Determ.Sync.{get_sync_entry}
use dthreads.Determ.Locks.{lock_release, release}
use dthreads.Determ.Conds.{wait_on}
use dthreads.Determ.Token.Exit.{named_at}
use dthreads.Determ.Token.Ring.{IsWell, leave-IsWell, decr-maxthreads, next_of_holder, length-le}

-- `ws` is the queue of the condition variable whose entry is at `c`, in the order of the waits.
pub record IsQueue (d : Determ) (c : Ptr) (ws : List Ptr) : Type 0 where
  pub ring : IsRing d.links ws
  pub head : (d.conds c).head ≡ first ws
  pub waiters : (d.conds c).waiters ≡ length ws
  pub inside : (a : ℕ) → max_threads < a → count a ws ≡ 0
  pub named : (a : ℕ) → 0 < count a ws → (d.entries (index_of a)).threadindex ≡ index_of a
  pub asleep : (a : ℕ) → 0 < count a ws → (d.entries (index_of a)).status ≡ cond_waiting

-- No thread is both in the ring and in the queue.
abbrev pub Apart : List Ptr → List Ptr → Type 0
Apart ts ws = (a : ℕ) → count a ts + count a ws ≤ 1

pub few_waiters : {d : Determ} {c : Ptr} (ws : List Ptr) → IsQueue d c ws → length ws ≤ max_threads
few_waiters ws q = length-le max_threads ws q.ring.distinct q.ring.solid q.inside

pub index_of-injective : (a b : ℕ) → a ≢ null → b ≢ null → index_of a ≡ index_of b → a ≡ b
index_of-injective a b p q e = omega arith

-- The state after `cond_wait` has given the lock back, with the links `m'` and the heads.
abbrev asleep_on : (i : ℕ) (c entry : Ptr) (active head next : Ptr) → Links → Determ → Determ
asleep_on i c entry active head next m' d = record d {
  links = m';
  activelist = active;
  conds =
      update d.conds c (record (d.conds c) { head = head; waiters = add64 (d.conds c).waiters 1 });
  entries = update d.entries i (record (d.entries i) { cond = c; status = cond_waiting });
  fence = decr_fence d.fence;
  tokenpos = next;
  locks = update d.locks entry (release (d.locks entry));
}

-- The queue of that state has the new thread at its end.
asleep_on-IsQueue :
    {d : Determ} (i : ℕ) (c entry active next : Ptr) (ws : List Ptr) (m' : Links)
    → IsQueue d c ws
    → IsRing m' (ws ++ (entry_at i ∷ []))
    → i < max_threads
    → (d.entries i).threadindex ≡ i
    → IsQueue
        (asleep_on i c entry active (first (ws ++ (entry_at i ∷ []))) next m' d)
        c
        (ws ++ (entry_at i ∷ []))
asleep_on-IsQueue {d} i c entry active next ws m' q ring l n =
    let t = entry_at i in
    let back : index_of (entry_at i) ≡ i = omega arith in
    record {
      ring = ring;
      head = ground arith;
      waiters = ground (arith, q.waiters, few_waiters ws q, length-append ws (t ∷ []));
      inside = λ a p. ground (arith, q.inside a p, count-append a ws (t ∷ []));
      named = λ a p. elim (eq_or_ne (index_of a) i) [
        | inl e ↦ rw (e, ==_self i) n
        | inr k ↦
            rw (==_ne (index_of a) i k)
              (q.named a (ground (arith, k, back, count-append a ws (t ∷ []))))
      ];
      asleep = λ a p. elim (eq_or_ne (index_of a) i) [
        | inl e ↦ rw (e, ==_self i)
        | inr k ↦
            rw (==_ne (index_of a) i k)
              (q.asleep a (ground (arith, k, back, count-append a ws (t ∷ []))))
      ];
    }

-- `cond_wait` by the holder of the token, with others active, no thread both active and waiting, and a
-- mutex that has an entry: the caller is out of the ring and last
-- in the queue, asleep; the token is at the next thread; the fence counts one less; the lock that
-- came with the call is free.
pub wait_on-IsQueue :
    {d : Determ} (i : ℕ) (c thelock : Ptr) (x : Ptr) (rest ws : List Ptr) (owed : ℕ)
    → IsWell d (entry_at i ∷ x ∷ rest) owed
    → IsQueue d c ws
    → Apart (entry_at i ∷ x ∷ rest) ws
    → 0 < d.fence.maxthreads
    → i < max_threads
    → get_sync_entry thelock d ≢ null
    → (d' : Determ) × (wait_on i c thelock d ≡ some d')
      × IsWell d' (x ∷ rest) owed
      × IsQueue d' c (ws ++ (entry_at i ∷ []))
      × ((d'.locks (get_sync_entry thelock d)).is_acquired ≡ false)
unfolding wait_on lock_release load_next get_sync_entry
wait_on-IsQueue {d} i c thelock x rest ws owed w q apart counted l held =
    let t = entry_at i in
    let (m1, run, ring, same, kept) =
      remove_entry-RemovedFrom d.links t (x ∷ rest) d.activelist w.ring in
    let queue1 = IsRing-frame (t ∷ x ∷ rest) ws same (λ a. omega (arith, apart a)) q.ring in
    let out : count t ws ≡ 0 = ground (arith, apart t) in
    let (m2, run2, queue2, same2) = insert_tail-IsRing t ws queue1 out (omega arith) in
    let ring2 =
      IsRing-frame (ws ++ (t ∷ [])) (x ∷ rest) same2
        (λ a. omega (arith, apart a, count-append a ws (t ∷ []))) ring in
    let active = head_after t d.activelist (x ∷ rest) in
    let d' = asleep_on i c (d.sync thelock) active (first (ws ++ (t ∷ []))) x m2 d in
    (
      d',
      rw (
        next_of_holder t x rest owed w,
        run,
        q.head,
        run2,
        ==_ne t null (omega arith),
        ==_ne (d.sync thelock) null held,
      ),
      leave-IsWell t x rest owed w d' ring2 refl refl (λ j. ground arith)
          (decr-maxthreads t x rest owed w counted),
      asleep_on-IsQueue i c (d.sync thelock) active x ws m2 q queue2 l
          (named_at i (x ∷ rest) owed w),
      ground arith,
    )
