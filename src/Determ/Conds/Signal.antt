-- ===== src/Determ/Conds/Signal.antt =====
-- `cond_signal` of src/include/determ.h: the thread that has waited longest comes next in the ring.
use dthreads.Base.{
  ℕ, ◌≤◌, ◌≡◌, ◌≢◌, refl, some, List, [], ◌∷◌, arith, count, ==_self, ==_ne, eq_or_ne, inl, inr,
  dec_lt,
}
use dthreads.Base.Maps.{update}
use dthreads.Links.{Ptr, null, Links}
use dthreads.Links.Chain.{IsRing, IsRing-frame, first}
use dthreads.Links.Insert.{insert_head-IsRing}
use dthreads.Links.Remove.{remove_head_entry-IsRing}
use dthreads.Fence.{incr_fence, dec64}
use dthreads.Determ.{ready, Determ, index_of, max_threads}
use dthreads.Determ.Conds.{signal_on}
use dthreads.Determ.Conds.Queue.{IsQueue, Apart, few_waiters, index_of-injective}
use dthreads.Determ.Token.Ring.{IsWell, insert-IsWell, few}

-- The state after the thread at `s` has been woken, with the links `m'` and the rest of the queue.
abbrev woken : (c s head : Ptr) → Links → Determ → Determ
woken c s head m' d = record d {
  links = m';
  entries =
      update d.entries (index_of s)
        (record (d.entries (index_of s)) { cond = null; status = ready });
  fence = incr_fence 1 d.fence;
  conds =
      update d.conds c (record (d.conds c) { head = head; waiters = dec64 (d.conds c).waiters });
}

woken-IsQueue :
    {d : Determ} (c s : Ptr) (ws : List Ptr) (m' : Links)
    → IsQueue d c (s ∷ ws)
    → IsRing m' ws
    → IsQueue (woken c s (first ws) m' d) c ws
woken-IsQueue {d} c s ws m' q ring = record {
  ring = ring;
  head = ground arith;
  waiters = ground (arith, q.waiters, few_waiters (s ∷ ws) q);
  inside = λ a p. ground (arith, q.inside a p);
  named = λ a p. elim (eq_or_ne (index_of a) (index_of s)) [
    | inl e ↦ rw (e, ==_self (index_of s)) (q.named s (ground arith))
    | inr k ↦ rw (==_ne (index_of a) (index_of s) k) (q.named a (ground arith))
  ];
  asleep = λ a p. elim (eq_or_ne (index_of a) (index_of s)) [
    | inl e ↦
        let z =
          index_of-injective a s (ground (arith, q.ring.solid)) (ground (arith, q.ring.solid)) e in
        absurd (ground (arith, z, q.ring.distinct s))
    | inr k ↦ rw (==_ne (index_of a) (index_of s) k) (q.asleep a (ground arith))
  ];
}

-- `cond_signal` by the holder `t` of the token, with threads waiting: the first of the queue, and no
-- other, leaves it, is ready, and comes right behind `t` in the ring, so that it has the token next;
-- the fence counts one more.
pub signal_on-IsQueue :
    {d : Determ} (c t : Ptr) (rest : List Ptr) (s : Ptr) (ws : List Ptr) (owed : ℕ)
    → IsWell d (t ∷ rest) owed
    → IsQueue d c (s ∷ ws)
    → Apart (t ∷ rest) (s ∷ ws)
    → (d' : Determ) × (signal_on c d ≡ some d')
      × IsWell d' (t ∷ s ∷ rest) owed
      × IsQueue d' c ws
      × ((d'.entries (index_of s)).status ≡ ready)
      × ((j : ℕ) → j ≢ index_of s → d'.entries j ≡ d.entries j)
unfolding signal_on incr_fence
signal_on-IsQueue {d} c t rest s ws owed w q apart =
    let (m1, run1, queue1, same1) = remove_head_entry-IsRing d.links s ws q.ring in
    let ring1 = IsRing-frame (s ∷ ws) (t ∷ rest) same1 (λ a. omega (arith, apart a)) w.ring in
    let out : count s (t ∷ rest) ≡ 0 = ground (arith, apart s) in
    let (m2, run2, ins) = insert_head-IsRing [] t s rest ring1 out (ground (arith, q.ring.solid)) in
    let queue2 = IsRing-frame (t ∷ s ∷ rest) ws ins.1 (λ a. omega (arith, apart a)) queue1 in
    let d' = woken c s (first ws) m2 d in
    let small : s ≤ max_threads = elim (dec_lt max_threads s) [
      | yes p ↦ absurd (ground (arith, q.inside s p))
      | no p ↦ omega arith
    ] in
    (
      d',
      rw (==_ne (d.conds c).waiters 0 (ground (arith, q.waiters)), q.head, run1, w.token, run2),
      insert-IsWell t s rest owed owed w d' ins.0 small w.token refl (λ j. ground arith)
          (q.named s (ground arith)) (omega (arith, w.counted, few owed w)),
      woken-IsQueue c s ws m2 q queue2,
      ground arith,
      λ j n. ground arith,
    )
