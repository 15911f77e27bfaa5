-- ===== src/Determ/Conds/Broadcast.antt =====
-- `cond_broadcast` of src/include/determ.h: the whole queue comes next in the ring, in its order.
use dthreads.Base.{
  ℕ, ◌<◌, ◌≡◌, ◌≢◌, ◌∙◌, refl, some, List, [], ◌∷◌, ◌++◌, arith, count, length, ==_ne, eq_or_ne,
  inl, inr,
}
use dthreads.Base.Maps.{update}
use dthreads.Links.{Ptr, null, Links, load_next, move_whole_list}
use dthreads.Links.Chain.{Chain}
use dthreads.Links.Move.{move_whole_list-IsRing}
use dthreads.Fence.{incr_fence}
use dthreads.Determ.{ready, ThreadEntry, Determ, index_of, set_entry}
use dthreads.Determ.Conds.{set_ready, broadcast_on}
use dthreads.Determ.Conds.Queue.{IsQueue, Apart, few_waiters}
use dthreads.Determ.Token.Ring.{IsWell, move-IsWell, few}

-- The entries after those of the list have become ready.
ready_all : List Ptr → (ℕ → ThreadEntry) → ℕ → ThreadEntry
ready_all [] es = es
ready_all (s ∷ ws) es =
    ready_all ws (update es (index_of s) (record (es (index_of s)) { cond = null; status = ready }))

set_ready-all :
    (d : Determ) (s : Ptr) (ws : List Ptr) (b : Ptr)
    → Chain d.links s ws b
    → count null (s ∷ ws) ≡ 0
    → set_ready (length (s ∷ ws)) s d ≡ some (record d { entries = ready_all (s ∷ ws) d.entries })
unfolding set_ready load_next ready_all
set_ready-all d s [] b c solid = rw (==_ne s null (ground (arith, solid)))
set_ready-all d s (x ∷ ws) b c solid =
    rw (==_ne s null (ground (arith, solid)), c.0)
      (set_ready-all
        (set_entry (index_of s) (record (d.entries (index_of s)) { cond = null; status = ready }) d)
        x ws b c.2 (ground (arith, solid)))

ready_all-threadindex :
    (ws : List Ptr) (es : ℕ → ThreadEntry) (i : ℕ)
    → (ready_all ws es i).threadindex ≡ (es i).threadindex
unfolding ready_all
ready_all-threadindex [] es i = refl
ready_all-threadindex (s ∷ ws) es i =
    ready_all-threadindex ws
      (update es (index_of s) (record (es (index_of s)) { cond = null; status = ready })) i
    ∙ ground arith

ready_all-kept :
    (ws : List Ptr) (es : ℕ → ThreadEntry) (i : ℕ)
    → (es i).status ≡ ready
    → (ready_all ws es i).status ≡ ready
unfolding ready_all
ready_all-kept [] es i h = h
ready_all-kept (s ∷ ws) es i h = ready_all-kept ws _ i (ground arith)

ready_all-status :
    (ws : List Ptr) (es : ℕ → ThreadEntry) (a : Ptr)
    → 0 < count a ws
    → (ready_all ws es (index_of a)).status ≡ ready
unfolding ready_all
ready_all-status [] es a h = absurd (omega arith)
ready_all-status (s ∷ ws) es a h = elim (eq_or_ne a s) [
  | inl e ↦ ready_all-kept ws _ (index_of a) (ground arith)
  | inr n ↦ ready_all-status ws _ a (ground arith)
]

-- The run of `cond_broadcast` when someone waits, from those of its two loops.
broadcast_run :
    (c : Ptr) (d : Determ) (es : ℕ → ThreadEntry) (m' : Links)
    → (d.conds c).waiters ≢ 0
    → set_ready (d.conds c).waiters (d.conds c).head d ≡ some (record d { entries = es })
    → move_whole_list d.tokenpos (d.conds c).head d.links ≡ some (null, m')
    → broadcast_on c d
      ≡ some (record d {
        links = m';
        entries = es;
        fence = incr_fence (d.conds c).waiters d.fence;
        conds = update d.conds c (record (d.conds c) { head = null; waiters = 0 });
      })
unfolding broadcast_on
broadcast_run c d es m' some_wait h0 h1 = rw (==_ne (d.conds c).waiters 0 some_wait, h0, h1)

-- `cond_broadcast` by the holder `t` of the token: all that wait, in the order of their waits, come
-- right behind `t` in the ring and are ready; the queue is empty, and the fence counts that many
-- more.
pub broadcast_on-IsQueue :
    {d : Determ} (c t : Ptr) (rest ws : List Ptr) (owed : ℕ)
    → IsWell d (t ∷ rest) owed
    → IsQueue d c ws
    → Apart (t ∷ rest) ws
    → (d' : Determ) × (broadcast_on c d ≡ some d')
      × IsWell d' (t ∷ (ws ++ rest)) owed
      × IsQueue d' c []
      × ((a : Ptr) → 0 < count a ws → (d'.entries (index_of a)).status ≡ ready)
unfolding broadcast_on incr_fence
broadcast_on-IsQueue {d} c t rest [] owed w q apart =
    (d, rw q.waiters, w, q, λ a p. absurd (omega arith))
broadcast_on-IsQueue {d} c t rest (s ∷ ws) owed w q apart =
    let (m', run, ring, same) =
      move_whole_list-IsRing d.links [] t (s ∷ ws) rest w.ring q.ring
        (λ a. omega (arith, apart a)) in
    let d' = record d {
      links = m';
      entries = ready_all (s ∷ ws) d.entries;
      fence = incr_fence (d.conds c).waiters d.fence;
      conds = update d.conds c (record (d.conds c) { head = null; waiters = 0 });
    } in
    let ready_run = set_ready-all d s ws s q.ring.linked q.ring.solid in
    (
      d',
      broadcast_run c d (ready_all (s ∷ ws) d.entries) m' (ground (arith, q.waiters))
          (rw (q.waiters, q.head) ready_run) (rw (w.token, q.head) run),
      move-IsWell t (s ∷ ws) rest owed w d' ring q.inside w.token refl
          (ready_all-threadindex (s ∷ ws) d.entries) q.named
          (omega (arith, q.waiters, w.counted, few owed w, few_waiters (s ∷ ws) q)),
      record {
        ring = record { linked = tt; distinct = λ a. omega arith; solid = refl };
        head = ground arith;
        waiters = ground arith;
        inside = λ a p. refl;
        named = λ a p. absurd (omega arith);
        asleep = λ a p. absurd (omega arith);
      },
      ready_all-status (s ∷ ws) d.entries,
    )
