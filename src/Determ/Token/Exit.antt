-- ===== src/Determ/Token/Exit.antt =====
-- The thread that holds the token leaves the ring of src/include/determ.h: `deregisterThread`,
-- `join` of a thread that still runs, and `sigwait`.
use dthreads.Base.{
  ℕ, ◌+◌, ◌^◌, ◌<◌, ◌≡◌, ◌≢◌, ◌∙◌, subst, refl, Bool, true, false, ◌&&◌, some, List, ◌∷◌, arith,
  count, ◌==◌, ==_self, ==_ne,
}
use dthreads.Base.Maps.{update}
use dthreads.Links.{Ptr, null, load_next}
use dthreads.Links.Remove.{head_after, remove_entry-RemovedFrom}
use dthreads.Fence.{decr_fence, dec64}
use dthreads.Determ.{exited, joining, Determ, entry_at, index_of, free_thread_entry, token_index}
use dthreads.Determ.Token.{
  is_joining, is_exited, deregister_thread, join_enter, join_pass, sig_wait_enter,
}
use dthreads.Determ.Token.Ring.{HeadIn, IsWell, leave-IsWell, decr-maxthreads, next_of_holder}

-- The body of the loop of `join`, when the caller still has the token and others are active.
pub join_pass-holder :
    (e : Determ) (i : ℕ) (t x : Ptr)
    → token_index e ≡ some i
    → e.tokenpos ≡ t
    → t ≢ null
    → e.links.next t ≡ x
    → e.activelist ≢ null
    → join_pass i e ≡ some (record e { fence = decr_fence e.fence; tokenpos = x })
unfolding join_pass load_next
join_pass-holder e i t x o p n q a =
    rw (o, p, ==_ne t null n, q, ==_self i, ==_ne e.activelist null a)

token_index-entry :
    (e : Determ) (i : ℕ)
    → e.tokenpos ≡ entry_at i
    → (e.entries i).threadindex ≡ i
    → token_index e ≡ some i
unfolding token_index
token_index-entry e i p n =
    let q : index_of (entry_at i) ≡ i = omega arith in
    rw (p, ==_ne (entry_at i) null (omega arith), q, n)

-- The entry of the holder of the token carries its index.
pub named_at :
    {d : Determ} (i : ℕ) (rest : List Ptr) (owed : ℕ)
    → IsWell d (entry_at i ∷ rest) owed
    → (d.entries i).threadindex ≡ i
named_at {d} i rest owed w =
    let q : index_of (entry_at i) ≡ i = omega arith in
    subst (λ z. (d.entries z).threadindex ≡ z) q (w.named (entry_at i) (ground arith))

HeadIn-solid :
    (h : Ptr) (xs : List Ptr) (x : Ptr) → HeadIn h (x ∷ xs) → count null (x ∷ xs) ≡ 0 → h ≢ null
HeadIn-solid h xs x p s = ground arith

-- The parent waits in `join` for thread `i`.
abbrev pub is_awaited : Determ → ℕ → Bool
is_awaited d i =
    let parent = d.entries (d.entries i).tid_parent in
    is_joining parent.status && (parent.joinee_thread_index == i)

module _ {d : Determ} (i : ℕ) (x : Ptr) (rest : List Ptr) (owed : ℕ)
    (w : IsWell d (entry_at i ∷ x ∷ rest) owed) (counted : 0 < d.fence.maxthreads) where
  -- `deregisterThread` by the holder of the token, while other threads are active and the fence counts
  -- some, whose parent does not wait for it: the thread is out of the ring and marked as exited, the
  -- token is at the next thread, the fence and the number of threads alive count one less.
  pub deregister_thread-IsWell :
      0 < d.alivethreads
      → d.alivethreads < 2 ^ 64
      → is_awaited d i ≡ false
      → (d' : Determ) × (deregister_thread i d ≡ some d')
        × IsWell d' (x ∷ rest) owed
        × ((d'.entries i).status ≡ exited)
        × (d'.alivethreads + 1 ≡ d.alivethreads)
  unfolding deregister_thread load_next
  deregister_thread-IsWell alive bound free =
      let (m', run, ring, same, kept) =
        remove_entry-RemovedFrom d.links (entry_at i) (x ∷ rest) d.activelist w.ring in
      let d' = free_thread_entry i (record d {
        links = m';
        alivethreads = dec64 d.alivethreads;
        fence = decr_fence d.fence;
        activelist = head_after (entry_at i) d.activelist (x ∷ rest);
        tokenpos = x;
      }) in
      (
        d',
        rw (
          free,
          next_of_holder (entry_at i) x rest owed w,
          run,
          ==_ne (entry_at i) null (omega arith),
          ==_ne d.alivethreads 0 (omega arith),
        ),
        leave-IsWell (entry_at i) x rest owed w d' ring refl refl (λ j. ground arith)
            (decr-maxthreads (entry_at i) x rest owed w counted),
        ground arith,
        omega arith,
      )

  -- `join` by the holder of the token of a thread that still runs: the caller is out of the ring,
  -- marked as joining that thread, the token is at the next thread, the fence counts one less, and
  -- the caller waits.
  join_enter-IsWell :
      (guest : ℕ)
      → guest ≢ i
      → is_exited (d.entries guest).status ≡ false
      → (d' : Determ) × (join_enter guest i d ≡ some (d', true))
        × IsWell d' (x ∷ rest) owed
        × ((d'.entries i).status ≡ joining)
        × ((d'.entries i).joinee_thread_index ≡ guest)
  unfolding join_enter
  join_enter-IsWell guest ne runs =
      let (m', run, ring, same, kept) =
        remove_entry-RemovedFrom d.links (entry_at i) (x ∷ rest) d.activelist w.ring in
      let e = record d {
        links = m';
        activelist = head_after (entry_at i) d.activelist (x ∷ rest);
        entries =
            update d.entries i
              (record (d.entries i) { status = joining; joinee_thread_index = guest });
      } in
      let d' = record e { fence = decr_fence d.fence; tokenpos = x } in
      let well =
        leave-IsWell (entry_at i) x rest owed w d' ring refl refl (λ j. ground arith)
          (decr-maxthreads (entry_at i) x rest owed w counted) in
      let pass =
        join_pass-holder e i (entry_at i) x
          (token_index-entry e i w.token (ground (arith, named_at i (x ∷ rest) owed w))) w.token
          (omega arith) (kept ∙ next_of_holder (entry_at i) x rest owed w)
          (HeadIn-solid _ rest x well.head ring.solid) in
      (d', rw (runs, run, pass), well, ground arith, ground arith)

  -- `sigwait` by the holder of the token: out of the ring, the token at the next thread.
  pub sig_wait_enter-IsWell :
      (d' : Determ) × (sig_wait_enter i d ≡ some d') × IsWell d' (x ∷ rest) owed
  unfolding sig_wait_enter load_next
  sig_wait_enter-IsWell =
      let (m', run, ring, same, kept) =
        remove_entry-RemovedFrom d.links (entry_at i) (x ∷ rest) d.activelist w.ring in
      let d' = record d {
        links = m';
        activelist = head_after (entry_at i) d.activelist (x ∷ rest);
        fence = decr_fence d.fence;
        tokenpos = x;
      } in
      (
        d',
        rw (next_of_holder (entry_at i) x rest owed w, run, ==_ne (entry_at i) null (omega arith)),
        leave-IsWell (entry_at i) x rest owed w d' ring refl refl (λ j. ground arith)
            (decr-maxthreads (entry_at i) x rest owed w counted),
      )
