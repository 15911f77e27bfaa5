-- ===== src/System/Turns.antt =====
-- One turn of the whole system: the holder of the token commits its pages, puts the token and begins its
-- next transaction, in src/include/xrun.h.
use dthreads.Base.{
  ℕ, ◌+◌, ◌≤◌, ◌<◌, ◌≡◌, ◌≢◌, ◌∙◌, refl, Bool, false, none, some, List, [], ◌∷◌, ◌++◌, count,
  Distinct, length,
}
use dthreads.Base.Maps.{update}
use dthreads.Links.{Ptr}
use dthreads.Links.Chain.{first}
use dthreads.Persist.{Bytes}
use dthreads.Persist.Pages.{prot_read, PageInfo, Shared, Process, shared_page}
use dthreads.Persist.Commit.{checkandcommit, update_all, update_pages}
use dthreads.Persist.Commit.Twins.{IsSound}
use dthreads.Persist.Commit.Done.{pages_of}
use dthreads.Persist.Commit.Whole.{released}
use dthreads.Persist.Commit.Renew.{AreFresh, update_pages-IsRenewed}
use dthreads.Persist.Commit.Publish.{AreEntries, ArePending, Published, checkandcommit-Published}
use dthreads.Determ.{Determ, index_of, token_index}
use dthreads.Determ.Token.{put_token}
use dthreads.Determ.Token.Ring.{IsWell}
use dthreads.Determ.Token.Pass.{holder, put_token-IsWell}
use dthreads.System.{Act, synchronise, Thread, World, arrived, begin_next, take_turn}

-- A thread that waits at the fence and goes on at `next`, whose transaction began when the versions of the
-- pages were `vs`.
pub record IsReady {L : Type 0} (code : L → (ℕ → Bytes) → Act L) (vs : ℕ → ℕ) (t : Thread L)
    (next : L) : Type 0 where
  pub running : t.aborted ≡ false
  pub at_fence : (view : ℕ → Bytes) → code t.here view ≡ synchronise next
  pub mine : t.process.pid ≢ shared_page
  pub entries : AreEntries vs t.process.dirty
  pub pages : Distinct (pages_of t.process.dirty)

-- The thread in its next transaction: it reads every page that it had written to from the shared memory.
pub record IsBegun {L : Type 0} (t : Thread L) (next : L) (t' : Thread L) : Type 0 where
  pub here : t'.here ≡ next
  pub clean : t'.process.dirty ≡ []
  pub unused : t'.entries.cur ≡ 0
  pub dropped :
      (n : ℕ)
      → 0 < count n (pages_of t.process.dirty)
      → (t'.process.copies n ≡ none) × (t'.process.protection n ≡ prot_read)
  pub kept :
      (n : ℕ)
      → count n (pages_of t.process.dirty) ≡ 0
      → t'.process.protection n ≡ t.process.protection n

entries-AreFresh : (vs : ℕ → ℕ) (es : List PageInfo) → AreEntries vs es → AreFresh es
entries-AreFresh vs [] a = 0
entries-AreFresh vs (e ∷ es) (fresh, same, a) = (fresh, entries-AreFresh vs es a)

begin_next-IsBegun :
    {L : Type 0} (t : Thread L) (next : L) (p' : Process)
    → AreFresh t.process.dirty
    → p'.dirty ≡ released t.process.dirty
    → p'.protection ≡ t.process.protection
    → IsBegun t next (begin_next next p' t)
unfolding begin_next update_all
begin_next-IsBegun t next p' fresh d same = record {
  here = refl;
  clean = refl;
  unused = refl;
  dropped = λ n c.
      let h = (update_pages-IsRenewed t.process.dirty p' n fresh).dropped c in
      (
        (λ i. (update_pages (d i) p').copies n) ∙ h.0,
        (λ i. (update_pages (d i) p').protection n) ∙ h.1,
      );
  kept = λ n c.
      let h = (update_pages-IsRenewed t.process.dirty p' n fresh).kept c in
      (λ i. (update_pages (d i) p').protection n) ∙ h.1 ∙ (λ i. same i n);
}

module _ {L : Type 0} (code : L → (ℕ → Bytes) → Act L) where
  take_turn-run :
      (i : ℕ) (w : World L) (t : Thread L) (next : L) (p' : Process) (s' : Shared) (d' : Determ)
      (wrong : Bool)
      → w.threads i ≡ t
      → t.aborted ≡ false
      → ((view : ℕ → Bytes) → code t.here view ≡ synchronise next)
      → token_index w.determ ≡ some i
      → checkandcommit false t.process w.shared ≡ some (p', s')
      → put_token i w.determ ≡ some (d', wrong)
      → take_turn code w
        ≡ some (record {
          threads = update w.threads i (begin_next next p' t);
          shared = s';
          determ = d';
        })
  unfolding take_turn arrived
  take_turn-run i w t next p' s' d' wrong e running fence token commit put =
      rw (token, e, running, fence, commit, put) refl

  -- The turn of the holder `x` of the token, which is ready.
  pub take_turn-Published :
      (orig : ℕ → Bytes) (vs : ℕ → ℕ) (x : Ptr) (xs : List Ptr) (owed : ℕ) (w : World L)
      (t : Thread L) (next : L) (rest done : ℕ → ℕ)
      → IsWell w.determ (x ∷ xs) owed
      → w.threads (index_of x) ≡ t
      → IsReady code vs t next
      → IsSound w.shared
      → w.shared.bitmap.cur + length t.process.dirty ≤ 3071
      → ArePending orig vs (λ n. count n (pages_of t.process.dirty) + rest n) done w.shared
      → (t' : Thread L) × (s' : Shared) × (take_turn code w
          ≡ some (record {
            threads = update w.threads (index_of x) t';
            shared = s';
            determ = record w.determ { tokenpos = first (xs ++ (x ∷ [])) };
          }))
        × IsBegun t next t'
        × ((n : ℕ) → Published orig vs t.process rest done w.shared n s')
        × IsSound s'
        × (s'.bitmap.cur ≤ w.shared.bitmap.cur + length t.process.dirty)
  take_turn-Published orig vs x xs owed w t next rest done ring e r sound room h =
      let (p', s', commit, page, sound', cur, dirty, same_protection) =
        checkandcommit-Published orig vs t.process rest done w.shared r.mine sound room r.entries
          r.pages h in
      let (d', put, well, same) = put_token-IsWell x xs owed ring (index_of x) in
      (
        begin_next next p' t,
        s',
        take_turn-run (index_of x) w t next p' s' d' _ e r.running r.at_fence
              (holder x xs owed ring) commit put
            ∙ (λ i. some (record {
              threads = update w.threads (index_of x) (begin_next next p' t);
              shared = s';
              determ = same i;
            })),
        begin_next-IsBegun t next p' (entries-AreFresh vs t.process.dirty r.entries) dirty
            same_protection,
        page,
        sound',
        cur,
      )
