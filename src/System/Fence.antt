-- ===== src/System/Fence.antt =====
-- What the threads of src/include/xrun.h have done to the memory when each has committed once after a fence.
use dthreads.Base.{
  ℕ, ◌+◌, ◌%◌, ◌^◌, ◌≤◌, ◌<◌, ◌≡◌, ◌∙◌, refl, sym, some, List, [], length, count, append-nil, arith,
}
use dthreads.Links.{Ptr}
use dthreads.Persist.{Bytes, page_size}
use dthreads.Persist.Pages.{Shared}
use dthreads.Persist.Commit.Twins.{IsSound}
use dthreads.Determ.Token.Ring.{IsWell}
use dthreads.System.{Act, Thread, World, take_turns}
use dthreads.System.Local.{Unowned}
use dthreads.System.Publication.{
  publish_all, writers, all_entries, Standing, AreBegun, AreReady, indices, take_turns-IsPublished,
}

-- The shared state at a fence, when the threads have come there and none has committed.
pub record IsGathered {L : Type 0} (ts : List (Thread L × L)) (s : Shared) : Type 0 where
  pub users : (n : ℕ) → s.users n ≡ writers ts n
  pub few : (n : ℕ) → writers ts n < 2 ^ 16
  pub versions : (n : ℕ) → s.versions n < 2 ^ 64
  pub free : Unowned s
  pub no_twin : (n : ℕ) → s.bitmap_index n ≡ 0
  pub solid : 0 < s.bitmap.cur
  pub room : s.bitmap.cur + all_entries ts ≤ 3071

-- After a round of turns: the memory, the token, and the threads.
pub record IsRenewed {L : Type 0} (xs : List Ptr) (ts : List (Thread L × L)) (w w' : World L)
    : Type 0 where
  pub token : w'.determ ≡ w.determ
  pub page :
      (n j : ℕ)
      → j < page_size
      → w'.shared.persistent n j
        ≡ publish_all ts n j (w.shared.persistent n j) (w.shared.persistent n j)
  pub users : (n : ℕ) → w'.shared.users n ≡ 0
  pub versions : (n : ℕ) → w'.shared.versions n ≡ (w.shared.versions n + writers ts n) % 2 ^ 64
  pub free : Unowned w'.shared
  pub no_twin : (n : ℕ) → w'.shared.bitmap_index n ≡ 0
  pub sound : IsSound w'.shared
  pub cur : w'.shared.bitmap.cur ≤ w.shared.bitmap.cur + all_entries ts
  pub begun : AreBegun w'.threads xs ts
  pub others : (i : ℕ) → count i (indices xs) ≡ 0 → w'.threads i ≡ w.threads i

-- The turns between two fences always succeed, and have one outcome, which is that of the threads setting
-- their bytes one after the other. If all the threads of the ring have come to the fence, with entries
-- of the current versions, one for each page, and the users of each page are the threads with an
-- entry for it, no page has an owner or a twin page, and there are enough indices of twin pages, then
-- as many turns as there are threads all commit. Each byte is then that of the last thread, in the
-- order of the token, that has written to the page and whose own byte differs from the one at the fence,
-- or else the one at the fence. The token is where it was; each page has no user, no owner and no twin page,
-- and its version counts the commits; each thread goes on, has no entry, and reads the pages that it
-- had written to from the shared memory; and no thread outside of the ring has changed.
pub take_turns-IsRenewed :
    {L : Type 0} (code : L → (ℕ → Bytes) → Act L) (xs : List Ptr) (ts : List (Thread L × L))
    (owed : ℕ) (w : World L)
    → IsWell w.determ xs owed
    → Standing w.threads xs ts
    → AreReady code w.shared.versions ts
    → IsGathered ts w.shared
    → (w' : World L) × (take_turns code (length xs) w ≡ some w') × IsRenewed xs ts w w'
take_turns-IsRenewed code xs ts owed w ring st r g =
    let (w', run, k) =
      take_turns-IsPublished code w.shared.persistent w.shared.versions xs [] ts (λ _. 0) owed w
        (rw append-nil ring) st r
        (record { solid = g.solid; given = λ n. omega (arith, g.no_twin n, g.solid) }) g.room
        (λ n. record {
          users = g.users n;
          few = omega (arith, g.few n);
          start = g.versions n;
          version = omega (arith, g.versions n);
          owner = g.free n;
          before = λ z j l. refl;
          twin = λ x. absurd (x (g.no_twin n));
          made = λ z. absurd (omega (arith, z));
          over = λ z. g.no_twin n;
        }) in
    (
      w',
      run,
      record {
        token = k.ring ∙ (λ i. record w.determ { tokenpos = sym ring.token i });
        page = k.page;
        users = λ n. (k.pending n).users;
        versions = λ n. omega (arith, (k.pending n).version);
        free = λ n. (k.pending n).owner;
        no_twin = λ n. (k.pending n).over refl;
        sound = k.sound;
        cur = k.cur;
        begun = k.begun;
        others = k.others;
      },
    )
