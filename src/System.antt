-- ===== src/System.antt =====
-- The parts together, as src/include/xrun.h runs them: between two fences each process runs the program
-- on its own pages, and then the holder of the token commits and puts the token. The program is a
-- parameter. A page fault is a step of its own; the store that caused it is made again after it.
pub mod Local
pub mod Schedule
pub mod Rounds
pub mod Turns
pub mod Publication
pub mod Fence
pub mod Gather
pub mod Tracking
pub mod Waiting
pub mod Round
mod Tests
use dthreads.Base.{
  ℕ, zero, suc, ◌+◌, Bool, true, false, Option, none, some, List, [], ◌∷◌, ◌==◌, ltb, if◌then◌else◌,
  ◌>>=◌,
}
use dthreads.Base.Maps.{update}
use dthreads.Persist.{Bytes}
use dthreads.Persist.Pages.{
  Access, access_none, access_read, access_write, Protection, prot_none, prot_read, prot_write,
  PageInfo, Shared, Process, local_page, handle_write,
}
use dthreads.Persist.Commit.{checkandcommit, update_all}
use dthreads.Persist.Entries.{PageEntries, alloc_entry, cleanup_entries}
use dthreads.Determ.{Determ, token_index}
use dthreads.Determ.Token.{put_token}

-- What a program does next: it stores a byte, goes on by itself, or waits to synchronise.
pub data Act (L : Type 0) : Type 0 where
  store : (page_no offset value : ℕ) → L → Act L
  compute : L → Act L
  synchronise : L → Act L

-- A process that runs the program. `pages` is the page of each entry of `xpageentry`, `held` what the
-- entry had in `release` before this transaction.
pub record Thread (L : Type 0) : Type 0 where
  pub here : L
  pub process : Process
  pub entries : PageEntries
  pub pages : ℕ → ℕ
  pub held : ℕ → Bool
  pub aborted : Bool

pub record World (L : Type 0) : Type 0 where
  pub threads : ℕ → Thread L
  pub shared : Shared
  pub determ : Determ

module _ {L : Type 0} where
  -- A page fault on a page that the process can at least read, given what `alloc` returns; the process
  -- that finds no entry aborts, and has counted itself among the users by then.
  unfoldable pub fault_with :
      Option (ℕ × PageEntries) → (page_no : ℕ) → Thread L → Shared → Thread L × Shared
  unfolding handle_write
  fault_with none page_no t s =
      (record t { aborted = true }, (handle_write page_no true false t.process s).1)
  fault_with (some (index, entries)) page_no t s =
      let r = handle_write page_no true (t.held index) t.process s in
      (record t { process = r.0; entries = entries; pages = update t.pages index page_no }, r.1)

  unfoldable pub fault : Access → (page_no : ℕ) → Thread L → Shared → Thread L × Shared
  unfolding fault_with handle_write alloc_entry
  fault access_none page_no t s =
      let r = handle_write page_no true false t.process s in (record t { process = r.0 }, r.1)
  fault access_read page_no t s = fault_with (alloc_entry t.entries) page_no t s
  fault access_write page_no t s = fault_with (alloc_entry t.entries) page_no t s

  unfoldable pub store_byte :
      Protection → (page_no offset value : ℕ) → L → Thread L → Shared → Thread L × Shared
  unfolding fault
  store_byte prot_write page_no offset value next t s = (
    record t {
      here = next;
      process = record t.process {
        copies =
            update t.process.copies page_no
              (some (update (local_page page_no t.process s) offset value));
      };
    },
    s,
  )
  store_byte prot_read page_no offset value next t s =
      fault (t.process.page_info page_no) page_no t s
  store_byte prot_none page_no offset value next t s =
      fault (t.process.page_info page_no) page_no t s

  unfoldable pub act : Act L → Thread L → Shared → Thread L × Shared
  unfolding store_byte
  act (store page_no offset value next) t s =
      store_byte (t.process.protection page_no) page_no offset value next t s
  act (compute next) t s = (record t { here = next }, s)
  act (synchronise next) t s = (t, s)

-- What an entry has in `release` after the transaction; a page has one entry, since its first fault
-- makes it writable.
unfoldable pub release_of : (page_no : ℕ) (before : Bool) → List PageInfo → Bool
release_of page_no before [] = before
release_of page_no before (e ∷ es) =
    if e.page_no == page_no then e.release else release_of page_no before es

module _ {L : Type 0} where
  -- A thread that has committed begins its next transaction: `atomicBegin(true)`.
  unfoldable pub begin_next : L → (committed : Process) → Thread L → Thread L
  unfolding update_all cleanup_entries release_of
  begin_next next p t = record t {
    here = next;
    process = update_all true p;
    entries = cleanup_entries t.entries;
    held = λ k. if ltb k t.entries.cur then release_of (t.pages k) (t.held k) p.dirty else t.held k;
  }

  -- Where a thread goes on that has come to the fence; another has not, and is not let through.
  unfoldable pub arrived : (aborted : Bool) → Act L → Option L
  arrived true a = none
  arrived false (store page_no offset value next) = none
  arrived false (compute next) = none
  arrived false (synchronise next) = some next

module _ {L : Type 0} (code : L → (ℕ → Bytes) → Act L) where
  -- One step of a thread: what it does depends on where it is and on the pages as it reads them.
  unfoldable pub run_step : Thread L → Shared → Thread L × Shared
  unfolding act
  run_step t s = if t.aborted then (t, s) else act (code t.here (λ n. local_page n t.process s)) t s

  unfoldable pub run_thread : (i : ℕ) → World L → World L
  run_thread i w =
      let r = run_step (w.threads i) w.shared in
      record w { threads = update w.threads i r.0; shared = r.1 }

  -- The threads run in the order of the schedule.
  unfoldable pub run_schedule : List ℕ → World L → World L
  unfolding run_thread
  run_schedule [] w = w
  run_schedule (i ∷ is) w = run_schedule is (run_thread i w)

  -- The holder of the token commits, puts the token, and begins its next transaction, as in
  -- `mutex_unlock`.
  unfoldable pub take_turn : World L → Option (World L)
  unfolding arrived begin_next
  take_turn w = do
    i ← token_index w.determ
    let t = w.threads i
    next ← arrived t.aborted (code t.here (λ n. local_page n t.process w.shared))
    (p, s) ← checkandcommit false t.process w.shared
    (d, wrong) ← put_token i w.determ
    some (record { threads = update w.threads i (begin_next next p t); shared = s; determ = d })

  -- `k` holders of the token in turn.
  unfoldable pub take_turns : (k : ℕ) → World L → Option (World L)
  unfolding take_turn
  take_turns zero w = some w
  take_turns (suc k) w = do w' ← take_turn w; take_turns k w'

  -- The whole run: between two fences the threads run by a schedule, and then `k` of them commit.
  unfoldable pub run_rounds : List (List ℕ × ℕ) → World L → Option (World L)
  unfolding run_schedule take_turns
  run_rounds [] w = some w
  run_rounds ((is, k) ∷ rs) w = do w' ← take_turns k (run_schedule is w); run_rounds rs w'
