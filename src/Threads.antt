-- ===== src/Threads.antt =====
-- src/include/xthread.h and src/source/xthread.cpp: threads that are processes. Each has a page of its own
-- that it shares with its parent, and whose address the program takes for the thread.
pub mod Join
pub mod Kill
mod Tests
use dthreads.Base.{
  ℕ, zero, suc, Bool, true, false, Option, none, some, List, [], ◌∷◌, ◌==◌, ◌||◌, if◌then◌else◌,
  ◌>>=◌,
}
use dthreads.Base.Maps.{update}

pub record ThreadStatus : Type 0 where
  pub tid : ℕ
  pub thread_index : ℕ
  pub retval : ℕ

-- The pages by their addresses, and which of them the process that spawns, joins and kills still has
-- in its own address space; a thread keeps its page when another gives it up. `sent` is what `kill` has
-- been called with, the last call first.
pub record Objects : Type 0 where
  pub pages : ℕ → ThreadStatus
  pub mapped : ℕ → Bool
  pub sent : List (ℕ × ℕ)

-- An access to a page that is not mapped ends the process in `segvHandle`, which is `none`.
unfoldable pub read_status : (v : ℕ) → Objects → Option ThreadStatus
read_status v o = if o.mapped v then some (o.pages v) else none

-- `allocateSharedObject` and `freeSharedObject`; `v` is what `mmap` returns.
unfoldable pub allocate_shared_object : (v : ℕ) → Objects → Objects
allocate_shared_object v o = record o {
  pages = update o.pages v (record { tid = 0; thread_index = 0; retval = 0 });
  mapped = update o.mapped v true;
}

unfoldable pub free_shared_object : (v : ℕ) → Objects → Objects
free_shared_object v o = record o { mapped = update o.mapped v false }

-- `spawn`: the parent has the page; what the child does with it follows.
unfoldable pub spawn : (v : ℕ) → Objects → ℕ × Objects
unfolding allocate_shared_object
spawn v o = (v, allocate_shared_object v o)

-- The child in `forkSpawn`, after it has registered.
unfoldable pub child_starts : (v pid index : ℕ) → Objects → Objects
child_starts v pid index o = record o {
  pages = update o.pages v (record (o.pages v) { tid = pid; thread_index = index });
}

-- The store at the end of `run_thread`.
unfoldable pub child_ends : (v result : ℕ) → Objects → Objects
child_ends v result o = record o {
  pages = update o.pages v (record (o.pages v) { retval = result });
}

-- What `run_thread` does in turn: it runs the function of the thread, it calls `threadDeregister`,
-- which lets the joiner go on, and it stores the result.
pub data Act : Type 0 where
  runs deregisters stores : Act

abbrev pub run_thread : List Act
run_thread = runs ∷ deregisters ∷ stores ∷ []

-- The thread does the first `k` acts of a list; the Boolean says whether the joiner may go on.
unfoldable pub perform : List Act → (k v result : ℕ) → Objects × Bool → Objects × Bool
unfolding child_ends
perform [] k v result s = s
perform (a ∷ acts) zero v result s = s
perform (runs ∷ acts) (suc k) v result (o, free) = perform acts k v result (o, free)
perform (deregisters ∷ acts) (suc k) v result (o, free) = perform acts k v result (o, true)
perform (stores ∷ acts) (suc k) v result (o, free) =
    perform acts k v result (child_ends v result o, free)

unfoldable pub get_thread_index : (v : ℕ) → Objects → Option ℕ
unfolding read_status
get_thread_index v o = do t ← read_status v o; some t.thread_index

unfoldable pub get_thread_pid : (v : ℕ) → Objects → Option ℕ
unfolding read_status
get_thread_pid v o = do t ← read_status v o; some t.tid

-- `join`; `wanted` is whether the caller has given a place for the result.
unfoldable pub join : (v : ℕ) (wanted : Bool) → Objects → Option (ℕ × Objects)
unfolding read_status free_shared_object
join v true o = do t ← read_status v o; some (t.retval, free_shared_object v o)
join v false o = some (0, free_shared_object v o)

-- `thread_kill`, and `cancel`, which sends SIGKILL.
unfoldable pub thread_kill : (v sig : ℕ) → Objects → Option (ℕ × Objects)
unfolding read_status free_shared_object
thread_kill v sig o = do
  t ← read_status v o
  some (t.thread_index, free_shared_object v (record o { sent = (t.tid, sig) ∷ o.sent }))

abbrev pub sigkill : ℕ
sigkill = 9

abbrev pub sigterm : ℕ
sigterm = 15

unfoldable pub cancel : (v : ℕ) → Objects → Option (ℕ × Objects)
unfolding thread_kill
cancel v o = thread_kill v sigkill o

-- What `kill` of src/include/xrun.h does with the page: after `cancel` it goes on.
unfoldable pub kill : (v sig : ℕ) → Objects → Option (ℕ × Objects)
unfolding cancel thread_kill
kill v sig o =
    if sig == sigkill || sig == sigterm
    then (do (index, o) ← cancel v o; thread_kill v sig o)
    else thread_kill v sig o
