-- ===== src/Determ.antt =====
-- src/include/determ.h: the entries of threads, locks, condition variables and barriers, the ring of
-- active threads with the token, and the state that they share.
-- A thread entry is named by its address in `_entries`: that of index `i` is `i + 1`, and 0 is NULL.
-- `none` is an access through NULL or past the end of `_entries`.
pub mod Token
pub mod Sync
pub mod Locks
pub mod Cancel
pub mod Conds
pub mod Barriers
pub mod Spawn
pub mod Start
mod Tests
use dthreads.Base.{ℕ, ◌+◌, ◌-◌, Bool, Option, none, some, ◌==◌, ltb, if◌then◌else◌}
use dthreads.Base.Maps.{update}
use dthreads.Links.{Ptr, null, Links}
use dthreads.Fence.{Fence}

pub data ThreadStatus : Type 0 where
  cond_waiting barr_waiting ready exited joining : ThreadStatus

-- `prev` and `next` are in `Links`; `tid_parent` holds the index of the parent.
pub record ThreadEntry : Type 0 where
  pub tid : ℕ
  pub threadindex : ℕ
  pub status : ThreadStatus
  pub tid_parent : ℕ
  pub cond : Ptr
  pub barrier : Ptr
  pub wait : ℕ
  pub joinee_thread_index : ℕ

pub record LockEntry : Type 0 where
  pub total_users : ℕ
  pub last_thread : ℕ
  pub is_acquired : Bool
  pub lock_budget : ℕ

pub record CondEntry : Type 0 where
  pub waiters : ℕ
  pub cond : Ptr
  pub head : Ptr

pub record BarrierEntry : Type 0 where
  pub maxthreads : ℕ
  pub threads : ℕ
  pub arrival_phase : Bool
  pub orig_barr : Ptr
  pub head : Ptr

-- `sync` is the first word of each pthread object as the running process sees it, `shared_sync` the
-- same word of the shared mapping; `in_range` is the test of `xmemory::mem_write` for an address of
-- the heap or the globals. `locks`, `conds` and `barriers` are the entries of the internal heap.
pub record Determ : Type 0 where
  pub fence : Fence
  pub links : Links
  pub entries : ℕ → ThreadEntry
  pub activelist : Ptr
  pub tokenpos : Ptr
  pub alivethreads : ℕ
  pub childregistered : Bool
  pub condnum : ℕ
  pub barriernum : ℕ
  pub bitmap_cur : ℕ
  pub sync : Ptr → Ptr
  pub shared_sync : Ptr → Ptr
  pub in_range : Ptr → Bool
  pub locks : Ptr → LockEntry
  pub conds : Ptr → CondEntry
  pub barriers : Ptr → BarrierEntry

abbrev pub max_threads : ℕ
max_threads = 2048

-- The address of an entry of `_entries`, and the index of an address.
abbrev pub entry_at : ℕ → Ptr
entry_at i = i + 1

abbrev pub index_of : Ptr → ℕ
index_of p = p - 1

-- `_tokenpos->threadindex`.
unfoldable pub token_index : Determ → Option ℕ
token_index d =
    if d.tokenpos == null then none else some (d.entries (index_of d.tokenpos)).threadindex

abbrev pub set_entry : ℕ → ThreadEntry → Determ → Determ
set_entry i e d = record d { entries = update d.entries i e }

abbrev pub set_status : ℕ → ThreadStatus → Determ → Determ
set_status i s d = set_entry i (record (d.entries i) { status = s }) d

-- `allocThreadEntry`: `&_entries[threadindex]`, whose `assert` is compiled out.
unfoldable pub alloc_thread_entry : ℕ → Option Ptr
alloc_thread_entry threadindex =
    if ltb threadindex max_threads then some (entry_at threadindex) else none

-- `freeThreadEntry`.
unfoldable pub free_thread_entry : ℕ → Determ → Determ
free_thread_entry i d = set_status i ThreadStatus.exited d

-- `isSingleWorkingThread` and `isSingleAliveThread`.
unfoldable pub is_single_working_thread : Determ → Bool
is_single_working_thread d = d.fence.maxthreads == 1
