-- ===== src/Run.antt =====
-- src/include/xrun.h: what each pthread operation of a thread calls, in order, of `determ` and
-- `xmemory`, and the flags that it keeps. The calls are values, so that their order can be checked;
-- what the code learns from `determ` is an argument.
pub mod Mutex
pub mod Discipline
pub mod Touch
pub mod Process
pub mod Api
mod Tests
use dthreads.Base.{
  ℕ, zero, suc, ◌+◌, ◌-◌, ◌%◌, ◌^◌, Bool, true, false, not, ◌&&◌, Option, none, some, List, [], ◌∷◌,
  ◌++◌, ◌==◌, if◌then◌else◌,
}
use dthreads.Fence.{add64, dec64}

pub data Call : Type 0 where
  wait_token put_token wait_fence : Call
  commit begin final_commit : Bool → Call
  start_fence : ℕ → Call
  notify_children : Call
  lock_isowner lock_acquire lock_release : Call
  cond_wait cond_signal cond_broadcast barrier_wait deregister cancel : Call
  join : Bool → Call
  sig_wait : Call
  open_protection close_protection spawn_thread join_thread cancel_thread kill_thread : Call
  initialize_memory initialize_determ initialize_bitmap cleanup_owned_blocks : Call
  register_master register_thread set_thread_index : ℕ → Call
  init_object destroy_object : Call
  -- The program itself runs, between two calls of the library; whether what it writes stays private.
  program : Bool → Call

-- The static fields of `xrun` that a process has of its own.
pub record Run : Type 0 where
  pub fence_enabled : Bool
  pub children_threads_count : ℕ
  pub lock_count : ℕ
  pub token_holding : Bool
  pub protection_enabled : Bool

-- `atomicBegin` and `atomicEnd`.
unfoldable pub atomic_begin : (cleanup : Bool) → Run → List Call
atomic_begin cleanup r = if r.protection_enabled then begin cleanup ∷ [] else []

unfoldable pub atomic_end : (update : Bool) → Run → List Call
atomic_end update r = if r.protection_enabled then commit update ∷ [] else []

unfoldable pub start_fence_call : Run → Run × List Call
start_fence_call r = (
  record r { children_threads_count = 0; fence_enabled = true },
  start_fence r.children_threads_count ∷ [],
)

-- Before `lock_acquire`, a thread that does not hold the token gets it.
unfoldable pub take_token : Run → List Call
unfolding atomic_begin atomic_end
take_token r =
    if r.token_holding then [] else wait_token ∷ (atomic_end false r ++ atomic_begin true r)

-- A thread that was refused the lock lets the others go on first.
unfoldable pub give_way : Run → List Call
unfolding atomic_begin atomic_end
give_way r = atomic_end false r ++ (put_token ∷ (atomic_begin true r ++ (wait_fence ∷ [])))

-- The code from `getLockAgain` on, when `lock_acquire` refuses the lock `refusals` times.
unfoldable pub get_lock_again : (refusals : ℕ) → Run → Run × List Call
unfolding take_token give_way
get_lock_again zero r = (record r { token_holding = true }, take_token r ++ (lock_acquire ∷ []))
get_lock_again (suc refusals) r =
    let rest = get_lock_again refusals (record r { token_holding = false }) in
    (rest.0, take_token r ++ (lock_acquire ∷ (give_way r ++ rest.1)))

-- `mutex_lock` past its test of the fence. `owned` is what `lock_isowner` or else
-- `isSingleWorkingThread` answers.
unfoldable pub lock_with : (owned : Bool) (refusals : ℕ) → Run → Run × List Call
unfolding get_lock_again
lock_with true zero r = (r, lock_acquire ∷ [])
lock_with true (suc refusals) r =
    let rest = get_lock_again refusals r in (rest.0, lock_acquire ∷ rest.1)
lock_with false refusals r = get_lock_again refusals r

unfoldable pub count_lock : Run → Run
count_lock r = record r { lock_count = add64 r.lock_count 1 }

unfoldable pub mutex_lock : (owned : Bool) (refusals : ℕ) → Run → Run × List Call
unfolding count_lock lock_with start_fence_call
mutex_lock owned refusals r =
    if r.fence_enabled
    then (let rest = lock_with owned refusals (count_lock r) in (rest.0, lock_isowner ∷ rest.1))
    else if r.children_threads_count == 0
    then (r, [])
    else (let started = start_fence_call r in
        let rest = lock_with owned refusals (count_lock started.0) in
        (rest.0, started.1 ++ (notify_children ∷ lock_isowner ∷ rest.1)))

unfoldable pub mutex_unlock : Run → Run × List Call
unfolding atomic_begin atomic_end
mutex_unlock r =
    if not r.fence_enabled
    then (r, [])
    else let r = record r { lock_count = dec64 r.lock_count } in
      if (r.lock_count == 0) && r.token_holding
      then (
        record r { token_holding = false },
        lock_release
            ∷ (atomic_end false r ++ (put_token ∷ (atomic_begin true r ++ (wait_fence ∷ [])))),
      )
      else (r, lock_release ∷ [])

-- What the operations on condition variables do with the token of a caller who does not hold it.
unfoldable pub with_token : List Call → Run → List Call
with_token calls r =
    if r.token_holding then calls else wait_token ∷ (calls ++ (put_token ∷ wait_fence ∷ []))

unfoldable pub signal_call : Call → Run → Run × List Call
unfolding atomic_begin atomic_end with_token
signal_call call r =
    if not r.fence_enabled
    then (r, [])
    else (r, with_token (atomic_end false r ++ (call ∷ atomic_begin true r)) r)

-- `cond_signal`, `cond_broadcast`, `cond_wait`.
unfoldable pub signal : Run → Run × List Call
unfolding signal_call
signal r = signal_call cond_signal r

unfoldable pub broadcast : Run → Run × List Call
unfolding signal_call
broadcast r = signal_call cond_broadcast r

unfoldable pub wait : Run → Run × List Call
unfolding atomic_begin atomic_end
wait r = (r, atomic_end false r ++ (cond_wait ∷ atomic_begin true r))

-- `barrier_wait`.
unfoldable pub barrier : Run → Run × List Call
unfolding atomic_end start_fence_call
barrier r =
    if r.fence_enabled
    then (r, wait_token ∷ (atomic_end false r ++ (barrier_wait ∷ [])))
    else if r.children_threads_count == 0
    then (r, [])
    else (let started = start_fence_call r in
        (
          started.0,
          started.1 ++ (notify_children ∷ wait_token ∷ (atomic_end false r ++ (barrier_wait ∷ []))),
        ))

-- `sig_wait`; `failed` is whether `sigwait` did not return 0.
unfoldable pub signal_wait : (failed : Bool) → Run → Run × List Call
unfolding atomic_begin atomic_end
signal_wait failed r = (
  r,
  wait_token ∷ (atomic_end false r ++ (sig_wait ∷ (if failed then [] else atomic_begin true r))),
)

-- `threadDeregister`.
unfoldable pub thread_deregister : Run → Run × List Call
unfolding atomic_end
thread_deregister r =
    (r, wait_token ∷ final_commit false ∷ (atomic_end false r ++ (deregister ∷ [])))

-- `spawn`.
unfoldable pub spawn : Run → Run × List Call
unfolding atomic_begin atomic_end
spawn r =
    let opened = record r { protection_enabled = true } in
    let opening = if r.protection_enabled then [] else open_protection ∷ atomic_begin true opened in
    let token = if r.fence_enabled then wait_token ∷ [] else [] in
    let children = if r.fence_enabled then 0 else r.children_threads_count in
    (
      record opened { fence_enabled = false; children_threads_count = add64 children 1 },
      opening
          ++ (atomic_end false opened
              ++ (final_commit true ∷ (token ++ (spawn_thread ∷ atomic_begin true opened)))),
    )

-- `join`; `valid` is whether the argument is not NULL, `alone` what `isSingleAliveThread` answers.
unfoldable pub join_with : (valid alone : Bool) → Run → Run × List Call
unfolding atomic_begin atomic_end start_fence_call
join_with valid alone r =
    if not valid
    then (r, [])
    else let started = if r.fence_enabled then (r, []) else start_fence_call r in
      let token = if r.fence_enabled then wait_token ∷ [] else [] in
      let calls =
        token
        ++ (atomic_end false r
            ++ (final_commit true
                ∷ (started.1
                    ++ (join (not r.fence_enabled)
                        ∷ put_token
                        ∷ join_thread
                        ∷ wait_fence
                        ∷ atomic_begin true r)))) in
      if alone
      then (
        record started.0 {
          protection_enabled = false;
          fence_enabled = false;
          children_threads_count = 0;
        },
        calls ++ (close_protection ∷ []),
      )
      else (started.0, calls)

-- `cancel`: its test of `isFound` comes before the only assignment to it.
unfoldable pub cancel_with : Run → Run × List Call
unfolding atomic_begin atomic_end with_token
cancel_with r =
    (r, with_token (atomic_end false r ++ (atomic_begin true r ++ (cancel_thread ∷ cancel ∷ []))) r)
