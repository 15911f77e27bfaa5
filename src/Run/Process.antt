-- ===== src/Run/Process.antt =====
-- How a process begins in src/include/xrun.h, when the memory is protected, and `kill`.
use dthreads.Base.{
  ℕ, ◌+◌, ◌*◌, ◌/◌, ◌%◌, ◌^◌, true, false, List, [], ◌∷◌, ◌++◌, ◌==◌, ◌||◌, if◌then◌else◌,
}
use dthreads.Run.{Call, Run, atomic_begin, atomic_end, with_token, cancel_with}

-- `initialize`, by the first process.
unfoldable pub initialize : Run × List Call
initialize = (
  record {
    fence_enabled = false;
    children_threads_count = 0;
    lock_count = 0;
    token_holding = false;
    protection_enabled = false;
  },
  Call.initialize_memory
      ∷ Call.set_thread_index 0
      ∷ Call.initialize_determ
      ∷ Call.initialize_bitmap
      ∷ Call.register_master 0
      ∷ [],
)

unfoldable pub open_memory_protection : Run → Run × List Call
open_memory_protection r =
    if r.protection_enabled
    then (r, [])
    else (record r { protection_enabled = true }, Call.open_protection ∷ [])

unfoldable pub close_memory_protection : Run → Run × List Call
close_memory_protection r = (record r { protection_enabled = false }, Call.close_protection ∷ [])

-- `increment_and_return` of src/include/xatomic.h, on the lower half of the word.
unfoldable pub increment_and_return : ℕ → ℕ × ℕ
increment_and_return word = (word % 2 ^ 32, (word / 2 ^ 32) * 2 ^ 32 + (word + 1) % 2 ^ 32)

-- `childRegister`: a child has the flags of its parent, but for those set here. The first value is
-- its index, the second the next index.
unfoldable pub child_register : (next_index : ℕ) → Run → ℕ × ℕ × Run × List Call
unfolding increment_and_return
child_register next_index r =
    let (index, next_index) = increment_and_return next_index in
    (
      index,
      next_index,
      record r { lock_count = 0; token_holding = false; fence_enabled = true },
      Call.register_thread index ∷ Call.set_thread_index index ∷ Call.cleanup_owned_blocks ∷ [],
    )

-- `closeFence`: with the flags, the index that the next thread gets.
unfoldable pub close_fence : Run → ℕ × Run
close_fence r = (1, record r { fence_enabled = false; children_threads_count = 0 })

-- `kill`: after `cancel` it goes on with the rest.
unfoldable pub kill_with : (sig : ℕ) → Run → Run × List Call
unfolding cancel_with with_token atomic_begin atomic_end
kill_with sig r =
    let cancelled = if sig == 9 || sig == 15 then (cancel_with r).1 else [] in
    (r, cancelled ++ with_token (atomic_end false r ++ (Call.kill_thread ∷ atomic_begin true r)) r)
