-- ===== src/Fence.antt =====
-- The internal fence of src/include/determ.h: `_maxthreads`, `_currthreads`, `_is_arrival_phase`
-- and the functions that change them under the mutex. A `size_t` wraps at 2 ^ 64.
pub mod Family
pub mod System
pub mod Invariant
pub mod Moves
pub mod Safety
mod Tests
use dthreads.Base.{ℕ, ◌+◌, ◌-◌, ◌%◌, ◌^◌, Bool, true, false, not, ◌&&◌, ◌==◌, leb, if◌then◌else◌}

pub record Fence : Type 0 where
  pub maxthreads : ℕ
  pub currthreads : ℕ
  pub is_arrival_phase : Bool

-- `size_t` addition and decrement.
abbrev pub add64 : ℕ → ℕ → ℕ
add64 a b = (a + b) % 2 ^ 64

abbrev pub dec64 : ℕ → ℕ
dec64 a = (a + (2 ^ 64 - 1)) % 2 ^ 64

-- `startFence`, without `_alivethreads`.
unfoldable pub start_fence : ℕ → Fence → Fence
start_fence threads f = record f {
  maxthreads = add64 f.maxthreads threads;
  is_arrival_phase = true;
}

unfoldable pub incr_fence : ℕ → Fence → Fence
incr_fence num f = record f { maxthreads = add64 f.maxthreads num }

unfoldable pub decr_fence : Fence → Fence
decr_fence f =
    let max = dec64 f.maxthreads in
    if leb max f.currthreads
    then record f {
      maxthreads = max;
      is_arrival_phase = if f.is_arrival_phase && not (max == 0) then false else f.is_arrival_phase;
    }
    else record f { maxthreads = max }

-- `waitFence` from the increment of `_currthreads` on, up to the wait for the end of the phase; the
-- second value says whether the caller was the last to arrive and does not wait.
unfoldable pub arrive : Fence → Fence × Bool
arrive f =
    let curr = add64 f.currthreads 1 in
    if leb f.maxthreads curr
    then (record f { currthreads = curr; is_arrival_phase = false }, true)
    else (record f { currthreads = curr }, false)

-- The end of `waitFence`, when the phase is over; the second value says whether the caller was the
-- last to leave, which is when the bitmap is cleaned up unless `keepBitmap`.
unfoldable pub leave : Fence → Fence × Bool
leave f =
    let curr = dec64 f.currthreads in
    if curr == 0
    then (record f { currthreads = curr; is_arrival_phase = true }, true)
    else (record f { currthreads = curr }, false)

-- The last thread to arrive does both under one hold of the mutex.
unfoldable pub arrive_last : Fence → Fence
unfolding arrive leave
arrive_last f = (leave (arrive f).0).0
