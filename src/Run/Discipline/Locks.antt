-- ===== src/Run/Discipline/Locks.antt =====
-- `mutex_lock` of src/include/xrun.h keeps to the order of the calls.
use dthreads.Base.{
  ℕ, zero, suc, ◌+◌, ◌%◌, ◌^◌, ==_ne, arith, ◌≡◌, refl, sym, subst, Bool, true, false, some,
}
use dthreads.Run.{
  Run, get_lock_again, take_token, give_way, atomic_begin, atomic_end, lock_with, mutex_lock,
  count_lock, start_fence_call,
}
use dthreads.Run.Discipline.{monitor, Pends, Pends-self, Leads, InOrder, flags}

get_lock_again-monitor :
    (k : ℕ) (f : Bool) (c l : ℕ) (h p q : Bool)
    → Pends q p
    → (b : Bool) × (monitor (get_lock_again k (flags f c l h p)).1 (h, q) ≡ some (true, b))
      × Pends b p
unfolding monitor get_lock_again take_token give_way atomic_begin atomic_end
get_lock_again-monitor zero f c l true p q e = (q, refl, e)
get_lock_again-monitor zero f c l false true q e = (false, refl, refl)
get_lock_again-monitor zero f c l false false false e = (false, refl, refl)
get_lock_again-monitor zero f c l false false true e = (true, refl, e)
get_lock_again-monitor (suc k) f c l true true q e =
    get_lock_again-monitor k f c l false true false refl
get_lock_again-monitor (suc k) f c l true false false e =
    get_lock_again-monitor k f c l false false false refl
get_lock_again-monitor (suc k) f c l true false true e = absurd (cc e)
get_lock_again-monitor (suc k) f c l false true q e =
    get_lock_again-monitor k f c l false true false refl
get_lock_again-monitor (suc k) f c l false false false e =
    get_lock_again-monitor k f c l false false false refl
get_lock_again-monitor (suc k) f c l false false true e = absurd (cc e)

pub get_lock_again-flags :
    (k : ℕ) (r : Run) → (get_lock_again k r).0 ≡ record r { token_holding = true }
unfolding get_lock_again
get_lock_again-flags zero r = refl
get_lock_again-flags (suc k) r = get_lock_again-flags k (record r { token_holding = false })

get_lock_again-InOrder : (k : ℕ) (r : Run) → InOrder r (get_lock_again k r)
get_lock_again-InOrder k r =
    subst (λ (x : Run). Leads r x.token_holding x.protection_enabled (get_lock_again k r).1)
      (sym (get_lock_again-flags k r))
      (get_lock_again-monitor k r.fence_enabled r.children_threads_count r.lock_count
        r.token_holding r.protection_enabled r.protection_enabled (Pends-self r.protection_enabled))

lock_with-InOrder : (owned : Bool) (k : ℕ) (r : Run) → InOrder r (lock_with owned k r)
unfolding lock_with monitor
lock_with-InOrder true zero r = (r.protection_enabled, refl, Pends-self r.protection_enabled)
lock_with-InOrder true (suc k) r = get_lock_again-InOrder k r
lock_with-InOrder false k r = get_lock_again-InOrder k r

mutex_lock-by :
    (owned : Bool) (k : ℕ) (f : Bool) (c l : ℕ) (h p : Bool)
    → InOrder (flags f c l h p) (mutex_lock owned k (flags f c l h p))
unfolding mutex_lock monitor count_lock start_fence_call
mutex_lock-by owned k true c l h p = lock_with-InOrder owned k (flags true c ((l + 1) % 2 ^ 64) h p)
mutex_lock-by owned k false zero l h p = (p, refl, Pends-self p)
mutex_lock-by owned k false (suc c) l h p =
    rw (==_ne (suc c) 0 (omega arith))
      (lock_with-InOrder owned k (flags true 0 ((l + 1) % 2 ^ 64) h p))

-- `mutex_lock` keeps to the order of the calls and to what `_token_holding` says, in every state of the
-- flags, whoever owns the lock and however often it is refused.
pub mutex_lock-InOrder :
    (owned : Bool) (refusals : ℕ) (r : Run) → InOrder r (mutex_lock owned refusals r)
mutex_lock-InOrder owned refusals r =
    mutex_lock-by owned refusals r.fence_enabled r.children_threads_count r.lock_count
      r.token_holding r.protection_enabled
