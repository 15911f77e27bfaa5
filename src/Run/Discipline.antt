-- ===== src/Run/Discipline.antt =====
-- The order in which src/include/xrun.h must call: a thread commits and changes the state of `determ`
-- only with the token, gives away only a token that it has, waits at the fence only without it, and
-- neither gives the token away nor begins a transaction with writes that it has not committed.
pub mod Locks
pub mod Early
use dthreads.Base.{
  ℕ, zero, suc, ◌+◌, ◌%◌, ◌^◌, ◌==◌, ==_ne, arith, ◌≡◌, ◌∙◌, refl, sym, subst, inl, inr, Bool, true,
  false, Option, none, some, List, [], ◌∷◌, ◌++◌, if◌then◌else◌, ◌>>=◌, Bool-cases, ◌||◌,
}
use dthreads.Fence.{dec64}
use dthreads.Run.{
  Call, Run, get_lock_again, take_token, give_way, atomic_begin, atomic_end, lock_with, mutex_lock,
  count_lock, start_fence_call, signal_call, with_token, mutex_unlock, signal, broadcast, wait,
  barrier, spawn, thread_deregister, signal_wait, join_with,
}

-- What a thread knows of itself: whether it holds the token, and whether its pages may have writes that it
-- has not committed.
abbrev pub State : Type 0
State = Bool × Bool

-- Only with the token, and with no write that is not committed.
abbrev settled : State → (held : Bool) → Option State
settled (true, false) held = some (held, false)
settled _ held = none

-- Where a transaction may begin, since the private pages are dropped.
abbrev nothing_lost : State → Option State
nothing_lost (held, false) = some (held, false)
nothing_lost (held, true) = none

-- The state after a call; `none` is a call that is out of order.
abbrev after : Call → State → Option State
after Call.wait_token (held, pending) = if held then none else some (true, pending)
after Call.put_token s = settled s false
after Call.wait_fence (held, pending) = if held then none else nothing_lost (held, pending)
after (Call.commit update) (held, pending) = if held then some (true, false) else none
after (Call.final_commit release) (held, pending) = if held then some (true, pending) else none
after Call.cond_wait s = settled s true
after Call.cond_signal s = settled s true
after Call.cond_broadcast s = settled s true
after (Call.join wakeup) s = settled s true
after Call.cancel s = settled s true
after Call.spawn_thread s = settled s true
after Call.barrier_wait s = settled s false
after Call.deregister s = settled s false
after Call.sig_wait s = settled s false
after (Call.begin cleanup) s = nothing_lost s
after Call.open_protection s = nothing_lost s
after Call.close_protection s = nothing_lost s
after (Call.program private) (held, pending) = some (held, pending || private)
after (Call.start_fence threads) s = some s
after Call.notify_children s = some s
after Call.lock_isowner s = some s
after Call.lock_acquire s = some s
after Call.lock_release s = some s
after Call.join_thread s = some s
after Call.cancel_thread s = some s
after Call.kill_thread s = some s
after Call.initialize_memory s = some s
after Call.initialize_determ s = some s
after Call.initialize_bitmap s = some s
after Call.cleanup_owned_blocks s = some s
after (Call.register_master index) s = some s
after (Call.register_thread index) s = some s
after (Call.set_thread_index index) s = some s
after Call.init_object s = some s
after Call.destroy_object s = some s

-- The same after a list of calls.
unfoldable pub monitor : List Call → State → Option State
monitor [] s = some s
monitor (c ∷ cs) s = after c s >>= monitor cs

bind_assoc :
    (m : Option State) (f g : State → Option State) → (m >>= (λ b. f b >>= g)) ≡ (m >>= f >>= g)
bind_assoc none f g = refl
bind_assoc (some b) f g = refl

pub monitor-append :
    (xs ys : List Call) (s : State) → monitor (xs ++ ys) s ≡ (monitor xs s >>= monitor ys)
unfolding monitor
monitor-append [] ys s = refl
monitor-append (c ∷ cs) ys s =
    (λ i. after c s >>= (λ b. monitor-append cs ys b i))
    ∙ bind_assoc (after c s) (monitor cs) (monitor ys)

-- Writes that are not committed are left only where the memory is protected.
abbrev pub Pends : (pending private : Bool) → Type 0
Pends pending private = pending || private ≡ private

pub Pends-self : (b : Bool) → Pends b b
Pends-self true = refl
Pends-self false = refl

-- What a thread calls, from the token as it is and private writes pending, ends with the token as `held`
-- says, and with private writes only where the memory is protected.
abbrev pub Leads : (r : Run) (held private : Bool) → List Call → Type 0
Leads r held private calls =
    (b : Bool) × (monitor calls (r.token_holding, r.protection_enabled) ≡ some (held, b))
    × Pends b private

-- What a thread calls between two of its waits keeps to the order, when the program has written to its
-- pages before, and the flag `_token_holding` says whether it holds the token, before as after.
abbrev pub InOrder : Run → Run × List Call → Type 0
InOrder r (r', calls) = Leads r r'.token_holding r'.protection_enabled calls

abbrev pub flags : (f : Bool) (c l : ℕ) (h p : Bool) → Run
flags f c l h p = record {
  fence_enabled = f;
  children_threads_count = c;
  lock_count = l;
  token_holding = h;
  protection_enabled = p;
}

-- The other operations on a thread in any state that they may be called in.
signal_call-by :
    (call : Call) (f : Bool) (c l : ℕ) (h p : Bool)
    → after call (true, false) ≡ some (true, false)
    → InOrder (flags f c l h p) (signal_call call (flags f c l h p))
unfolding signal_call with_token monitor atomic_begin atomic_end
signal_call-by call false c l h p e = (p, refl, Pends-self p)
signal_call-by call true c l true true e = (false, rw e refl, refl)
signal_call-by call true c l true false e = (false, rw e refl, refl)
signal_call-by call true c l false true e = (false, rw e refl, refl)
signal_call-by call true c l false false e = (false, rw e refl, refl)

mutex_unlock-by :
    (f : Bool) (c l : ℕ) (h p : Bool) → InOrder (flags f c l h p) (mutex_unlock (flags f c l h p))
unfolding mutex_unlock monitor atomic_begin atomic_end
mutex_unlock-by false c l h p = (p, refl, Pends-self p)
mutex_unlock-by true c l true true = elim (Bool-cases (dec64 l == 0)) [
  | inl e ↦ rw e (false, refl, refl)
  | inr e ↦ rw e (true, refl, refl)
]
mutex_unlock-by true c l true false = elim (Bool-cases (dec64 l == 0)) [
  | inl e ↦ rw e (false, refl, refl)
  | inr e ↦ rw e (false, refl, refl)
]
mutex_unlock-by true c l false p = elim (Bool-cases (dec64 l == 0)) [
  | inl e ↦ rw e (p, refl, Pends-self p)
  | inr e ↦ rw e (p, refl, Pends-self p)
]

-- `mutex_unlock`, `cond_signal` and `cond_broadcast` keep to the order of the calls and to what
-- `_token_holding` says, in every state.
pub unlock_signal-InOrder :
    (r : Run) → InOrder r (mutex_unlock r) × InOrder r (signal r) × InOrder r (broadcast r)
unfolding signal broadcast
unlock_signal-InOrder r = (
  mutex_unlock-by r.fence_enabled r.children_threads_count r.lock_count r.token_holding
      r.protection_enabled,
  signal_call-by Call.cond_signal r.fence_enabled r.children_threads_count r.lock_count
      r.token_holding r.protection_enabled refl,
  signal_call-by Call.cond_broadcast r.fence_enabled r.children_threads_count r.lock_count
      r.token_holding r.protection_enabled refl,
)

-- The calls end with the token as `held` says, and with nothing left to commit.
abbrev pub Settles : (held private : Bool) → List Call → (end : Bool) → Type 0
Settles held private calls end = monitor calls (held, private) ≡ some (end, false)

wait-by : (f : Bool) (c l : ℕ) (p : Bool) → Settles true p (wait (flags f c l true p)).1 true
unfolding wait monitor atomic_begin atomic_end
wait-by f c l true = refl
wait-by f c l false = refl

abbrev Blocking : Bool → Run → Type 0
Blocking b r =
    Settles false r.protection_enabled (barrier r).1 false
    × Settles false r.protection_enabled (signal_wait b r).1 false
    × Settles false r.protection_enabled (thread_deregister r).1 false
    × Settles false r.protection_enabled (join_with true b r).1 false

Blocking-by : (c l : ℕ) (p b : Bool) → Blocking b (flags true c l false p)
unfolding barrier signal_wait thread_deregister join_with monitor atomic_begin atomic_end
Blocking-by c l true true = (refl, refl, refl, refl)
Blocking-by c l true false = (refl, refl, refl, refl)
Blocking-by c l false true = (refl, refl, refl, refl)
Blocking-by c l false false = (refl, refl, refl, refl)

-- `cond_wait` by a thread that holds the token keeps to the order of the calls, and it holds the
-- token again in the end.
pub wait-in_order :
    (r : Run) → r.token_holding ≡ true → Settles true r.protection_enabled (wait r).1 true
wait-in_order r h =
    subst (λ z. Settles true r.protection_enabled (wait (record r { token_holding = z })).1 true)
      (sym h) (wait-by r.fence_enabled r.children_threads_count r.lock_count r.protection_enabled)

-- `barrier_wait`, `sig_wait`, `threadDeregister` and `join` of a thread, by a caller that does not hold
-- the token, with the fence on, keep to the order of the calls, and the caller does not hold the token
-- in the end.
pub blocking-in_order :
    (b : Bool) (r : Run)
    → r.fence_enabled ≡ true
    → r.token_holding ≡ false
    → Settles false r.protection_enabled (barrier r).1 false
      × Settles false r.protection_enabled (signal_wait b r).1 false
      × Settles false r.protection_enabled (thread_deregister r).1 false
      × Settles false r.protection_enabled (join_with true b r).1 false
blocking-in_order b r f h =
    subst (λ z. Blocking b (record r { token_holding = z })) (sym h)
      (subst (λ z. Blocking b (record r { token_holding = false; fence_enabled = z })) (sym f)
        (Blocking-by r.children_threads_count r.lock_count r.protection_enabled b))
