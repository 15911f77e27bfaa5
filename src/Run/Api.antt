-- ===== src/Run/Api.antt =====
-- src/source/libdthread.cpp: the pthread functions that the program calls. Before the library has been
-- initialised they do nothing, but for `sigwait`.
use dthreads.Base.{
  ℕ, ◌≡◌, refl, sym, Bool, true, false, List, [], ◌∷◌, ◌++◌, ◌||◌, if◌then◌else◌, subst,
}
use dthreads.Run.{
  Call, Run, mutex_lock, mutex_unlock, signal, broadcast, wait, barrier, signal_wait,
  thread_deregister, spawn, join_with, cancel_with, atomic_begin, atomic_end,
}
use dthreads.Run.Mutex.{puts}
use dthreads.Run.Discipline.{flags}

-- A call of a pthread function, with what the library will learn on the way.
pub data Api : Type 0 where
  mutex_init mutex_trylock unlock mutex_destory : Api
  lock : (owned : Bool) (refusals : ℕ) → Api
  cond_init cond_signal cond_broadcast cond_wait cond_destroy : Api
  barrier_init barrier_wait barrier_destroy : Api
  create exit cancel kill yield attributes : Api
  join : (valid alone : Bool) → Api
  sigwait : (failed : Bool) → Api

-- What a function does once the library is there.
unfoldable pub serve : Api → Run → Run × List Call
unfolding mutex_lock mutex_unlock signal broadcast wait barrier signal_wait thread_deregister spawn
    join_with cancel_with
serve mutex_init r = (r, Call.init_object ∷ [])
serve mutex_trylock r = (r, [])
serve unlock r = mutex_unlock r
serve mutex_destory r = (r, Call.destroy_object ∷ [])
serve (lock owned refusals) r = mutex_lock owned refusals r
serve cond_init r = (r, Call.init_object ∷ [])
serve cond_signal r = signal r
serve cond_broadcast r = broadcast r
serve cond_wait r = wait r
serve cond_destroy r = (r, Call.destroy_object ∷ [])
serve barrier_init r = (r, Call.init_object ∷ [])
serve barrier_wait r = barrier r
serve barrier_destroy r = (r, Call.destroy_object ∷ [])
serve create r = spawn r
serve exit r = thread_deregister r
serve cancel r = cancel_with r
serve kill r = (r, [])
serve yield r = (r, [])
serve attributes r = (r, [])
serve (join valid alone) r = join_with valid alone r
serve (sigwait failed) r = signal_wait failed r

abbrev is_sigwait : Api → Bool
is_sigwait (sigwait failed) = true
is_sigwait _ = false

unfoldable pub call : (initialized : Bool) → Api → Run → Run × List Call
unfolding serve
call initialized a r = if initialized || is_sigwait a then serve a r else (r, [])

-- A thread makes some calls, and the program runs after each of them.
unfoldable pub calls : (initialized : Bool) → List Api → Run → Run × List Call
unfolding call
calls initialized [] r = (r, [])
calls initialized (a ∷ more) r =
    let first = call initialized a r in
    let rest = calls initialized more first.0 in
    (rest.0, first.1 ++ (Call.program first.0.protection_enabled ∷ rest.1))

-- Where a call fits: one that may block with the fence on, by a thread without the token, but for
-- `pthread_cond_wait`, whose mutex has brought it the token. `pthread_create`, which commits without
-- the token, fits nowhere. The others always fit.
abbrev pub Fits : Api → Run → Type 0
Fits cond_wait r = r.token_holding ≡ true
Fits barrier_wait r = (r.fence_enabled ≡ true) × (r.token_holding ≡ false)
Fits exit r = (r.fence_enabled ≡ true) × (r.token_holding ≡ false)
Fits (join valid alone) r = (r.fence_enabled ≡ true) × (r.token_holding ≡ false)
Fits (sigwait failed) r = (r.fence_enabled ≡ true) × (r.token_holding ≡ false)
Fits create r = ⊥
Fits _ r = ℕ

abbrev pub Fitting : List Api → Run → Type 0
Fitting [] r = ℕ
Fitting (a ∷ more) r = Fits a r × Fitting more (serve a r).0

abbrev once_each : List Api
once_each = mutex_trylock ∷ unlock ∷ lock false 0 ∷ unlock ∷ []

abbrev KeepsToken : Run → Type 0
KeepsToken r =
    ((calls true once_each r).0.token_holding ≡ true) × (puts (calls true once_each r).1 ≡ 0)

KeepsToken-by : (c : ℕ) (p : Bool) → KeepsToken (flags true c 0 false p)
unfolding calls call serve mutex_lock mutex_unlock atomic_begin atomic_end
KeepsToken-by c true = (refl, refl)
KeepsToken-by c false = (refl, refl)

-- A mutex that a thread believes to have from `pthread_mutex_trylock` was never locked, and its unlock
-- makes `_lock_count` wrap. From then on an unlock does not give the token away: by a thread with no
-- mutex and without the token, with the fence on, one `trylock` with its unlock and then one lock with
-- its unlock lead to a state with the token, which has never been put.
pub trylock-keeps_token :
    (r : Run)
    → r.fence_enabled ≡ true
    → r.lock_count ≡ 0
    → r.token_holding ≡ false
    → ((calls true (mutex_trylock ∷ unlock ∷ lock false 0 ∷ unlock ∷ []) r).0.token_holding ≡ true)
      × (puts (calls true (mutex_trylock ∷ unlock ∷ lock false 0 ∷ unlock ∷ []) r).1 ≡ 0)
trylock-keeps_token r f c h =
    subst KeepsToken
      (sym (λ i. record r { fence_enabled = f i; lock_count = c i; token_holding = h i }))
      (KeepsToken-by r.children_threads_count r.protection_enabled)
