-- ===== src/Run/Mutex.antt =====
-- Nested mutexes in src/include/xrun.h: all the locks that a thread holds are one big lock.
use dthreads.Base.{
  ℕ, zero, suc, ◌+◌, ◌-◌, ◌^◌, ◌<◌, ◌≡◌, ◌∙◌, refl, true, false, List, [], ◌∷◌, ◌++◌, ==_ne,
  Bool-cases, inl, inr, append-nil, arith,
}
use dthreads.Fence.{dec64}
use dthreads.Run.{Call, Run, mutex_unlock, atomic_begin, atomic_end}

-- A thread unlocks `n` mutexes.
unfoldable pub unlocks : ℕ → Run → Run × List Call
unlocks zero r = (r, [])
unlocks (suc n) r =
    let first = mutex_unlock r in let rest = unlocks n first.0 in (rest.0, first.1 ++ rest.1)

-- How many times the token is given away.
abbrev pub puts : List Call → ℕ
puts [] = 0
puts (Call.put_token ∷ cs) = suc (puts cs)
puts (c ∷ cs) = puts cs

unlock_inner :
    (r : Run)
    → r.fence_enabled ≡ true
    → 1 < r.lock_count
    → r.lock_count < 2 ^ 64
    → mutex_unlock r ≡ (record r { lock_count = r.lock_count - 1 }, Call.lock_release ∷ [])
unfolding mutex_unlock
unlock_inner r f p q =
    let e : dec64 r.lock_count ≡ r.lock_count - 1 = omega (arith, p, q) in
    rw (f, e, ==_ne (r.lock_count - 1) 0 (omega arith)) refl

unlock_last :
    (r : Run)
    → r.fence_enabled ≡ true
    → r.token_holding ≡ true
    → r.lock_count ≡ 1
    → ((mutex_unlock r).0.lock_count ≡ 0)
      × ((mutex_unlock r).0.token_holding ≡ false)
      × (puts (mutex_unlock r).1 ≡ 1)
unfolding mutex_unlock atomic_begin atomic_end
unlock_last r f t one = elim (Bool-cases r.protection_enabled) [
  | inl e ↦ rw (f, t, one, e) (refl, refl, refl)
  | inr e ↦ rw (f, t, one, e) (refl, refl, refl)
]

-- A thread that holds the token and `n + m` mutexes, and unlocks `n` of them with `m` at least one,
-- keeps the token and holds `m` mutexes.
pub unlocks-token :
    (n m : ℕ) (r : Run)
    → r.fence_enabled ≡ true
    → r.token_holding ≡ true
    → r.lock_count ≡ n + m
    → r.lock_count < 2 ^ 64
    → 0 < m
    → ((unlocks n r).0.token_holding ≡ true)
      × ((unlocks n r).0.lock_count ≡ m)
      × (puts (unlocks n r).1 ≡ 0)
unfolding unlocks
unlocks-token zero m r f t e q p = (t, e ∙ omega arith, refl)
unlocks-token (suc n) m r f t e q p =
    let inner = unlock_inner r f (omega arith) q in
    let ih =
      unlocks-token n m (record r { lock_count = r.lock_count - 1 }) f t (omega (arith, e))
        (omega (arith, q)) p in
    rw inner ih

-- A thread that holds the token and some mutexes, and unlocks them all, gives the token away, once,
-- and no mutex is left.
pub unlocks-all :
    (n : ℕ) (r : Run)
    → r.fence_enabled ≡ true
    → r.token_holding ≡ true
    → r.lock_count ≡ suc n
    → r.lock_count < 2 ^ 64
    → ((unlocks (suc n) r).0.token_holding ≡ false)
      × ((unlocks (suc n) r).0.lock_count ≡ 0)
      × (puts (unlocks (suc n) r).1 ≡ 1)
unfolding unlocks
unlocks-all zero r f t e q =
    let (none_left, given, once) = unlock_last r f t e in (given, none_left, rw append-nil once)
unlocks-all (suc n) r f t e q =
    let inner = unlock_inner r f (omega (arith, e)) q in
    let ih =
      unlocks-all n (record r { lock_count = r.lock_count - 1 }) f t (omega (arith, e))
        (omega (arith, q)) in
    rw inner ih
