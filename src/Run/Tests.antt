-- ===== src/Run/Tests.antt =====
-- The theorems on src/include/xrun.h for a thread with the fence on and the memory protected.
use dthreads.Base.{ℕ, ◌+◌, ◌/◌, ◌<◌, ◌≡◌, refl, true, false, some, List, [], ◌∷◌, arith}
use dthreads.Persist.{page_size}
use dthreads.Run.{Run}
use dthreads.Run.Touch.{touches, Touched, Inside, touches-pages}
use dthreads.Run.Api.{lock, unlock, mutex_trylock, calls, trylock-keeps_token}
use dthreads.Run.Mutex.{unlocks, puts, unlocks-all}

abbrev outside : Run
outside = record {
  fence_enabled = true;
  children_threads_count = 0;
  lock_count = 0;
  token_holding = false;
  protection_enabled = true;
}

-- The same with three mutexes and the token.
abbrev nested : Run
nested = record outside { lock_count = 3; token_holding = true }

unlocks-all_example :
    ((unlocks 3 nested).0.token_holding ≡ false)
    × ((unlocks 3 nested).0.lock_count ≡ 0)
    × (puts (unlocks 3 nested).1 ≡ 1)
unlocks-all_example = unlocks-all 2 nested refl refl refl (omega arith)

trylock-keeps_token_example :
    ((calls true (mutex_trylock ∷ unlock ∷ lock false 0 ∷ unlock ∷ []) outside).0.token_holding
      ≡ true)
    × (puts (calls true (mutex_trylock ∷ unlock ∷ lock false 0 ∷ unlock ∷ []) outside).1 ≡ 0)
trylock-keeps_token_example = trylock-keeps_token outside refl refl refl

touches-pages_example :
    (xs : List ℕ) × (touches (10000 / page_size + 2) 4000 10000 0 ≡ some xs)
    × Inside 4000 10000 xs
    × ((x : ℕ) → x < 10000 → Touched (4000 + x) xs)
touches-pages_example = touches-pages 4000 10000 (omega arith) (omega arith) (omega arith)
