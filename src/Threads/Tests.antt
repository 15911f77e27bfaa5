-- ===== src/Threads/Tests.antt =====
-- The theorems on src/source/xthread.cpp for a thread with its page at 70.
use dthreads.Base.{ℕ, suc, ◌+◌, ◌≡◌, ◌≢◌, ◌⊎◌, refl, true, none, some, [], ◌∷◌, ◌==◌, ltb}
use dthreads.Threads.{Objects, join, kill}
use dthreads.Threads.Join.{Joined, joinable, spawn-join}
use dthreads.Threads.Kill.{kill-gone}

abbrev objects : Objects
objects = record {
  pages = λ v. record { tid = 200 + v; thread_index = 3; retval = 0 };
  mapped = λ v. v == 70;
  sent = [];
}

spawn-join_example :
    ((k : ℕ) → (joinable 80 201 4 55 k objects).1 ≡ ltb 1 k)
    × Joined 80 4 true 0 objects (joinable 80 201 4 55 2 objects).0
    × ((k : ℕ) → Joined 80 4 true 55 objects (joinable 80 201 4 55 (suc (suc (suc k))) objects).0)
spawn-join_example = spawn-join 80 201 4 55 objects

kill-gone_example :
    (((◌≡◌ {A = ℕ} 2 9) ⊎ (◌≡◌ {A = ℕ} 2 15)) → kill 70 2 objects ≡ none)
    × ((◌≢◌ {A = ℕ} 2 9)
        → (◌≢◌ {A = ℕ} 2 15)
        → (o' : Objects) × (kill 70 2 objects ≡ some (3, o'))
          × (o'.sent ≡ (270, 2) ∷ [])
          × (join 70 true o' ≡ none)
          × (kill 70 9 o' ≡ none))
kill-gone_example = kill-gone 70 2 9 objects refl
