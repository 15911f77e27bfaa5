-- ===== src/Run/Discipline/Early.antt =====
-- When the operations of src/include/xrun.h commit for the first time: `spawn` before it has the token.
use dthreads.Base.{ℕ, suc, ◌≡◌, Bool, true, false, Option, none, some, List, [], ◌∷◌, ◌>>=◌}
use dthreads.Run.{
  Call, Run, mutex_lock, signal, broadcast, barrier, spawn, thread_deregister, signal_wait,
  join_with,
}

-- How many commits come before the first `wait_token`; none if there is no `wait_token`.
abbrev pub commits_before_token : List Call → Option ℕ
commits_before_token [] = none
commits_before_token (Call.wait_token ∷ cs) = some 0
commits_before_token (Call.commit update ∷ cs) = commits_before_token cs >>= (λ n. some (suc n))
commits_before_token (Call.final_commit release ∷ cs) =
    commits_before_token cs >>= (λ n. some (suc n))
commits_before_token (c ∷ cs) = commits_before_token cs

abbrev Early : Bool → ℕ → Run → Type 0
Early b k r =
    (commits_before_token (spawn r).1 ≡ some 2)
    × (commits_before_token (join_with true b r).1 ≡ some 0)
    × (commits_before_token (thread_deregister r).1 ≡ some 0)
    × (commits_before_token (barrier r).1 ≡ some 0)
    × (commits_before_token (signal_wait b r).1 ≡ some 0)
    × (commits_before_token (signal r).1 ≡ some 0)
    × (commits_before_token (broadcast r).1 ≡ some 0)
    × (commits_before_token (mutex_lock false k r).1 ≡ some 0)
