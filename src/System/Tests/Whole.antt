-- ===== src/System/Tests/Whole.antt =====
-- A whole round of the two processes, from before their stores to behind the fence.
use dthreads.Base.{ℕ, ◌≡◌, ◌+◌, ◌<◌, refl, some, List, [], ◌∷◌, arith}
use dthreads.Persist.{page_size}
use dthreads.Determ.Token.Ring.{IsWell}
use dthreads.System.{Thread, World, run_schedule, run_rounds, run_step}
use dthreads.System.Publication.{publish_all, writers, AreBegun}
use dthreads.System.Waiting.{IsClean}
use dthreads.System.Round.{run_rounds-IsClean}
use dthreads.System.Tests.{program, ring, start, start-IsQuiet}

abbrev schedule : List ℕ
schedule = 1 ∷ 0 ∷ 1 ∷ 0 ∷ []

-- The threads at the fence, with the places where they go on.
abbrev at_fence : List (Thread ℕ × ℕ)
at_fence =
    ((run_schedule program schedule start).threads 0, 12)
    ∷ ((run_schedule program schedule start).threads 1, 22)
    ∷ []

ring-IsWell : IsWell ring (1 ∷ 2 ∷ []) 0
ring-IsWell = record {
  ring = record { linked = (refl, refl, (refl, refl)); distinct = λ a. ground arith; solid = refl };
  token = refl;
  head = ground arith;
  inside = λ a p. ground (arith, p);
  named = λ a p. refl;
  counted = refl;
}

start-IsClean : IsClean (1 ∷ 2 ∷ []) start
start-IsClean = record {
  quiet = start-IsQuiet;
  clean = λ i m. refl;
  closed = λ i m n. refl;
  users = λ n. refl;
  no_twin = λ n. refl;
  solid = omega arith;
}

run_rounds-IsClean_example :
    (w' : World ℕ) × (run_rounds program ((schedule, 2) ∷ []) start ≡ some w')
    × ((n j : ℕ) → j < page_size → w'.shared.persistent n j ≡ publish_all at_fence n j 7 7)
    × (w'.determ ≡ ring)
    × AreBegun w'.threads (1 ∷ 2 ∷ []) at_fence
    × IsClean (1 ∷ 2 ∷ []) w'
    × ((n : ℕ) → w'.shared.versions n ≡ start.shared.versions n + writers at_fence n)
unfolding run_schedule run_step
run_rounds-IsClean_example =
    run_rounds-IsClean program (1 ∷ 2 ∷ []) at_fence 0 schedule start ring-IsWell start-IsClean
      (λ i m. ground (arith, m)) (refl, (refl, 0)) (refl, (λ view. refl), (refl, (λ view. refl), 0))
      (omega arith) (λ n. omega arith)

-- Both bytes are there afterwards.
both_published :
    publish_all at_fence 3 0 7 7 ∷ publish_all at_fence 3 1 7 7 ∷ publish_all at_fence 3 2 7 7 ∷ []
    ≡ 1 ∷ 2 ∷ 7 ∷ []
unfolding run_schedule run_step
both_published = refl
