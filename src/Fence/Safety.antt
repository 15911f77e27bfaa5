-- ===== src/Fence/Safety.antt =====
-- What the fence of src/include/determ.h promises in every state that is reached without a call of
-- `startFence` while threads leave, and what such a call does.
use dthreads.Base.{
  ℕ, zero, suc, ◌+◌, ◌^◌, ◌<◌, ◌≡◌, ◌≢◌, ◌⊎◌, inl, inr, refl, true, false, arith, Bool-cases, ◌∙◌,
  sym, ap, List,
}
use dthreads.Fence.{start_fence}
use dthreads.Fence.Family.{sum_below, sum_below_change}
use dthreads.Fence.System.{
  Pc, away, running, polled, waiting, released, Thread, Leaves, System, pick, init, Reach, start,
  later, starts, started, AreAway,
}
use dthreads.Fence.Invariant.{party, inside, outside, Inv}
use dthreads.Fence.Moves.Preserve.{Move-Inv}
use dthreads.Fence.Moves.Start.{start-Inv, enrol-other, counted-absent}

sum-away : (n : ℕ) (w : Pc → ℕ) → w away ≡ 0 → sum_below n (λ _. w away) ≡ 0
unfolding sum_below
sum-away zero w h = refl
sum-away (suc n) w h = omega (arith, sum-away n w h)

init-sum :
    (n : ℕ) (w : Pc → ℕ) → w away ≡ 0 → 0 < n → sum_below n (λ i. w (init.threads i).pc) ≡ w running
init-sum n w h l =
    let e = sum_below_change n (λ i. w (init.threads i).pc) (λ _. w away) 0 l (λ j. ground arith) in
    ground (arith, e, sum-away n w h)

init-Inv : (n : ℕ) → 0 < n → n < 2 ^ 64 → Inv n init.shared init.threads
init-Inv n l few = record {
  few = few;
  outer = omega (arith, init-sum n outside refl l);
  inner = init-sum n inside refl l;
  gathering = λ h. inl refl;
  leaving = λ h. cc;
  knows = λ i k. ground arith;
}

Reach-Inv :
    {n early : ℕ} {s : System}
    → 0 < n
    → n < 2 ^ 64
    → Reach n early s
    → early ≡ 0
    → Inv n s.shared s.threads
unfolding started
Reach-Inv {n} l few start z = init-Inv n l few
Reach-Inv l few (later r (pick i k mv)) z = Move-Inv (Reach-Inv l few r z) i k mv
Reach-Inv l few (starts {early} {s} i js r k p a) z =
    elim (Bool-cases s.shared.fence.is_arrival_phase) [
      | inl h ↦ start-Inv js (Reach-Inv l few r (ground (arith, z, h))) h a
      | inr h ↦ absurd (ground (arith, z, h))
    ]

party_sum :
    (n : ℕ) (ts : ℕ → Thread)
    → sum_below n (λ i. party (ts i).pc)
      ≡ sum_below n (λ i. outside (ts i).pc) + sum_below n (λ i. inside (ts i).pc)
unfolding sum_below
party_sum zero ts = refl
party_sum (suc n) ts = ground (arith, party_sum n ts)

module _ {n : ℕ} {s : System} (l : 0 < n) (few : n < 2 ^ 64) (r : Reach n 0 s) where
  -- In every such state `_currthreads` is the number of threads inside the fence,
  -- `_maxthreads` the number of those counted; either the arrival phase is over and a thread is inside,
  -- or it goes on and none has come or one is still to come.
  counters_exact :
      (s.shared.fence.currthreads ≡ sum_below n (λ i. inside (s.threads i).pc))
      × (s.shared.fence.maxthreads ≡ sum_below n (λ i. party (s.threads i).pc))
      × (((s.shared.fence.is_arrival_phase ≡ false) × (0 < s.shared.fence.currthreads))
          ⊎ ((s.shared.fence.is_arrival_phase ≡ true)
              × ((s.shared.fence.currthreads ≡ 0)
                  ⊎ (s.shared.fence.currthreads < s.shared.fence.maxthreads))))
  counters_exact =
      let inv = Reach-Inv l few r refl in
      (
        omega (arith, inv.inner),
        omega (arith, inv.inner, inv.outer, party_sum n s.threads),
        elim (Bool-cases s.shared.fence.is_arrival_phase) [
          | inl a ↦ inr (a, inv.gathering a)
          | inr d ↦ inl (d, inv.leaving d)
        ],
      )

  -- On the path that spins, the arrival phase that a thread has read without the mutex still goes
  -- on when the thread takes the mutex, whatever the others did in between.
  pub polled_phase_holds :
      (i : ℕ) → i < n → (s.threads i).pc ≡ polled → s.shared.fence.is_arrival_phase ≡ true
  polled_phase_holds i k p = let h = (Reach-Inv l few r refl).knows i k in ground (arith, h)

  -- The same for the end of the phase.
  pub released_phase_holds :
      (i : ℕ) → i < n → (s.threads i).pc ≡ released → s.shared.fence.is_arrival_phase ≡ false
  released_phase_holds i k p = let h = (Reach-Inv l few r refl).knows i k in ground (arith, h)

  -- `startFence` does not look at the phase. When thread `i`, in a state that is reached without such a
  -- call, calls it while thread `j` still waits to leave, the phase is arrival again: thread `j` can
  -- not leave then, and thread `i` has passed one fence more than it.
  pub start_fence-strands :
      (i j : ℕ) (js : List ℕ)
      → i < n
      → j < n
      → (s.threads i).pc ≡ running
      → (s.threads j).pc ≡ waiting
      → s.shared.fence.is_arrival_phase ≡ false
      → AreAway n s.threads js
      → ((started js s).shared.fence.is_arrival_phase ≡ true)
        × (((started js s).threads j).pc ≡ waiting)
        × (¬ Leaves (started js s).shared.fence ((started js s).threads j).pc)
        × (((started js s).threads i).round ≡ ((started js s).threads j).round + 1)
  unfolding started start_fence
  start_fence-strands i j js k k' p q over a =
      let inv = Reach-Inv l few r refl in
      let same = λ (x : ℕ) (h : (s.threads x).pc ≢ away).
        enrol-other js s.shared.era s.threads x (counted-absent n s.threads js x a h) in
      let at_i = same i (λ e. absurd (ground (arith, p, e))) in
      let at_j = same j (λ e. absurd (ground (arith, q, e))) in
      let stays = ap (λ (x : Thread). x.pc) at_j ∙ q in
      (
        refl,
        stays,
        λ h. absurd (ground (arith, h, stays)),
        ap (λ (x : Thread). x.round) at_i
            ∙ ground (arith, inv.knows i k, inv.knows j k', p, q, over)
            ∙ ap (λ (x : Thread). x.round + 1) (sym at_j),
      )
