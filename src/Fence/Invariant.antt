-- ===== src/Fence/Invariant.antt =====
-- What holds of the fence of src/include/determ.h in every state that its threads reach.
use dthreads.Base.{ℕ, zero, suc, ◌+◌, ◌^◌, ◌≤◌, ◌<◌, ◌≡◌, ◌≢◌, ◌⊎◌, true, false, arith}
use dthreads.Base.Maps.{update}
use dthreads.Fence.Family.{sum_below, sum_below_change, weight-le-sum_below}
use dthreads.Fence.System.{Pc, away, running, polled, waiting, released, Thread, thread, Shared}

-- Counted by `_maxthreads`; counted by `_currthreads`; counted by the first alone.
abbrev pub party : Pc → ℕ
party away = 0
party _ = 1

abbrev pub inside : Pc → ℕ
inside waiting = 1
inside released = 1
inside _ = 0

abbrev pub outside : Pc → ℕ
outside running = 1
outside polled = 1
outside _ = 0

-- What a thread knows of the fence.
abbrev pub Knows : Shared → Thread → Type 0
Knows s t = elim t.pc [
  | away ↦ Unit
  | running ↦ t.round ≡ s.era
  | polled ↦ (s.fence.is_arrival_phase ≡ true) × (t.round ≡ s.era)
  | waiting ↦
      ((s.fence.is_arrival_phase ≡ true) × (t.round ≡ s.era))
      ⊎ ((s.fence.is_arrival_phase ≡ false) × (t.round + 1 ≡ s.era))
  | released ↦ (s.fence.is_arrival_phase ≡ false) × (t.round + 1 ≡ s.era)
]

pub record Inv (n : ℕ) (s : Shared) (ts : ℕ → Thread) : Type 0 where
  pub few : n < 2 ^ 64
  pub outer : sum_below n (λ i. outside (ts i).pc) + s.fence.currthreads ≡ s.fence.maxthreads
  pub inner : sum_below n (λ i. inside (ts i).pc) ≡ s.fence.currthreads
  pub gathering :
      s.fence.is_arrival_phase ≡ true
      → (s.fence.currthreads ≡ 0) ⊎ (s.fence.currthreads < s.fence.maxthreads)
  pub leaving : s.fence.is_arrival_phase ≡ false → 0 < s.fence.currthreads
  pub knows : (i : ℕ) → i < n → Knows s (ts i)

pub room :
    (n : ℕ) (ts : ℕ → Thread)
    → sum_below n (λ i. outside (ts i).pc) + sum_below n (λ i. inside (ts i).pc) ≤ n
unfolding sum_below
room zero ts = omega arith
room (suc n) ts = go (ts n).pc (room n ts)
  where
    go :
        (p : Pc)
        → sum_below n (λ i. outside (ts i).pc) + sum_below n (λ i. inside (ts i).pc) ≤ n
        → (sum_below n (λ i. outside (ts i).pc) + outside p)
            + (sum_below n (λ i. inside (ts i).pc) + inside p)
          ≤ suc n
    go away h = omega arith
    go _ h = omega arith

-- What one weight adds up to after thread `i` has moved to `t`.
pub moved :
    (w : Pc → ℕ) {n : ℕ} (ts : ℕ → Thread) (i : ℕ) (t : Thread)
    → i < n
    → sum_below n (λ j. w (update ts i t j).pc) + w (ts i).pc
      ≡ sum_below n (λ j. w (ts j).pc) + w t.pc
moved w {n} ts i t l =
    let e =
      sum_below_change n (λ j. w (update ts i t j).pc) (λ j. w (ts j).pc) i l (λ j. ground arith) in
    ground (arith, e)

-- If the weights add up to that of thread `i`, the other threads weigh nothing.
pub alone :
    (w : Pc → ℕ) {n : ℕ} (ts : ℕ → Thread) (i j : ℕ)
    → w away ≡ 0
    → i < n
    → j < n
    → j ≢ i
    → sum_below n (λ k. w (ts k).pc) ≤ w (ts i).pc
    → w (ts j).pc ≡ 0
alone w {n} ts i j z l k ne h =
    let e = moved w ts i (thread away 0) l in
    let b = weight-le-sum_below n (λ x. w (update ts i (thread away 0) x).pc) j k in
    ground (arith, e, b)
