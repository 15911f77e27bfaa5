-- ===== src/Fence/Moves.antt =====
-- The facts that the proofs about the moves at the fence of src/include/determ.h share.
pub mod Arrive
pub mod Depart
pub mod Preserve
pub mod Start
use dthreads.Base.{
  ℕ, zero, suc, ◌+◌, ◌-◌, ◌^◌, ◌≤◌, ◌<◌, ◌≡◌, ◌≢◌, ◌⊎◌, inl, inr, refl, Bool, true, false, arith,
  dec_lt, eq_or_ne, ==_self, ==_ne, leb,
}
use dthreads.Base.Maps.{update}
use dthreads.Fence.{Fence, incr_fence, decr_fence, arrive, leave, arrive_last}
use dthreads.Fence.Family.{sum_below, weight-le-sum_below}
use dthreads.Fence.System.{
  Pc, away, running, polled, waiting, released, Thread, thread, Shared, era_after, Enters, Leaves,
  Move, poll, enter_and_wait, enter_last, see_release, exit_fence, join_party, quit_party,
}
use dthreads.Fence.Invariant.{party, inside, outside, Knows, Inv, room, moved, alone}

module _ {n : ℕ} {s : Shared} {ts : ℕ → Thread} (inv : Inv n s ts) (i : ℕ) (l : i < n) where
  open inv use {few, outer, inner, gathering, leaving, knows}

  -- The sums before and after the move of thread `i` to `t`.
  pub record Sums (t : Thread) : Type 0 where
    pub out :
        sum_below n (λ j. outside (update ts i t j).pc) + outside (ts i).pc
        ≡ sum_below n (λ j. outside (ts j).pc) + outside t.pc
    pub ins :
        sum_below n (λ j. inside (update ts i t j).pc) + inside (ts i).pc
        ≡ sum_below n (λ j. inside (ts j).pc) + inside t.pc
    pub fit :
        sum_below n (λ j. outside (update ts i t j).pc)
          + sum_below n (λ j. inside (update ts i t j).pc)
        ≤ n
    pub fit_before : sum_below n (λ j. outside (ts j).pc) + sum_below n (λ j. inside (ts j).pc) ≤ n

  pub sums : (t : Thread) → Sums t
  sums t = record {
    out = moved outside ts i t l;
    ins = moved inside ts i t l;
    fit = room n (update ts i t);
    fit_before = room n ts;
  }

  -- The mover is told apart from the others.
  pub Knows-all :
      (s' : Shared) (t : Thread)
      → Knows s' t
      → ((j : ℕ) → j < n → j ≢ i → Knows s' (ts j))
      → (j : ℕ) → j < n
      → Knows s' (update ts i t j)
  Knows-all s' t own others j k = elim (eq_or_ne j i) [
    | inl e ↦ rw (e, ==_self i) own
    | inr ne ↦ rw (==_ne j i ne) (others j k ne)
  ]

  -- A thread that takes the mutex to arrive finds an arrival phase.
  pub Enters-arrival :
      Enters s.fence (ts i).pc
      → (s.fence.is_arrival_phase ≡ true)
        × ((ts i).round ≡ s.era)
        × (outside (ts i).pc ≡ 1)
        × (inside (ts i).pc ≡ 0)
  Enters-arrival (inl p) = ground (arith, knows i l)
  Enters-arrival (inr (p, q)) = ground (arith, knows i l)

  -- A thread that takes the mutex to leave finds the phase over, and is counted inside.
  pub Leaves-departure :
      Leaves s.fence (ts i).pc
      → (s.fence.is_arrival_phase ≡ false)
        × ((ts i).round + 1 ≡ s.era)
        × (outside (ts i).pc ≡ 0)
        × (inside (ts i).pc ≡ 1)
  Leaves-departure (inl p) = ground (arith, knows i l)
  Leaves-departure (inr (p, q)) = ground (arith, knows i l)

  -- When the last arrives, every other thread of the party is inside.
  pub others_inside :
      sum_below n (λ j. outside (ts j).pc) ≤ outside (ts i).pc
      → (j : ℕ) → j < n
      → j ≢ i
      → outside (ts j).pc ≡ 0
  others_inside h j k ne = alone outside ts i j refl l k ne h

  pub others_gone :
      sum_below n (λ j. inside (ts j).pc) ≤ inside (ts i).pc
      → (j : ℕ) → j < n
      → j ≢ i
      → inside (ts j).pc ≡ 0
  others_gone h j k ne = alone inside ts i j refl l k ne h

  pub others_gone_if :
      (j : ℕ) → j < n → j ≢ i → (inside (ts j).pc ≡ 0) ⊎ (inside (ts i).pc < s.fence.currthreads)
  others_gone_if j k ne = elim (dec_lt (inside (ts i).pc) s.fence.currthreads) [
    | yes h ↦ inr h
    | no h ↦ inl (others_gone (omega arith) j k ne)
  ]

  pub others_inside_if :
      (j : ℕ)
      → j < n
      → j ≢ i
      → (outside (ts j).pc ≡ 0) ⊎ (outside (ts i).pc + s.fence.currthreads < s.fence.maxthreads)
  others_inside_if j k ne =
      elim (dec_lt (outside (ts i).pc) (sum_below n (λ x. outside (ts x).pc))) [
        | yes h ↦ inr (omega arith)
        | no h ↦ inl (others_inside (omega arith) j k ne)
      ]
