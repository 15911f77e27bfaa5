-- ===== src/Fence/Moves/Start.antt =====
-- `startFence` of src/include/determ.h in an arrival phase keeps the invariant, and at the end of the phase
-- it strands those who have not left.
use dthreads.Base.{
  ℕ, suc, ◌+◌, ◌%◌, ◌^◌, ◌≡◌, ◌≢◌, ◌∙◌, inl, inr, refl, ap, subst, true, List, [], ◌∷◌, count,
  length, arith, eq_or_ne,
}
use dthreads.Base.Maps.{update, update_ne}
use dthreads.Fence.{Fence, incr_fence, start_fence}
use dthreads.Fence.System.{away, running, Thread, thread, Shared, AreAway, enrol}
use dthreads.Fence.Invariant.{Inv, room}
use dthreads.Fence.Moves.Depart.{join_party-Inv}

pub enrol-other :
    (js : List ℕ) (era : ℕ) (ts : ℕ → Thread) (x : ℕ) → count x js ≡ 0 → enrol js era ts x ≡ ts x
unfolding enrol
enrol-other [] era ts x c = refl
enrol-other (j ∷ js) era ts x c =
    update_ne (enrol js era ts) j x (thread running era) (λ e. absurd (ground (arith, c, e)))
    ∙ enrol-other js era ts x (ground (arith, c))

-- A thread that is counted is none of them.
pub counted-absent :
    (n : ℕ) (ts : ℕ → Thread) (js : List ℕ) (x : ℕ)
    → AreAway n ts js
    → (ts x).pc ≢ away
    → count x js ≡ 0
counted-absent n ts [] x a h = refl
counted-absent n ts (j ∷ js) x (l, out, c, a) h = elim (eq_or_ne x j) [
  | inl e ↦ absurd (h (ap (λ k. (ts k).pc) e ∙ out))
  | inr d ↦ ground (arith, counted-absent n ts js x a h, d)
]

start_fence-suc : (k : ℕ) (f : Fence) → incr_fence 1 (start_fence k f) ≡ start_fence (suc k) f
unfolding start_fence incr_fence
start_fence-suc k f =
    let e : ((f.maxthreads + k) % 2 ^ 64 + 1) % 2 ^ 64 ≡ (f.maxthreads + suc k) % 2 ^ 64 =
      omega arith in
    λ i. record f { maxthreads = e i; is_arrival_phase = true }

pub start-Inv :
    {n : ℕ} {s : Shared} {ts : ℕ → Thread} (js : List ℕ)
    → Inv n s ts
    → s.fence.is_arrival_phase ≡ true
    → AreAway n ts js
    → Inv n (record s { fence = start_fence (length js) s.fence }) (enrol js s.era ts)
unfolding start_fence enrol
start-Inv {n} {s} {ts} [] inv p a = record {
  few = inv.few;
  outer = omega (arith, inv.outer, inv.inner, room n ts, inv.few);
  inner = inv.inner;
  gathering = λ h. ground (arith, inv.gathering p, inv.outer, inv.inner, room n ts, inv.few);
  leaving = λ h. ground (arith, h);
  knows = λ i l. ground (arith, inv.knows i l, p);
}
start-Inv {n} {s} {ts} (j ∷ js) inv p (l, out, c, a) =
    subst
      (λ f. Inv n (record s { fence = f }) (update (enrol js s.era ts) j (thread running s.era)))
      (start_fence-suc (length js) s.fence)
      (join_party-Inv (start-Inv js inv p a) j l
        (ap (λ (x : Thread). x.pc) (enrol-other js s.era ts j c) ∙ out))
