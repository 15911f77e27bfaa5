-- ===== src/Fence/Family.antt =====
-- Families indexed by thread: a value changed at one thread, and weights added up.
use dthreads.Base.{
  ℕ, zero, suc, ◌+◌, ◌≤◌, ◌<◌, ◌≡◌, ◌⊎◌, inl, inr, refl, sym, arith, dec_lt, eq_or_ne,
}

-- The sum of the weights of the threads below `n`.
unfoldable pub sum_below : ℕ → (ℕ → ℕ) → ℕ
sum_below zero w = 0
sum_below (suc n) w = sum_below n w + w n

pub sum_below_eq :
    (n : ℕ) (v w : ℕ → ℕ) → ((i : ℕ) → i < n → v i ≡ w i) → sum_below n v ≡ sum_below n w
unfolding sum_below
sum_below_eq zero v w h = refl
sum_below_eq (suc n) v w h =
    omega (arith, h n (omega arith), sum_below_eq n v w (λ i l. h i (omega arith)))

-- Two families that differ at one thread below `n` have sums that differ by what they do there.
pub sum_below_change :
    (n : ℕ) (v w : ℕ → ℕ) (i : ℕ)
    → i < n
    → ((j : ℕ) → (j ≡ i) ⊎ (v j ≡ w j))
    → sum_below n v + w i ≡ sum_below n w + v i
unfolding sum_below
sum_below_change zero v w i l h = elim l [ ]
sum_below_change (suc n) v w i l h = elim (eq_or_ne i n) [
  | inl e ↦
      let same =
        sum_below_eq n v w (λ j k. elim (h j) [ inl q ↦ absurd (omega arith) | inr q ↦ q ]) in
      ground (arith, same)
  | inr ne ↦ elim (h n) [
    | inl q ↦ absurd (ne (sym q))
    | inr q ↦ omega (arith, sum_below_change n v w i (omega arith) h)
  ]
]

pub sum_below_le : (n : ℕ) (v w : ℕ → ℕ) → ((i : ℕ) → v i ≤ w i) → sum_below n v ≤ sum_below n w
unfolding sum_below
sum_below_le zero v w h = omega arith
sum_below_le (suc n) v w h = omega (arith, h n, sum_below_le n v w h)

-- A member that weighs something makes the sum positive, and the other way round.
pub weight-le-sum_below : (n : ℕ) (w : ℕ → ℕ) (i : ℕ) → i < n → w i ≤ sum_below n w
unfolding sum_below
weight-le-sum_below zero w i l = elim l [ ]
weight-le-sum_below (suc n) w i l = elim (eq_or_ne i n) [
  | inl e ↦ ground arith
  | inr ne ↦ omega (arith, weight-le-sum_below n w i (omega arith))
]

pub find_weight : (n : ℕ) (w : ℕ → ℕ) → 0 < sum_below n w → (i : ℕ) × (i < n) × (0 < w i)
unfolding sum_below
find_weight zero w h = elim h [ ]
find_weight (suc n) w h = elim (dec_lt 0 (w n)) [
  | yes p ↦ (n, omega arith, p)
  | no p ↦ let (i, l, q) = find_weight n w (omega arith) in (i, omega arith, q)
]

-- Where every weight of `v` is one of `w`, and less in one place, the sum is less.
pub sum_below_lt :
    (n : ℕ) (v w : ℕ → ℕ)
    → ((i : ℕ) → v i ≤ w i)
    → sum_below n v < sum_below n w
    → (i : ℕ) × (i < n) × (v i < w i)
unfolding sum_below
sum_below_lt zero v w h l = elim l [ ]
sum_below_lt (suc n) v w h l = elim (dec_lt (v n) (w n)) [
  | yes p ↦ (n, omega arith, p)
  | no p ↦ let (i, k, q) = sum_below_lt n v w h (omega (arith, h n)) in (i, omega arith, q)
]
