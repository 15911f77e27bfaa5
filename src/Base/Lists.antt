-- ===== src/Base/Lists.antt =====
-- Lists measured by native numbers, how often a number stands in a list, and the laws of both.
use Prim.Native.Nat.{ℕ, zero, suc, ◌+◌, ◌≤◌, ◌<◌}
use mathlib.Core.Path.{◌≡◌, refl}
use mathlib.Core.Logic.{inl, inr}
use mathlib.Core.Option.{Option, none, some}
use mathlib.Core.List.{List, [], ◌∷◌, ◌++◌}
use native.Mathlib.Omega.{arith}
use dthreads.Base.Tests.{◌==◌, if◌then◌else◌, eq_or_ne}

module _ {ℓ} {A : Type ℓ} where
  abbrev pub length : List A → ℕ
  length [] = 0
  length (x ∷ xs) = suc (length xs)

  abbrev pub get_elem? : List A → ℕ → Option A
  get_elem? [] i = none
  get_elem? (x ∷ xs) zero = some x
  get_elem? (x ∷ xs) (suc i) = get_elem? xs i

  pub length-append : (xs ys : List A) → length (xs ++ ys) ≡ length xs + length ys
  length-append [] ys = omega arith
  length-append (x ∷ xs) ys = omega (arith, length-append xs ys)

  -- The last element of a list that is not empty, split off.
  pub snoc_view : (x : A) (xs : List A) → (ys : List A) × (y : A) × (x ∷ xs ≡ ys ++ (y ∷ []))
  snoc_view x [] = ([], x, refl)
  snoc_view x (x' ∷ xs) = let (ys, y, e) = snoc_view x' xs in (x ∷ ys, y, cc)

-- How often `a` stands in a list.
abbrev pub count : ℕ → List ℕ → ℕ
count a [] = 0
count a (x ∷ xs) = (if a == x then 1 else 0) + count a xs

pub count-append :
    (item : ℕ) (front back : List ℕ)
    → count item (front ++ back) ≡ count item front + count item back
count-append item [] back = omega arith
count-append item (head ∷ front) back = ground (arith, count-append item front back)

-- No number stands in the list twice.
abbrev pub Distinct : List ℕ → Type 0
Distinct xs = (a : ℕ) → count a xs ≤ 1

-- Where a number that stands in a list does so.
pub split_at :
    (a : ℕ) (xs : List ℕ) → 0 < count a xs → (us : List ℕ) × (vs : List ℕ) × (xs ≡ us ++ (a ∷ vs))
split_at a [] h = absurd (omega arith)
split_at a (x ∷ xs) h = elim (eq_or_ne a x) [
  | inl e ↦ ([], xs, cc)
  | inr n ↦ let (us, vs, p) = split_at a xs (ground arith) in (x ∷ us, vs, cc)
]
