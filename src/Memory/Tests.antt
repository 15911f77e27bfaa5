-- ===== src/Memory/Tests.antt =====
-- The theorems on src/source/libdthread.cpp for a heap that hands out memory upwards, as long as there is
-- some, and writes a header of 16 bytes before each block.
mod Regions
use dthreads.Base.{
  ℕ, ◌+◌, ◌%◌, ◌^◌, ◌<◌, ◌≤◌, ◌≡◌, ◌≢◌, ◌⊎◌, inl, inr, refl, true, Option, none, some, List, [],
  ◌∷◌, ◌==◌, ltb, leb, ◌&&◌, if◌then◌else◌, arith, Bool, false, ap, sym, subst, ◌∙◌,
}
use mathlib.Core.Option.{none-ne-some, some-injective}
use dthreads.Base.Maps.{update, update_self, update_ne}
use dthreads.Memory.Alloc.{Allocator, Memory}

-- The position, and the sizes of the blocks.
record Upward : Type 0 where
  top : ℕ
  sizes : ℕ → ℕ

abbrev header : (at size : ℕ) → (ℕ → ℕ) → ℕ → ℕ
header at size b a = if leb at a && ltb a (at + 16) then size % 256 else b a

abbrev after_block : (size : ℕ) → Upward → Upward
after_block size u = record { top = u.top + 16 + size; sizes = update u.sizes (u.top + 16) size }

abbrev take_block : (heapid size : ℕ) → Upward → (ℕ → ℕ) → Option (ℕ × Upward × (ℕ → ℕ))
take_block heapid size u b =
    if ltb (u.top + 16 + size) 65536
    then some (u.top + 16, after_block size u, header u.top size b)
    else none

abbrev IsBlock : Upward → (ptr size : ℕ) → Type 0
IsBlock u q n = (u.sizes q ≡ n) × (q + n ≤ u.top)

chosen : {A : Type 0} (t : Bool) (x y : A) → (if t then some x else none) ≡ some y → x ≡ y
chosen true x y e = some-injective x y e
chosen false x y e = absurd (none-ne-some y e)

-- What `take_block` has returned.
taken :
    (heapid size p : ℕ) (u u' : Upward) (b b' : ℕ → ℕ)
    → take_block heapid size u b ≡ some (p, u', b')
    → (u.top + 16 ≡ p) × (after_block size u ≡ u') × (header u.top size b ≡ b')
taken heapid size p u u' b b' run =
    let pair =
      chosen (ltb (u.top + 16 + size) 65536) (u.top + 16, after_block size u, header u.top size b)
        (p, u', b') run in
    (ap (λ x. x.0) pair, ap (λ x. x.1) pair, ap (λ x. x.2) pair)

IsBlock-kept :
    (heapid size p q n : ℕ) (u u' : Upward) (b b' : ℕ → ℕ)
    → take_block heapid size u b ≡ some (p, u', b')
    → IsBlock u q n
    → IsBlock u' q n × ((j : ℕ) → j < n → b' (q + j) ≡ b (q + j))
IsBlock-kept heapid size p q n u u' b b' run (own, below) =
    let (e, eu, eb) = taken heapid size p u u' b b' run in
    (
      subst (λ x. IsBlock x q n) eu
          (
            update_ne u.sizes (u.top + 16) q size (omega (arith, below)) ∙ own,
            omega (arith, below),
          ),
      λ j l. sym (ap (λ (f : ℕ → ℕ). f (q + j)) eb) ∙ ground (arith, l, below),
    )

abbrev upward : Allocator Upward
upward = record {
  malloc = take_block;
  free = λ heapid ptr u b. (u, b);
  get_size = λ ptr u. u.sizes ptr;
  Owns = IsBlock;
  sized = λ u q n own. own.0;
  apart = λ heapid size p q n u u' b b' run own.
      let (e, eu, eb) = taken heapid size p u u' b b' run in inr (omega (arith, e, own.1));
  kept = IsBlock-kept;
  owned = λ heapid size p u u' b b' run solid.
      let (e, eu, eb) = taken heapid size p u u' b b' run in
      subst (λ x. IsBlock x p size) eu
        (subst (λ x. IsBlock (after_block size u) x size) e
          (update_self u.sizes (u.top + 16) size, omega arith));
  freed = λ heapid p m q n u b own own' d. (own', λ j l. refl);
}

-- A block of 100 bytes at 4096 that holds sevens.
abbrev memory : Memory Upward
memory = record { heaps = record { top = 4196; sizes = λ a. 100 }; bytes = λ a. 7; heapid = 0 }
