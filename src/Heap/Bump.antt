-- ===== src/Heap/Bump.antt =====
-- What src/include/xheap.h hands out: blocks of whole pages that do not overlap.
use dthreads.Base.{
  ℕ, ◌+◌, ◌-◌, ◌*◌, ◌/◌, ◌^◌, ◌≤◌, ◌<◌, ◌≡◌, ◌≢◌, refl, Option, none, some, List, [], ◌∷◌, ltb, leb,
  ◌&&◌, ◌⊎◌, if◌then◌else◌, ◌>>=◌, arith, dec_lt, eq_or_ne, inl, inr, ==_ne, lt→ltb,
}
use dthreads.Persist.{page_size}
use dthreads.Heap.{Heap, bump, round_up}

-- The region `size` is whole pages, handed out up to the position.
pub record IsHeap (h : Heap) (size : ℕ) : Type 0 where
  pub used : ℕ
  pub free : ℕ
  pub position : h.position ≡ h.start + used * page_size
  pub remaining : h.remaining ≡ free * page_size
  pub total : size ≡ (used + free) * page_size
  pub bounded : h.start + size < 2 ^ 64

-- Rounding gives whole pages, enough for the request, and less than a page more.
pub round_up-bounds :
    (sz : ℕ)
    → sz + page_size < 2 ^ 64
    → (pages : ℕ) × (round_up sz ≡ pages * page_size)
      × (sz ≤ round_up sz)
      × (round_up sz < sz + page_size)
unfolding round_up
round_up-bounds sz l = ((sz + 4095) / 4096, omega arith, omega arith, omega arith)

-- A request that fits in what remains gets the block at the position, and the heap is as before with
-- the block used; one that does not fit, or comes when nothing remains, ends the program.
bump-IsHeap :
    {h : Heap} {size : ℕ} (sz : ℕ)
    → IsHeap h size
    → sz + page_size < 2 ^ 64
    → ((round_up sz ≤ h.remaining)
        × (h.remaining ≢ 0)
        × (h' : Heap) × (bump sz h ≡ some (h.position, h'))
        × (h'.position ≡ h.position + round_up sz)
        × (h'.remaining + round_up sz ≡ h.remaining)
        × IsHeap h' size)
      ⊎ (((h.remaining ≡ 0) ⊎ (h.remaining < round_up sz)) × (bump sz h ≡ none))
unfolding bump
bump-IsHeap {h} {size} sz w l =
    let (pages, whole, enough, tight) = round_up-bounds sz l in
    elim (eq_or_ne h.remaining 0) [
      | inl e ↦ inr (inl e, rw e refl)
      | inr n ↦ elim (dec_lt h.remaining (round_up sz)) [
        | yes p ↦ inr (inr p, rw (==_ne h.remaining 0 n, lt→ltb h.remaining (round_up sz) p) refl)
        | no p ↦ inl (
          omega (arith, p),
          n,
          record h { remaining = h.remaining - round_up sz; position = h.position + round_up sz },
          ground (arith, n, p),
          refl,
          omega (arith, p),
          record {
            used = w.used + pages;
            free = w.free - pages;
            position = omega (arith, whole, w.position);
            remaining = omega (arith, whole, w.remaining);
            total = omega (arith, whole, w.total, w.remaining, p);
            bounded = w.bounded;
          },
        )
      ]
    ]

-- A sequence of requests: the blocks, each with its size, and the heap.
unfoldable pub bumps : List ℕ → Heap → Option (List (ℕ × ℕ) × Heap)
unfolding bump
bumps [] h = some ([], h)
bumps (sz ∷ szs) h = do
  (block, h) ← bump sz h
  (blocks, h) ← bumps szs h
  some ((block, round_up sz) ∷ blocks, h)

-- The bytes that the requests take, and in how many of the blocks the address `x` lies.
abbrev pub needs : List ℕ → ℕ
needs [] = 0
needs (sz ∷ szs) = round_up sz + needs szs

abbrev pub covers : ℕ → List (ℕ × ℕ) → ℕ
covers x [] = 0
covers x ((block, n) ∷ blocks) =
    (if leb block x && ltb x (block + n) then 1 else 0) + covers x blocks

abbrev pub Sizes : List ℕ → Type 0
Sizes [] = ℕ
Sizes (sz ∷ szs) = (0 < sz) × (sz + page_size < 2 ^ 64) × Sizes szs

-- Requests, each of more than zero bytes and of less than 2 ^ 64 bytes with a page more, that fit
-- together in what remains all succeed, and their blocks tile the memory that the
-- position has passed: each address of it is in exactly one block, and no other address is in any.
pub bumps-tile :
    {h : Heap} {size : ℕ} (szs : List ℕ)
    → IsHeap h size
    → Sizes szs
    → needs szs ≤ h.remaining
    → (blocks : List (ℕ × ℕ)) × (h' : Heap) × (bumps szs h ≡ some (blocks, h'))
      × (h'.position ≡ h.position + needs szs)
      × IsHeap h' size
      × ((x : ℕ) → covers x blocks ≡ (if leb h.position x && ltb x h'.position then 1 else 0))
unfolding bumps
bumps-tile {h} [] w k fits = ([], h, refl, omega arith, w, λ x. ground arith)
bumps-tile {h} (sz ∷ szs) w (positive, l, k) fits =
    let (pages, whole, enough, tight) = round_up-bounds sz l in
    elim (bump-IsHeap sz w l) [
      | inl (p, n, h1, run, at, left, w1) ↦
          let (blocks, h', run', at', w', tile) = bumps-tile szs w1 k (omega (arith, left, fits)) in
          (
            (h.position, round_up sz) ∷ blocks,
            h',
            rw (run, run') refl,
            omega (arith, at, at'),
            w',
            λ x. ground (arith, tile x, at, at', enough, positive),
          )
      | inr (inl e, run) ↦ absurd (omega (arith, e, fits, enough, positive))
      | inr (inr less, run) ↦ absurd (omega (arith, less, fits))
    ]
