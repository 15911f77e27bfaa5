-- ===== src/Heap/Objects.antt =====
-- src/include/objectheader.h and `NewSourceHeap` of src/include/warpheap.h: a header of two words, the
-- magic word and the size, before each object, over any heap that hands out memory upwards.
use dthreads.Base.{
  ℕ, false, ◌+◌, ◌-◌, ◌%◌, ◌^◌, ◌≤◌, ◌<◌, ◌≡◌, ◌≢◌, refl, ap, Option, none, some, ◌==◌, ==_ne,
  eq_or_ne, inl, inr, if◌then◌else◌, ◌>>=◌, arith, ltb, dec_lt, lt→ltb,
}
use mathlib.Core.Option.{none-ne-some, some-injective}
use dthreads.Base.Maps.{update}
use dthreads.Persist.{page_size}
use dthreads.Heap.{Heap, heap_magic, bump, round_up}
use dthreads.Heap.Bump.{round_up-bounds}

-- What the object heap uses of the heap below: a block lies above all that has been handed out.
pub record Source (S : Type 0) : Type 0 where
  pub malloc : ℕ → S → Option (ℕ × S)
  pub top : S → ℕ
  pub grows :
      (n p : ℕ) (s s' : S)
      → n + page_size < 2 ^ 64
      → malloc n s ≡ some (p, s')
      → (top s ≤ p) × (p + n ≤ top s')

-- The heap below and the words of memory.
pub record Objects (S : Type 0) : Type 0 where
  pub source : S
  pub words : ℕ → ℕ

module _ {S : Type 0} (src : Source S) where
  -- `malloc`: a NULL is passed on.
  unfoldable pub object_malloc : (sz : ℕ) → Objects S → Option (ℕ × Objects S)
  object_malloc sz o = do
    (ptr, s) ← src.malloc ((sz + 16) % 2 ^ 64) o.source
    if ptr == 0
        then some (0, record o { source = s })
        else some (
          ptr + 16,
          record { source = s; words = update (update o.words ptr heap_magic) (ptr + 8) sz },
        )

  -- `getSize`: `none` is the `abort` of the check of the magic word.
  unfoldable pub object_get_size : (ptr : ℕ) → Objects S → Option ℕ
  object_get_size ptr o =
      if o.words (ptr - 16) == heap_magic then some (o.words (ptr - 8)) else none

  -- An object of the size stands at `ptr`.
  pub record Holds (o : Objects S) (ptr sz : ℕ) : Type 0 where
    pub header : 16 ≤ ptr
    pub below : ptr ≤ src.top o.source
    pub magic : o.words (ptr - 16) ≡ heap_magic
    pub size : o.words (ptr - 8) ≡ sz

  pub Holds-object_get_size :
      {o : Objects S} (ptr sz : ℕ) → Holds o ptr sz → object_get_size ptr o ≡ some sz
  unfolding object_get_size
  Holds-object_get_size ptr sz h = rw (h.magic, h.size) refl

  -- When the heap below hands out a block, `malloc` returns an object in it whose size reads back, and
  -- every object that was there stays, with its size.
  object_malloc-Holds :
      {o : Objects S} (sz block : ℕ) (s : S)
      → sz + 16 + page_size < 2 ^ 64
      → block ≢ 0
      → src.malloc ((sz + 16) % 2 ^ 64) o.source ≡ some (block, s)
      → (o' : Objects S) × (object_malloc sz o ≡ some (block + 16, o'))
        × (object_get_size (block + 16) o' ≡ some sz)
        × ((ptr n : ℕ) → Holds o ptr n → Holds o' ptr n)
  unfolding object_malloc object_get_size
  object_malloc-Holds {o} sz block s l solid run =
      let (low, high) = src.grows ((sz + 16) % 2 ^ 64) block o.source s (omega (arith, l)) run in
      let o' : Objects S = record {
        source = s;
        words = update (update o.words block heap_magic) (block + 8) sz;
      } in
      (
        o',
        rw (run, ==_ne block 0 solid) refl,
        ground arith,
        λ ptr n h. record {
          header = h.header;
          below = omega (arith, h.below, low, high);
          magic = ground (arith, h.magic, h.header, h.below, low);
          size = ground (arith, h.size, h.header, h.below, low);
        },
      )

pub bump-grows :
    (n p : ℕ) (h h' : Heap)
    → n + page_size < 2 ^ 64
    → bump n h ≡ some (p, h')
    → (h.position ≤ p) × (p + n ≤ h'.position)
unfolding bump
bump-grows n p h h' l run = elim (eq_or_ne h.remaining 0) [
  | inl e ↦ absurd (none-ne-some _ (rw e at run))
  | inr k ↦ elim (dec_lt h.remaining (round_up n)) [
    | yes less ↦
        absurd
          (none-ne-some _ (rw (==_ne h.remaining 0 k, lt→ltb h.remaining (round_up n) less) at run))
    | no fits ↦
        let (pages, whole, enough, tight) = round_up-bounds n l in
        let ran =
          rw (==_ne h.remaining 0 k, le→not_ltb h.remaining (round_up n) (omega (arith, fits))) at
            run in
        let same = some-injective _ _ ran in
        (
          omega (arith, ap (λ x. x.0) same),
          omega (arith, ap (λ x. x.0) same, ap (λ x. x.1.position) same, enough),
        )
  ]
]
  where
    le→not_ltb : (a b : ℕ) → b ≤ a → ltb a b ≡ false
    le→not_ltb a b p = ground (arith, p)

-- The heap of pages is such a heap.
abbrev pub bump_source : Source Heap
bump_source = record { malloc = bump; top = λ h. h.position; grows = bump-grows }
