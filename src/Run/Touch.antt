-- ===== src/Run/Touch.antt =====
-- `read` and `write` of src/source/libdthread.cpp: before the system call they touch the buffer in the
-- process, so that every page fault is taken there and not in the kernel.
use dthreads.Base.{
  ℕ, zero, suc, ◌+◌, ◌-◌, ◌*◌, ◌/◌, ◌%◌, ◌^◌, ◌<◌, ◌≤◌, ◌≡◌, ◌∙◌, refl, Option, none, some, List,
  [], ◌∷◌, ltb, if◌then◌else◌, ◌>>=◌, lt→ltb, >>=-run, false, dec_lt, ℕ_discrete, ◌⊎◌, inl, inr,
  arith,
}
use dthreads.Persist.{page_size}

-- The loop over the buffer, from its round at `i` on, and the last byte: the addresses in order, in
-- `size_t`. `none` means that the fuel was not enough.
unfoldable pub touches : (fuel start count i : ℕ) → Option (List ℕ)
touches zero start count i = none
touches (suc fuel) start count i =
    let rest = touches fuel start count ((i + page_size) % 2 ^ 64) in
    if ltb i count
    then (do xs ← rest; some ((start + i) % 2 ^ 64 ∷ xs))
    else some ((start + count + (2 ^ 64 - 1)) % 2 ^ 64 ∷ [])

-- One of the addresses is in the page of `a`.
abbrev pub Touched : (a : ℕ) → List ℕ → Type 0
Touched a [] = ◌≡◌ {A = ℕ} 0 1
Touched a (x ∷ xs) = (x / page_size ≡ a / page_size) ⊎ Touched a xs

-- All of the addresses are in the buffer.
abbrev pub Inside : (start count : ℕ) → List ℕ → Type 0
Inside start count [] = ℕ
Inside start count (x ∷ xs) = (start ≤ x) × (x < start + count) × Inside start count xs

Touched-page : (a b : ℕ) (xs : List ℕ) → a / page_size ≡ b / page_size → Touched a xs → Touched b xs
Touched-page a b [] e t = absurd (omega (arith, t))
Touched-page a b (x ∷ xs) e (inl t) = inl (t ∙ e)
Touched-page a b (x ∷ xs) e (inr t) = inr (Touched-page a b xs e t)

-- The rounds from `i` on: they reach every page from there on, and that of the last byte.
touch_from :
    (fuel start count i : ℕ)
    → 0 < count
    → start + count ≤ 2 ^ 64
    → count + page_size ≤ 2 ^ 64
    → i < count + page_size
    → count + page_size ≤ i + page_size * fuel
    → (xs : List ℕ) × (touches fuel start count i ≡ some xs)
      × Inside start count xs
      × ((x : ℕ) → (i ≤ x) ⊎ (x + 1 ≡ count) → x < count → Touched (start + x) xs)
unfolding touches
touch_from zero start count i solid fits room near enough = absurd (omega arith)
touch_from (suc fuel) start count i solid fits room near enough = elim (dec_lt i count) [
  | yes l ↦
      let e : (i + page_size) % 2 ^ 64 ≡ i + page_size = omega (arith, l, room) in
      let here : (start + i) % 2 ^ 64 ≡ start + i = omega (arith, l, fits) in
      let (xs, run, inside, reach) =
        touch_from fuel start count (i + page_size) solid fits room (omega (arith, l))
          (omega (arith, enough)) in
      (
        (start + i) ∷ xs,
        rw (lt→ltb i count l)
            (>>=-run _ ((λ k. touches fuel start count (e k)) ∙ run) ∙ (λ k. some (here k ∷ xs))),
        (omega arith, omega (arith, l), inside),
        λ x which below. elim (ℕ_discrete ((start + i) / page_size) ((start + x) / page_size)) [
          | yes same ↦ inl same
          | no other ↦ inr (elim (dec_lt x (i + page_size)) [
            | no far ↦ reach x (inl (omega (arith, far))) below
            | yes close ↦ elim which [
              | inr last ↦ reach x (inr last) below
              | inl from ↦ elim (dec_lt (i + page_size) count) [
                | yes more ↦
                    Touched-page (start + (i + page_size)) (start + x) xs
                      (omega (arith, other, close, from))
                      (reach (i + page_size) (inl (omega arith)) more)
                | no last ↦
                    Touched-page (start + (count - 1)) (start + x) xs
                      (omega (arith, other, close, from, last, below))
                      (reach (count - 1) (inr (omega (arith, solid))) (omega (arith, solid)))
              ]
            ]
          ])
        ],
      )
  | no k ↦
      let e : (start + count + (2 ^ 64 - 1)) % 2 ^ 64 ≡ start + (count - 1) =
        omega (arith, solid, fits) in
      (
        (start + (count - 1)) ∷ [],
        rw (not_ltb i count k, e) refl,
        (omega arith, omega (arith, solid), 0),
        λ x which below. inl (omega (arith, which, below, k)),
      )
]
  where
    not_ltb : (a b : ℕ) → (a < b → ⊥) → ltb a b ≡ false
    not_ltb a b h = ground (arith, h)

-- The loops of `read` and `write` end, and reach what they are for. For a buffer that is not empty and
-- lies in the address space, with at most 2 ^ 64 - 4096 bytes, `count / 4096 + 2` rounds are enough; the
-- addresses are all in the buffer; and for each byte of the buffer there is one in its page, wherever
-- in a page the buffer starts.
pub touches-pages :
    (start count : ℕ)
    → 0 < count
    → start + count ≤ 2 ^ 64
    → count + page_size ≤ 2 ^ 64
    → (xs : List ℕ) × (touches (count / page_size + 2) start count 0 ≡ some xs)
      × Inside start count xs
      × ((x : ℕ) → x < count → Touched (start + x) xs)
touches-pages start count solid fits room =
    let (xs, run, inside, reach) =
      touch_from (count / page_size + 2) start count 0 solid fits room (omega arith)
        (omega arith) in
    (xs, run, inside, λ x l. reach x (inl (omega arith)) l)

-- With a count of zero, `read` and `write` touch the byte before the buffer; `read` sets it to zero.
touches-before :
    (start fuel : ℕ)
    → 0 < start
    → start < 2 ^ 64
    → touches (suc fuel) start 0 0 ≡ some ((start - 1) ∷ [])
unfolding touches
touches-before start fuel p l =
    let e : (start + 0 + (2 ^ 64 - 1)) % 2 ^ 64 ≡ start - 1 = omega (arith, p, l) in rw e refl
