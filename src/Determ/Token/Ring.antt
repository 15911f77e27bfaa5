-- ===== src/Determ/Token/Ring.antt =====
-- The ring of active threads of src/include/determ.h, read from the holder of the token on: what a
-- state must satisfy, and how many threads a ring can hold.
use dthreads.Base.{
  ℕ, zero, suc, ◌+◌, ◌≤◌, ◌<◌, ◌≡◌, ◌∙◌, inl, inr, refl, List, [], ◌∷◌, ◌++◌, arith, Distinct,
  count, count-append, length, length-append, eq_or_ne, dec_lt, subst, sym,
}
use dthreads.Links.{Ptr, null}
use dthreads.Links.Chain.{IsRing, first}
use dthreads.Links.Remove.{head_after}
use dthreads.Fence.{decr_fence}
use dthreads.Fence.Family.{sum_below, sum_below_change, sum_below_le}
use dthreads.Determ.{Determ, index_of, max_threads}

-- The head of the active list is an entry of the ring, and NULL only if there is none.
abbrev pub HeadIn : Ptr → List Ptr → Type 0
HeadIn head [] = head ≡ null
HeadIn head (x ∷ xs) = 0 < count head (x ∷ xs)

-- `ts` is the ring from the token holder on, and `owed` is how many of its threads the fence does
-- not count yet: children before `startFence`, and joiners that have not woken.
pub record IsWell (d : Determ) (ts : List Ptr) (owed : ℕ) : Type 0 where
  pub ring : IsRing d.links ts
  pub token : d.tokenpos ≡ first ts
  pub head : HeadIn d.activelist ts
  pub inside : (a : ℕ) → max_threads < a → count a ts ≡ 0
  pub named : (a : ℕ) → 0 < count a ts → (d.entries (index_of a)).threadindex ≡ index_of a
  pub counted : length ts ≡ d.fence.maxthreads + owed

sum-zero : (n : ℕ) → sum_below n (λ _. 0) ≡ 0
unfolding sum_below
sum-zero zero = refl
sum-zero (suc n) = omega (arith, sum-zero n)

sum-one : (n : ℕ) → sum_below n (λ _. 1) ≡ n
unfolding sum_below
sum-one zero = refl
sum-one (suc n) = omega (arith, sum-one n)

sum-at_most_one : (n : ℕ) (w : ℕ → ℕ) → ((k : ℕ) → w k ≤ 1) → sum_below n w ≤ n
sum-at_most_one n w h = omega (arith, sum_below_le n w (λ _. 1) h, sum-one n)

-- Adding the counts of 1 to `n` counts every entry of a list of such numbers.
sum-count :
    (n : ℕ) (xs : List Ptr)
    → count null xs ≡ 0
    → ((a : ℕ) → n < a → count a xs ≡ 0)
    → sum_below n (λ k. count (suc k) xs) ≡ length xs
sum-count n [] s h = sum-zero n
sum-count n (zero ∷ xs) s h = absurd (ground arith)
sum-count n (suc x ∷ xs) s h =
    let i : x < n = elim (dec_lt x n) [ yes p ↦ p | no p ↦ absurd (ground (arith, h (suc x))) ] in
    let e =
      sum_below_change n (λ k. count (suc k) (suc x ∷ xs)) (λ k. count (suc k) xs) x i
        (λ j. ground arith) in
    let ih = sum-count n xs (ground arith) (λ a p. ground (arith, h a)) in ground (arith, e, ih)

-- A list of distinct numbers from 1 to `n` has at most `n` of them.
pub length-le :
    (n : ℕ) (xs : List Ptr)
    → Distinct xs
    → count null xs ≡ 0
    → ((a : ℕ) → n < a → count a xs ≡ 0)
    → length xs ≤ n
length-le n xs d s h =
    omega (arith, sum-count n xs s h, sum-at_most_one n (λ k. count (suc k) xs) (λ k. d (suc k)))

-- The ring never holds more threads than there are entries.
pub few : {d : Determ} {ts : List Ptr} (owed : ℕ) → IsWell d ts owed → length ts ≤ max_threads
few {ts} owed w = length-le max_threads ts w.ring.distinct w.ring.solid w.inside

HeadIn-after :
    (t h x : Ptr) (rest : List Ptr)
    → HeadIn h (t ∷ x ∷ rest)
    → HeadIn (head_after t h (x ∷ rest)) (x ∷ rest)
HeadIn-after t h x rest p = elim (eq_or_ne h t) [
  | inl e ↦
      let q : head_after t h (x ∷ rest) ≡ x = ground arith in
      subst (λ z. HeadIn z (x ∷ rest)) (sym q) (ground arith)
  | inr n ↦
      let q : head_after t h (x ∷ rest) ≡ h = ground arith in
      subst (λ z. HeadIn z (x ∷ rest)) (sym q) (ground arith)
]

HeadIn-insert : (t e h : Ptr) (rest : List Ptr) → HeadIn h (t ∷ rest) → HeadIn h (t ∷ e ∷ rest)
HeadIn-insert t e h rest p = ground arith

-- The holder of the token leaves a ring of two threads or more, and the fence counts one less.
module _ {d : Determ} (t x : Ptr) (rest : List Ptr) (owed : ℕ)
    (w : IsWell d (t ∷ x ∷ rest) owed) where
  pub leave-IsWell :
      (d' : Determ)
      → IsRing d'.links (x ∷ rest)
      → d'.tokenpos ≡ x
      → d'.activelist ≡ head_after t d.activelist (x ∷ rest)
      → ((i : ℕ) → (d'.entries i).threadindex ≡ (d.entries i).threadindex)
      → d'.fence.maxthreads + 1 ≡ d.fence.maxthreads
      → IsWell d' (x ∷ rest) owed
  leave-IsWell d' r p h n c = record {
    ring = r;
    token = p;
    head = subst (λ z. HeadIn z (x ∷ rest)) (sym h) (HeadIn-after t d.activelist x rest w.head);
    inside = λ a q. ground (arith, w.inside a q);
    named = λ a q. n (index_of a) ∙ w.named a (ground arith);
    counted = omega (arith, w.counted, c);
  }

  -- What the thread behind the holder is, by the links.
  pub next_of_holder : d.links.next t ≡ x
  next_of_holder = w.ring.linked.0

  pub decr-maxthreads :
      0 < d.fence.maxthreads → (decr_fence d.fence).maxthreads + 1 ≡ d.fence.maxthreads
  unfolding decr_fence
  decr-maxthreads p = ground (arith, w.counted, few owed w)

-- A thread comes in behind the holder of the token.
module _ {d : Determ} (t e : Ptr) (rest : List Ptr) (owed owed' : ℕ)
    (w : IsWell d (t ∷ rest) owed) where
  pub insert-IsWell :
      (d' : Determ)
      → IsRing d'.links (t ∷ e ∷ rest)
      → e ≤ max_threads
      → d'.tokenpos ≡ t
      → d'.activelist ≡ d.activelist
      → ((i : ℕ) → (d'.entries i).threadindex ≡ (d.entries i).threadindex)
      → (d.entries (index_of e)).threadindex ≡ index_of e
      → d'.fence.maxthreads + owed' ≡ d.fence.maxthreads + owed + 1
      → IsWell d' (t ∷ e ∷ rest) owed'
  insert-IsWell d' r le p h n ne c = record {
    ring = r;
    token = p;
    head =
        subst (λ z. HeadIn z (t ∷ e ∷ rest)) (sym h) (HeadIn-insert t e d.activelist rest w.head);
    inside = λ a q. ground (arith, w.inside a q);
    named = λ a q.
        n (index_of a)
        ∙ elim (eq_or_ne a e) [ inl eq ↦ rw eq ne | inr dif ↦ w.named a (ground arith) ];
    counted = omega (arith, w.counted, c);
  }

-- A whole list of threads comes in behind the holder of the token.
module _ {d : Determ} (t : Ptr) (ws rest : List Ptr) (owed : ℕ) (w : IsWell d (t ∷ rest) owed) where
  pub move-IsWell :
      (d' : Determ)
      → IsRing d'.links (t ∷ (ws ++ rest))
      → ((a : ℕ) → max_threads < a → count a ws ≡ 0)
      → d'.tokenpos ≡ t
      → d'.activelist ≡ d.activelist
      → ((i : ℕ) → (d'.entries i).threadindex ≡ (d.entries i).threadindex)
      → ((a : ℕ) → 0 < count a ws → (d.entries (index_of a)).threadindex ≡ index_of a)
      → d'.fence.maxthreads ≡ d.fence.maxthreads + length ws
      → IsWell d' (t ∷ (ws ++ rest)) owed
  move-IsWell d' r le p h n ne c = record {
    ring = r;
    token = p;
    head =
        subst (λ z. HeadIn z (t ∷ (ws ++ rest))) (sym h)
          (omega (arith, w.head, count-append d.activelist ws rest));
    inside = λ a q. ground (arith, w.inside a q, le a q, count-append a ws rest);
    named = λ a q. n (index_of a) ∙ elim (dec_lt 0 (count a ws)) [
      | yes m ↦ ne a m
      | no m ↦ w.named a (ground (arith, count-append a ws rest))
    ];
    counted = omega (arith, w.counted, c, length-append ws rest);
  }
