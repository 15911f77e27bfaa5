-- ===== src/Links/Chain.antt =====
-- The entries that a circular list of src/include/list.h runs through, in order.
use dthreads.Base.{
  ◌+◌, ◌≤◌, ◌<◌, ◌∙◌, ◌≡◌, ◌≢◌, refl, List, [], ◌∷◌, ◌++◌, append-nil, arith, Distinct, count,
  count-append,
}
use dthreads.Links.{Ptr, null, Links}

-- From `a` the links lead through `xs` to `b`, and back.
abbrev pub Chain : Links → Ptr → List Ptr → Ptr → Type 0
Chain m a [] b = (m.next a ≡ b) × (m.prev b ≡ a)
Chain m a (x ∷ xs) b = (m.next a ≡ x) × (m.prev x ≡ a) × Chain m x xs b

abbrev pub Cycle : Links → List Ptr → Type 0
Cycle m [] = Unit
Cycle m (x ∷ xs) = Chain m x xs x

-- `xs` is a circular list: its entries are distinct and none is NULL.
pub record IsRing (m : Links) (xs : List Ptr) : Type 0 where
  pub linked : Cycle m xs
  pub distinct : Distinct xs
  pub solid : count null xs ≡ 0

-- The pointer to the first entry, NULL for the empty list.
abbrev pub first : List Ptr → Ptr
first [] = null
first (x ∷ xs) = x

-- The links of every entry outside `xs` are the same in `m'` as in `m`.
abbrev pub SameOutside : List Ptr → Links → Links → Type 0
SameOutside xs m m' = (a : Ptr) → count a xs ≡ 0 → (m'.next a ≡ m.next a) × (m'.prev a ≡ m.prev a)

module _ (m : Links) where
  pub Chain-append :
      (a : Ptr) (xs : List Ptr) (y : Ptr) (ys : List Ptr) (b : Ptr)
      → Chain m a xs y
      → Chain m y ys b
      → Chain m a (xs ++ (y ∷ ys)) b
  Chain-append a [] y ys b c d = (c.0, c.1, d)
  Chain-append a (x ∷ xs) y ys b c d = (c.0, c.1, Chain-append x xs y ys b c.2 d)

  pub Chain-split :
      (a : Ptr) (xs : List Ptr) (y : Ptr) (ys : List Ptr) (b : Ptr)
      → Chain m a (xs ++ (y ∷ ys)) b
      → Chain m a xs y × Chain m y ys b
  Chain-split a [] y ys b c = ((c.0, c.1), c.2)
  Chain-split a (x ∷ xs) y ys b c = let (p, q) = Chain-split x xs y ys b c.2 in ((c.0, c.1, p), q)

  pub Cycle-rotate : (xs ys : List Ptr) → Cycle m (xs ++ ys) → Cycle m (ys ++ xs)
  Cycle-rotate [] ys c = rw append-nil c
  Cycle-rotate (x ∷ xs) [] c = rw append-nil at c
  Cycle-rotate (x ∷ xs) (y ∷ ys) c =
      let (p, q) = Chain-split x xs y ys x c in Chain-append y ys x xs y q p

  pub IsRing-rotate : (xs ys : List Ptr) → IsRing m (xs ++ ys) → IsRing m (ys ++ xs)
  IsRing-rotate xs ys r = record {
    linked = Cycle-rotate xs ys r.linked;
    distinct = λ a. omega (arith, r.distinct a, count-append a xs ys, count-append a ys xs);
    solid = omega (arith, r.solid, count-append null xs ys, count-append null ys xs);
  }

module _ {m m' : Links} where
  -- A chain stands as long as the links that it reads.
  pub Chain-frame :
      (a : Ptr) (xs : List Ptr) (b : Ptr)
      → ((q : Ptr) → 0 < count q (a ∷ xs) → m'.next q ≡ m.next q)
      → ((q : Ptr) → 0 < count q (b ∷ xs) → m'.prev q ≡ m.prev q)
      → Chain m a xs b
      → Chain m' a xs b
  Chain-frame a [] b n p c = (n a (ground arith) ∙ c.0, p b (ground arith) ∙ c.1)
  Chain-frame a (x ∷ xs) b n p c = (
    n a (ground arith) ∙ c.0,
    p x (ground arith) ∙ c.1,
    Chain-frame x xs b (λ q h. n q (ground arith)) (λ q h. p q (ground arith)) c.2,
  )

  pub Cycle-frame :
      (xs : List Ptr)
      → ((q : Ptr) → 0 < count q xs → (m'.next q ≡ m.next q) × (m'.prev q ≡ m.prev q))
      → Cycle m xs
      → Cycle m' xs
  Cycle-frame [] s c = tt
  Cycle-frame (x ∷ xs) s c = Chain-frame x xs x (λ q h. (s q h).0) (λ q h. (s q h).1) c

  -- A ring stands when the links change in places that it does not pass.
  pub IsRing-frame :
      (ys xs : List Ptr)
      → SameOutside ys m m'
      → ((a : Ptr) → count a xs + count a ys ≤ 1)
      → IsRing m xs
      → IsRing m' xs
  IsRing-frame ys xs s apart r = record {
    linked = Cycle-frame xs (λ q h. s q (omega (arith, apart q))) r.linked;
    distinct = r.distinct;
    solid = r.solid;
  }

-- The first entry of a circle comes behind the last one.
pub Chain-ends :
    (m : Links) (t : Ptr) (us : List Ptr)
    → Chain m t us t
    → (m.prev (first (us ++ (t ∷ []))) ≡ t) × (m.next t ≡ first (us ++ (t ∷ [])))
Chain-ends m t [] c = (c.1, c.0)
Chain-ends m t (u ∷ us) c = (c.1, c.0)

pub first-append :
    (us : List Ptr) (t : Ptr) (vs : List Ptr) → first (us ++ (t ∷ vs)) ≡ first (us ++ (t ∷ []))
first-append [] t vs = refl
first-append (u ∷ us) t vs = refl

pub first_solid :
    (zs : List Ptr) (p : Ptr) → count null (p ∷ zs) ≡ 0 → first (zs ++ (p ∷ [])) ≢ null
first_solid [] p h = ground arith
first_solid (z ∷ zs) p h = ground arith

pub first_ne :
    (e : Ptr) (ws : List Ptr) (p : Ptr) → count e (ws ++ (p ∷ [])) ≡ 0 → first (ws ++ (p ∷ [])) ≢ e
first_ne e [] p h = ground arith
first_ne e (w ∷ ws) p h = ground arith

-- The first entry is one of the list.
pub first_in : (zs : List Ptr) (z : Ptr) → 0 < count (first (zs ++ (z ∷ []))) (z ∷ zs)
first_in [] z = ground arith
first_in (a ∷ zs) z = ground arith
