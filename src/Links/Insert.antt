-- ===== src/Links/Insert.antt =====
-- `insertTail`, `insertHead` and `insertNext` of src/include/list.h put an entry into the circle.
use dthreads.Base.{
  ◌<◌, ◌∙◌, subst, ◌≡◌, ◌≢◌, some, List, [], ◌∷◌, ◌++◌, arith, Distinct, count, count-append,
  snoc_view, ==_ne, sym, append_assoc,
}
use dthreads.Base.Maps.{update}
use dthreads.Links.{Ptr, null, Links, insert_tail, insert_head, insert_next}
use dthreads.Links.Chain.{
  Chain, IsRing, first, SameOutside, IsRing-rotate, Chain-frame, Chain-ends, first-append,
}

-- `m'` is `m` with `e` linked between `t` and the entry behind it.
record IsSpliced (m : Links) (t e : Ptr) (m' : Links) : Type 0 where
  behind : m'.next t ≡ e
  before : m'.prev e ≡ t
  on : m'.next e ≡ m.next t
  back : m'.prev (m.next t) ≡ e
  next_same : (a : Ptr) → a ≢ t → a ≢ e → m'.next a ≡ m.next a
  prev_same : (a : Ptr) → a ≢ m.next t → a ≢ e → m'.prev a ≡ m.prev a

-- The entry behind `t` is in the circle.
Chain-next : (m : Links) (t : Ptr) (xs : List Ptr) → Chain m t xs t → 0 < count (m.next t) (t ∷ xs)
Chain-next m t [] c = ground arith
Chain-next m t (x ∷ xs) c = ground (arith, c.0)

ring_facts :
    {m : Links} (us : List Ptr) (t e : Ptr) (vs : List Ptr)
    → IsRing m (us ++ (t ∷ vs))
    → count e (us ++ (t ∷ vs)) ≡ 0
    → (t ≢ null) × (m.next t ≢ null) × (e ≢ t) × (e ≢ m.next t)
ring_facts {m} us t e vs r out =
    let r' = IsRing-rotate m us (t ∷ vs) r in
    let c = Chain-next m t (vs ++ us) r'.linked in
    let o : count e (t ∷ (vs ++ us)) ≡ 0 =
      omega (arith, out, count-append e us (t ∷ vs), count-append e (t ∷ vs) us) in
    (ground (arith, r'.solid), ground (arith, r'.solid, c), ground (arith, o), ground (arith, o, c))

module _ {m m' : Links} (t e : Ptr) (s : IsSpliced m t e m') where
  open s use {behind, before, on, back, next_same, prev_same}

  Chain-splice : (ys : List Ptr) → Distinct (e ∷ t ∷ ys) → Chain m t ys t → Chain m' t (e ∷ ys) t
  Chain-splice [] d c = (behind, before, (on ∙ c.0, subst (λ z. m'.prev z ≡ e) c.0 back))
  Chain-splice (y ∷ ys) d c = (
    behind,
    before,
    (
      on ∙ c.0,
      subst (λ z. m'.prev z ≡ e) c.0 back,
      Chain-frame y ys t (λ q h. next_same q (ground (arith, d q)) (ground (arith, d q)))
          (λ q h. prev_same q (ground (arith, d q)) (ground (arith, d q))) c.2,
    ),
  )

  -- `e` comes behind `t`, wherever `t` stands in the circle.
  IsRing-splice :
      (us vs : List Ptr)
      → count e (us ++ (t ∷ vs)) ≡ 0
      → e ≢ null
      → IsRing m (us ++ (t ∷ vs))
      → IsRing m' (us ++ (t ∷ e ∷ vs))
  IsRing-splice us vs out ne r =
      let r' = IsRing-rotate m us (t ∷ vs) r in
      let out' : count e (t ∷ (vs ++ us)) ≡ 0 =
        omega (arith, out, count-append e us (t ∷ vs), count-append e (t ∷ vs) us) in
      IsRing-rotate m' (t ∷ e ∷ vs) us (record {
        linked = Chain-splice (vs ++ us) (λ a. ground (arith, r'.distinct a)) r'.linked;
        distinct = λ a. ground (arith, r'.distinct a);
        solid = ground (arith, r'.solid);
      })

  -- Nothing changes outside the circle and the new entry.
  splice-SameOutside :
      (us vs : List Ptr) → IsRing m (us ++ (t ∷ vs)) → SameOutside (us ++ (t ∷ e ∷ vs)) m m'
  splice-SameOutside us vs r a out =
      let c = Chain-next m t (vs ++ us) (IsRing-rotate m us (t ∷ vs) r).linked in
      let o : count a (t ∷ e ∷ (vs ++ us)) ≡ 0 =
        omega (arith, out, count-append a us (t ∷ e ∷ vs), count-append a (t ∷ e ∷ vs) us) in
      (
        next_same a (ground (arith, o)) (ground (arith, o)),
        prev_same a (ground (arith, o, c)) (ground (arith, o)),
      )

-- What each insertion shows: it returns without a fault, the circle has `e` behind `t`, and the
-- links outside are untouched.
abbrev pub Inserted : Links → (us : List Ptr) → (t e : Ptr) → (vs : List Ptr) → Links → Type 0
Inserted m us t e vs m' = IsRing m' (us ++ (t ∷ e ∷ vs)) × SameOutside (us ++ (t ∷ e ∷ vs)) m m'

splice-Inserted :
    {m m' : Links} (us : List Ptr) (t e : Ptr) (vs : List Ptr)
    → IsSpliced m t e m'
    → IsRing m (us ++ (t ∷ vs))
    → count e (us ++ (t ∷ vs)) ≡ 0
    → e ≢ null
    → Inserted m us t e vs m'
splice-Inserted us t e vs s r out ne =
    (IsRing-splice t e s us vs out ne r, splice-SameOutside t e s us vs r)

-- The links after `e` has been put between `t` and `n`.
abbrev spliced : Links → (t n e : Ptr) → Links
spliced m t n e = record {
  next = update (update m.next t e) e n;
  prev = update (update m.prev n e) e t;
}

spliced-IsSpliced :
    (m : Links) (t e : Ptr) → e ≢ t → e ≢ m.next t → IsSpliced m t e (spliced m t (m.next t) e)
spliced-IsSpliced m t e p q = record {
  behind = ground arith;
  before = ground arith;
  on = ground arith;
  back = ground arith;
  next_same = λ a h k. ground arith;
  prev_same = λ a h k. ground arith;
}

-- `insertHead` puts `e` behind the entry `t` that the head points to, wherever `t` stands in the
-- circle, without a fault, and touches no link outside.
pub insert_head-IsRing :
    {m : Links} (us : List Ptr) (t e : Ptr) (vs : List Ptr)
    → IsRing m (us ++ (t ∷ vs))
    → count e (us ++ (t ∷ vs)) ≡ 0
    → e ≢ null
    → (m' : Links) × (insert_head e t m ≡ some m') × Inserted m us t e vs m'
unfolding insert_head
insert_head-IsRing {m} us t e vs r out ne =
    let f = ring_facts us t e vs r out in
    (
      spliced m t (m.next t) e,
      ground (arith, f),
      splice-Inserted us t e vs (spliced-IsSpliced m t e f.2 f.3) r out ne,
    )

-- `insertNext` puts `e` behind any entry of a circle.
pub insert_next-IsRing :
    {m : Links} (us : List Ptr) (t e : Ptr) (vs : List Ptr)
    → IsRing m (us ++ (t ∷ vs))
    → count e (us ++ (t ∷ vs)) ≡ 0
    → e ≢ null
    → (m' : Links) × (insert_next e t m ≡ some m') × Inserted m us t e vs m'
unfolding insert_next
insert_next-IsRing {m} us t e vs r out ne =
    let f = ring_facts us t e vs r out in
    let m' : Links = record {
      next = update (update m.next e (m.next t)) t e;
      prev = update (update m.prev (m.next t) e) e t;
    } in
    (
      m',
      ground (arith, f),
      splice-Inserted us t e vs
          (record {
            behind = ground (arith, f);
            before = ground (arith, f);
            on = ground (arith, f);
            back = ground (arith, f);
            next_same = λ a h k. ground arith;
            prev_same = λ a h k. ground arith;
          })
          r out ne,
    )

insert_tail-links :
    (m : Links) (x t e : Ptr)
    → x ≢ null
    → t ≢ null
    → e ≢ null
    → m.prev x ≡ t
    → insert_tail e x m ≡ some (x, spliced m t x e)
unfolding insert_tail
insert_tail-links m x t e nx nt ne p = rw (==_ne x null nx, p, ==_ne t null nt, ==_ne e null ne)

insert_tail-last :
    {m : Links} (us : List Ptr) (t e : Ptr)
    → IsRing m (us ++ (t ∷ []))
    → count e (us ++ (t ∷ [])) ≡ 0
    → e ≢ null
    → (m' : Links) × (insert_tail e (first (us ++ (t ∷ []))) m ≡ some (first (us ++ (t ∷ [])), m'))
      × Inserted m us t e [] m'
insert_tail-last {m} us t e r out ne =
    let (nt, nn, et, en) = ring_facts us t e [] r out in
    let (p, n) = Chain-ends m t us (IsRing-rotate m us (t ∷ []) r).linked in
    let x = first (us ++ (t ∷ [])) in
    let s = subst (λ z. IsSpliced m t e (spliced m t z e)) n (spliced-IsSpliced m t e et en) in
    (
      spliced m t x e,
      insert_tail-links m x t e (λ z. nn (n ∙ z)) nt ne p,
      splice-Inserted us t e [] s r out ne,
    )

-- What `insertTail` shows on a list `xs`, empty or not.
abbrev pub Appended : Links → Ptr → List Ptr → Type 0
Appended m e xs =
    (m' : Links) × (insert_tail e (first xs) m ≡ some (first (xs ++ (e ∷ [])), m'))
    × IsRing m' (xs ++ (e ∷ []))
    × SameOutside (xs ++ (e ∷ [])) m m'

-- `insertTail` makes `e` the last entry of the list; the head moves only if the list was empty.
pub insert_tail-IsRing :
    {m : Links} (e : Ptr) (xs : List Ptr)
    → IsRing m xs
    → count e xs ≡ 0
    → e ≢ null
    → Appended m e xs
unfolding insert_tail
insert_tail-IsRing {m} e [] r out ne = (
  record { next = update m.next e e; prev = update m.prev e e },
  rw (==_ne e null ne),
  record {
    linked = (ground arith, ground arith);
    distinct = λ a. ground arith;
    solid = ground arith;
  },
  λ a o. (ground arith, ground arith),
)
insert_tail-IsRing {m} e (x ∷ xs) r out ne =
    let (us, t, q) = snoc_view x xs in
    subst (Appended m e) (sym q) (
      let (m', run, done) =
        insert_tail-last us t e (subst (IsRing m) q r) (subst (λ l. count e l ≡ 0) q out) ne in
      (
        m',
        rw (append_assoc, first-append us t (e ∷ [])) run,
        rw append_assoc done.0,
        rw append_assoc done.1,
      ))
