-- ===== src/Links/Move.antt =====
-- `moveWholeList` of src/include/list.h links one circle into another.
use dthreads.Base.{
  ◌+◌, ◌≤◌, ◌≡◌, ◌≢◌, refl, some, List, [], ◌∷◌, ◌++◌, append_assoc, arith, sym, subst, count,
  count-append, snoc_view, ==_ne,
}
use dthreads.Base.Maps.{update}
use dthreads.Links.{Ptr, null, Links, move_whole_list}
use dthreads.Links.Chain.{
  Chain, Cycle, IsRing, first, SameOutside, IsRing-rotate, Chain-frame, Chain-ends, first_in,
  first_solid, Chain-append,
}

-- The links after the chain from `a` to `z` has been put between `p` and `n`.
abbrev joined : Links → (p n a z : Ptr) → Links
joined m p n a z = record {
  next = update (update m.next z n) p a;
  prev = update (update m.prev n z) a p;
}

move_whole_list-links :
    (m : Links) (p a n z : Ptr)
    → a ≢ null
    → p ≢ null
    → m.next p ≡ n
    → n ≢ null
    → m.prev a ≡ z
    → z ≢ null
    → move_whole_list p a m ≡ some (null, joined m p n a z)
unfolding move_whole_list
move_whole_list-links m p a n z na np en nn ez nz =
    rw (==_ne a null na, ==_ne p null np, en, ==_ne n null nn, ez, ==_ne z null nz)

-- The moved chain hangs behind `p`.
Chain-moved :
    (m : Links) (p n z : Ptr) (zs : List Ptr)
    → ((q : Ptr) → count q (z ∷ zs) ≤ 1)
    → count p (z ∷ zs) ≡ 0
    → count n (z ∷ zs) ≡ 0
    → Chain m z zs z
    → Chain (joined m p n (first (zs ++ (z ∷ []))) z) p zs z
Chain-moved m p n z [] d hp hn c = (ground arith, ground arith)
Chain-moved m p n z (a ∷ zs) d hp hn c = (
  ground arith,
  ground arith,
  Chain-frame a zs z (λ q h. ground (arith, d q)) (λ q h. ground (arith, d q)) c.2,
)

-- The entries that stood behind `p` stand behind `z`.
Chain-pushed :
    (m : Links) (p a z : Ptr) (ws : List Ptr)
    → ((q : Ptr) → count q (p ∷ ws) ≤ 1)
    → count a (p ∷ ws) ≡ 0
    → count z (p ∷ ws) ≡ 0
    → Chain m p ws p
    → Chain (joined m p (first (ws ++ (p ∷ []))) a z) z ws p
Chain-pushed m p a z [] d ha hz c = (ground arith, ground arith)
Chain-pushed m p a z (w ∷ ws) d ha hz c = (
  ground arith,
  ground arith,
  Chain-frame w ws p (λ q h. ground (arith, d q)) (λ q h. ground (arith, d q)) c.2,
)

-- What `moveWholeList` shows: the circle `us`, `p`, `vs` has the moved list `ss` behind `p`, the
-- source is empty, and the links outside of both are untouched.
abbrev pub Moved : Links → (us : List Ptr) → (p : Ptr) → (ss vs : List Ptr) → Type 0
Moved m us p ss vs =
    (m' : Links) × (move_whole_list p (first ss) m ≡ some (null, m'))
    × IsRing m' (us ++ (p ∷ (ss ++ vs)))
    × SameOutside (us ++ (p ∷ (ss ++ vs))) m m'

-- The list to move is `zs`, `z`, and the circle is read from `p` on.
Cycle-joined :
    (m : Links) (p z : Ptr) (zs ws : List Ptr)
    → ((q : Ptr) → count q (p ∷ ws) + count q (z ∷ zs) ≤ 1)
    → Chain m p ws p
    → Chain m z zs z
    → Cycle (joined m p (first (ws ++ (p ∷ []))) (first (zs ++ (z ∷ []))) z) (p ∷ (zs ++ (z ∷ ws)))
Cycle-joined m p z zs ws d c k =
    let a = first (zs ++ (z ∷ [])) in
    let n = first (ws ++ (p ∷ [])) in
    Chain-append _ p zs z ws p
      (Chain-moved m p n z zs (λ q. ground (arith, d q)) (ground (arith, d p))
        (ground (arith, d n, first_in ws p)) k)
      (Chain-pushed m p a z ws (λ q. ground (arith, d q)) (ground (arith, d a, first_in zs z))
        (ground (arith, d z)) c)

move_whole_list-last :
    (m : Links) (us : List Ptr) (p : Ptr) (zs : List Ptr) (z : Ptr) (vs : List Ptr)
    → IsRing m (us ++ (p ∷ vs))
    → IsRing m (zs ++ (z ∷ []))
    → ((a : Ptr) → count a (us ++ (p ∷ vs)) + count a (zs ++ (z ∷ [])) ≤ 1)
    → Moved m us p (zs ++ (z ∷ [])) vs
move_whole_list-last m us p zs z vs r k apart =
    let r' = IsRing-rotate m us (p ∷ vs) r in
    let k' = IsRing-rotate m zs (z ∷ []) k in
    let ws = vs ++ us in
    let a = first (zs ++ (z ∷ [])) in
    let n = first (ws ++ (p ∷ [])) in
    let m' = joined m p n a z in
    let (pz, nz) = Chain-ends m z zs k'.linked in
    let (pw, nw) = Chain-ends m p ws r'.linked in
    let e : (zs ++ (z ∷ [])) ++ vs ≡ zs ++ (z ∷ vs) = append_assoc zs (z ∷ []) vs in
    let e' : (zs ++ (z ∷ vs)) ++ us ≡ zs ++ (z ∷ (vs ++ us)) = append_assoc zs (z ∷ vs) us in
    let d : (q : Ptr) → count q (p ∷ ws) + count q (z ∷ zs) ≤ 1 = λ q. omega (
      arith,
      apart q,
      count-append q us (p ∷ vs),
      count-append q zs (z ∷ []),
      count-append q vs us,
    ) in
    let sum : (q : Ptr)
        → count q (p ∷ (zs ++ (z ∷ (vs ++ us)))) ≡ count q (p ∷ ws) + count q (z ∷ zs) =
      λ q. omega (arith, count-append q zs (z ∷ (vs ++ us))) in
    let outer : (q : Ptr)
        → count q (us ++ (p ∷ ((zs ++ (z ∷ [])) ++ vs))) ≡ count q (p ∷ ws) + count q (z ∷ zs) =
      λ q. rw e (
        omega (
          arith,
          count-append q us (p ∷ (zs ++ (z ∷ vs))),
          count-append q zs (z ∷ vs),
          count-append q vs us,
        )) in
    (
      m',
      move_whole_list-links m p a n z (first_solid zs z k'.solid) (ground (arith, r'.solid)) nw
          (first_solid ws p r'.solid) pz (ground (arith, k'.solid)),
      rw e (
          IsRing-rotate m' (p ∷ (zs ++ (z ∷ vs))) us (record {
            linked =
                subst (λ l. Cycle m' (p ∷ l)) (sym e')
                  (Cycle-joined m p z zs ws d r'.linked k'.linked);
            distinct = λ q. rw e' (omega (arith, sum q, d q));
            solid = rw e' (omega (arith, sum null, r'.solid, k'.solid));
          })),
      λ q out.
          let o = outer q in
          (ground (arith, out, o), ground (arith, out, o, first_in zs z, first_in ws p)),
    )

-- `moveWholeList` puts the entries of one circle, in their order, behind any entry of another.
pub move_whole_list-IsRing :
    (m : Links) (us : List Ptr) (p : Ptr) (ss vs : List Ptr)
    → IsRing m (us ++ (p ∷ vs))
    → IsRing m ss
    → ((a : Ptr) → count a (us ++ (p ∷ vs)) + count a ss ≤ 1)
    → Moved m us p ss vs
unfolding move_whole_list
move_whole_list-IsRing m us p [] vs r k apart = (m, refl, r, λ a o. (refl, refl))
move_whole_list-IsRing m us p (s ∷ ss) vs r k apart =
    let (zs, z, q) = snoc_view s ss in
    subst (λ l. Moved m us p l vs) (sym q)
      (move_whole_list-last m us p zs z vs r (subst (IsRing m) q k)
        (subst (λ l. (a : Ptr) → count a (us ++ (p ∷ vs)) + count a l ≤ 1) q apart))
