-- ===== src/Links/Remove.antt =====
-- `removeEntry` and `removeHeadEntry` of src/include/list.h take an entry out of the circle.
use dthreads.Base.{
  ◌∙◌, ◌≡◌, ◌≢◌, refl, some, List, [], ◌∷◌, ◌++◌, append_assoc, arith, sym, subst, Distinct, count,
  count-append, snoc_view, ◌==◌, ==_ne, ==_self, if◌then◌else◌,
}
use dthreads.Base.Maps.{update, update_ne}
use dthreads.Links.{Ptr, null, Links, remove_entry, remove_head_entry}
use dthreads.Links.Chain.{
  Chain, Cycle, IsRing, first, SameOutside, IsRing-rotate, Chain-frame, first-append, first_solid,
  first_ne,
}

-- The links after the entry between `p` and `n` has been passed over.
abbrev unlinked : Links → (p n : Ptr) → Links
unlinked m p n = record { next = update m.next p n; prev = update m.prev n p }

Cycle-unlink :
    (m : Links) (p e : Ptr) (zs : List Ptr)
    → Distinct (p ∷ e ∷ zs)
    → Cycle m (p ∷ e ∷ zs)
    → Cycle (unlinked m p (m.next e)) (p ∷ zs)
Cycle-unlink m p e [] d (c, b, (n, q)) = (ground arith, ground arith)
Cycle-unlink m p e (z ∷ zs) d (c, b, (n, q, r)) = (
  ground arith,
  ground arith,
  Chain-frame z zs p (λ x h. ground (arith, d x)) (λ x h. ground (arith, d x)) r,
)

IsRing-unlink :
    (m : Links) (p e : Ptr) (zs : List Ptr)
    → IsRing m (p ∷ e ∷ zs)
    → IsRing (unlinked m p (m.next e)) (p ∷ zs)
IsRing-unlink m p e zs r = record {
  linked = Cycle-unlink m p e zs r.distinct r.linked;
  distinct = λ a. ground (arith, r.distinct a);
  solid = ground (arith, r.solid);
}

-- What the unlinking of `e` needs: its neighbours, and that none is NULL.
record IsBetween (m : Links) (p e : Ptr) : Type 0 where
  before : m.prev e ≡ p
  apart : p ≢ e
  solid : (e ≢ null) × (p ≢ null) × (m.next e ≢ null)

Chain-second :
    (m : Links) (p e : Ptr) (zs : List Ptr)
    → Chain m p (e ∷ zs) p
    → (m.next e ≡ first (zs ++ (p ∷ [])))
Chain-second m p e [] c = c.2.0
Chain-second m p e (z ∷ zs) c = c.2.0

IsRing-IsBetween : (m : Links) (p e : Ptr) (zs : List Ptr) → IsRing m (p ∷ e ∷ zs) → IsBetween m p e
IsRing-IsBetween m p e zs r = record {
  before = r.linked.1;
  apart = ground (arith, r.distinct p);
  solid = (
    ground (arith, r.solid),
    ground (arith, r.solid),
    λ z. first_solid zs p (ground (arith, r.solid)) (sym (Chain-second m p e zs r.linked) ∙ z),
  );
}

remove_entry-links :
    (m : Links) (p e head : Ptr)
    → IsBetween m p e
    → remove_entry e head m ≡ some (if head == e then m.next e else head, unlinked m p (m.next e))
unfolding remove_entry
remove_entry-links m p e head b = rw (
  ==_ne e null b.solid.0,
  b.before,
  ==_ne p e b.apart,
  ==_ne p null b.solid.1,
  ==_ne (m.next e) null b.solid.2,
)

-- What `removeEntry` shows on the circle `us`, `e`, `vs`: `e` is gone, the head is that of the
-- rest, and the links outside are untouched.
abbrev pub Removed : Links → (us : List Ptr) → (e : Ptr) → (vs : List Ptr) → Type 0
Removed m us e vs =
    (m' : Links) × (remove_entry e (first (us ++ (e ∷ vs))) m ≡ some (first (us ++ vs), m'))
    × IsRing m' (us ++ vs)
    × SameOutside (us ++ (e ∷ vs)) m m'

unlinked-SameOutside :
    (m : Links) (p e : Ptr) (zs : List Ptr)
    → IsRing m (p ∷ e ∷ zs)
    → SameOutside (p ∷ e ∷ zs) m (unlinked m p (m.next e))
unlinked-SameOutside m p e [] r a out = (ground arith, ground (arith, r.linked.2.0))
unlinked-SameOutside m p e (z ∷ zs) r a out = (ground arith, ground (arith, r.linked.2.0))

behind_absent :
    (m : Links) (ws : List Ptr) (p e : Ptr) (vs : List Ptr)
    → IsRing m (ws ++ (p ∷ e ∷ vs))
    → count e (ws ++ (p ∷ [])) ≡ 0
behind_absent m ws p e vs r =
    ground (arith, r.distinct e, count-append e ws (p ∷ e ∷ vs), count-append e ws (p ∷ []))

-- An entry with one before it.
remove_entry-behind :
    (m : Links) (ws : List Ptr) (p e : Ptr) (vs : List Ptr)
    → IsRing m (ws ++ (p ∷ e ∷ vs))
    → (m' : Links) × (remove_entry e (first (ws ++ (p ∷ []))) m ≡ some (first (ws ++ (p ∷ [])), m'))
      × IsRing m' (ws ++ (p ∷ vs))
      × SameOutside (ws ++ (p ∷ e ∷ vs)) m m'
remove_entry-behind m ws p e vs r =
    let r' = IsRing-rotate m ws (p ∷ e ∷ vs) r in
    let m' = unlinked m p (m.next e) in
    (
      m',
      remove_entry-links m p e (first (ws ++ (p ∷ []))) (IsRing-IsBetween m p e (vs ++ ws) r')
          ∙ rw (==_ne _ e (first_ne e ws p (behind_absent m ws p e vs r))),
      IsRing-rotate m' (p ∷ vs) ws (IsRing-unlink m p e (vs ++ ws) r'),
      λ a out.
          unlinked-SameOutside m p e (vs ++ ws) r' a
            (omega (arith, out, count-append a ws (p ∷ e ∷ vs), count-append a (p ∷ e ∷ vs) ws)),
    )

-- The first entry of a circle of at least two, the last being `p`.
remove_entry-front :
    (m : Links) (e p : Ptr) (zs : List Ptr)
    → IsRing m (e ∷ zs ++ (p ∷ []))
    → (m' : Links) × (remove_entry e e m ≡ some (first (zs ++ (p ∷ [])), m'))
      × IsRing m' (zs ++ (p ∷ []))
      × SameOutside (e ∷ zs ++ (p ∷ [])) m m'
remove_entry-front m e p zs r =
    let r' = IsRing-rotate m (e ∷ zs) (p ∷ []) r in
    let m' = unlinked m p (m.next e) in
    (
      m',
      remove_entry-links m p e e (IsRing-IsBetween m p e zs r')
          ∙ rw (==_self e, Chain-second m p e zs r'.linked),
      IsRing-rotate m' (p ∷ []) zs (IsRing-unlink m p e zs r'),
      λ a out.
          unlinked-SameOutside m p e zs r' a (omega (arith, out, count-append a (e ∷ zs) (p ∷ []))),
    )

-- `removeEntry` takes any entry out of a circle; the head moves on if it pointed to that entry,
-- and is NULL if the circle was that entry alone.
pub remove_entry-IsRing :
    (m : Links) (us : List Ptr) (e : Ptr) (vs : List Ptr)
    → IsRing m (us ++ (e ∷ vs))
    → Removed m us e vs
unfolding remove_entry
remove_entry-IsRing m [] e [] r = (
  m,
  rw (==_ne e null (ground (arith, r.solid)), r.linked.0, r.linked.1, ==_self e),
  record { linked = tt; distinct = λ a. omega arith; solid = refl },
  λ a o. (refl, refl),
)
remove_entry-IsRing m [] e (v ∷ vs) r =
    let (zs, p, q) = snoc_view v vs in
    subst (Removed m [] e) (sym q) (remove_entry-front m e p zs (subst (λ l. IsRing m (e ∷ l)) q r))
remove_entry-IsRing m (u ∷ us) e vs r =
    let (ws, p, q) = snoc_view u us in
    subst (λ l. Removed m l e vs) (sym q)
      (let (m', run, ring, same) =
          remove_entry-behind m ws p e vs
            (rw append_assoc at (subst (λ l. IsRing m (l ++ (e ∷ vs))) q r)) in
        (
          m',
          rw (append_assoc, first-append ws p (e ∷ vs), append_assoc, first-append ws p vs) run,
          rw append_assoc ring,
          rw append_assoc same,
        ))

-- `removeHeadEntry` gives the first entry and leaves the rest.
pub remove_head_entry-IsRing :
    (m : Links) (e : Ptr) (vs : List Ptr)
    → IsRing m (e ∷ vs)
    → (m' : Links) × (remove_head_entry e m ≡ some (e, first vs, m'))
      × IsRing m' vs
      × SameOutside (e ∷ vs) m m'
unfolding remove_head_entry
remove_head_entry-IsRing m e vs r =
    let (m', run, ring, same) = remove_entry-IsRing m [] e vs r in
    (m', rw (==_ne e null (ground (arith, r.solid)), run), ring, same)

pub remove_head_entry-null : (m : Links) → remove_head_entry null m ≡ some (null, null, m)
unfolding remove_head_entry
remove_head_entry-null m = refl

-- The head after an entry `e` has been removed from the circle that goes on with `rest`.
abbrev pub head_after : Ptr → Ptr → List Ptr → Ptr
head_after e head [] = null
head_after e head (x ∷ rest) = if head == e then x else head

-- What `removeEntry` shows with the circle read from `e` on and a head that points anywhere.
abbrev pub RemovedFrom : Links → (e head : Ptr) → (rest : List Ptr) → Type 0
RemovedFrom m e head rest =
    (m' : Links) × (remove_entry e head m ≡ some (head_after e head rest, m'))
    × IsRing m' rest
    × SameOutside (e ∷ rest) m m'
    × (m'.next e ≡ m.next e)

head_after-append :
    (e head : Ptr) (zs : List Ptr) (p : Ptr)
    → head_after e head (zs ++ (p ∷ [])) ≡ (if head == e then first (zs ++ (p ∷ [])) else head)
head_after-append e head [] p = refl
head_after-append e head (z ∷ zs) p = refl

pub remove_entry-RemovedFrom :
    (m : Links) (e : Ptr) (rest : List Ptr) (head : Ptr)
    → IsRing m (e ∷ rest)
    → RemovedFrom m e head rest
unfolding remove_entry
remove_entry-RemovedFrom m e [] head r = (
  m,
  rw (==_ne e null (ground (arith, r.solid)), r.linked.0, r.linked.1, ==_self e),
  record { linked = tt; distinct = λ a. omega arith; solid = refl },
  λ a o. (refl, refl),
  refl,
)
remove_entry-RemovedFrom m e (x ∷ rest) head r =
    let (zs, p, q) = snoc_view x rest in
    let r' = IsRing-rotate m (e ∷ zs) (p ∷ []) (subst (λ l. IsRing m (e ∷ l)) q r) in
    subst (RemovedFrom m e head) (sym q) (
      unlinked m p (m.next e),
      remove_entry-links m p e head (IsRing-IsBetween m p e zs r')
          ∙ rw (head_after-append, Chain-second m p e zs r'.linked),
      IsRing-rotate (unlinked m p (m.next e)) (p ∷ []) zs (IsRing-unlink m p e zs r'),
      λ a out.
          unlinked-SameOutside m p e zs r' a (omega (arith, out, count-append a (e ∷ zs) (p ∷ []))),
      update_ne m.next p e (m.next e) (λ z. (IsRing-IsBetween m p e zs r').apart (sym z)),
    )
