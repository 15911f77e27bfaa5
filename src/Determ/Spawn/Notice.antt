-- ===== src/Determ/Spawn/Notice.antt =====
-- Which children of src/include/determ.h the notice of their parent reaches.
use dthreads.Base.{
  ℕ, suc, ◌<◌, ◌≤◌, ◌≡◌, ◌⊎◌, inl, inr, refl, sym, ◌∙◌, ap, subst, Bool, true, false, eq_or_ne,
  arith, dec_lt,
}
use dthreads.Base.Maps.{update, update_self, update_ne}
use dthreads.Determ.Spawn.{
  Child, unborn, born, waiting, awake, Parent, at_work, spawned, sleeping, woken, Nursery,
  wait_parent_notify, wait_child_registered, child_registered, notify_waiting_children, clone,
  signalled, noticed, clones, registers, looks, wakes, notifies, goes_on, child_wakes, init, Reach,
  start, later, wakes_early,
}

-- A child that has registered.
abbrev pub IsIn : Child → Type 0
IsIn c = (c ≡ waiting) ⊎ (c ≡ awake)

-- The last child, by where its parent stands: it is in exactly if the flag is set.
abbrev Last : Parent → Bool → Child → Type 0
Last at_work b c = ◌≡◌ {A = ℕ} 0 1
Last spawned b c = ((b ≡ false) × (c ≡ born)) ⊎ ((b ≡ true) × IsIn c)
Last sleeping b c = (b ≡ false) × (c ≡ born)
Last woken b c = (b ≡ true) × IsIn c

-- Either the parent is at work and all children are in, or it attends to the last of them and all
-- others are in.
record Inv (n : Nursery) : Type 0 where
  later_ones : (i : ℕ) → n.count ≤ i → n.children i ≡ unborn
  state :
      ((n.parent ≡ at_work)
        × (n.childregistered ≡ false)
        × ((i : ℕ) → i < n.count → IsIn (n.children i)))
      ⊎ ((k : ℕ) × (n.count ≡ suc k)
          × Last n.parent n.childregistered (n.children k)
          × ((i : ℕ) → i < k → IsIn (n.children i)))

init-Inv : Inv init
init-Inv = record {
  later_ones = λ i l. refl;
  state = inl (refl, refl, λ i l. absurd (omega (arith, l)));
}

Last-signalled :
    (p : Parent) (b : Bool) (c : Child) → c ≡ born → Last p b c → Last (signalled p) true waiting
Last-signalled at_work b c e l = l
Last-signalled spawned b c e l = inr (refl, inl refl)
Last-signalled sleeping b c e l = (refl, inl refl)
Last-signalled woken b c e l = (refl, inl refl)

-- The child that is not in is the last.
not_in : (c : Child) → c ≡ born → IsIn c → ◌≡◌ {A = ℕ} 0 1
not_in c e (inl h) = absurd cc
not_in c e (inr h) = absurd cc

all-update :
    (f : ℕ → Child) (k : ℕ) (c : Child) (m : ℕ)
    → m ≤ k
    → ((i : ℕ) → i < m → IsIn (f i))
    → (i : ℕ) → i < m
    → IsIn (update f k c i)
all-update f k c m l h i p = subst IsIn (sym (update_ne f k i c (omega (arith, l, p)))) (h i p)

IsIn-noticed : (c : Child) → IsIn c → IsIn (noticed c)
IsIn-noticed unborn h = h
IsIn-noticed born h = h
IsIn-noticed waiting h = inr refl
IsIn-noticed awake h = h

clone-Inv : {n : Nursery} → Inv n → n.parent ≡ at_work → Inv (clone n)
unfolding clone
clone-Inv {n} v h = elim v.state [
  | inl (p, b, all) ↦ record {
    later_ones = λ i l.
        update_ne n.children n.count i born (omega (arith, l)) ∙ v.later_ones i (omega (arith, l));
    state = inr (
      n.count,
      omega arith,
      inl (b, update_self n.children n.count born),
      all-update n.children n.count born n.count (omega arith) all,
    );
  }
  | inr (k, e, last, all) ↦
      absurd (omega (arith, subst (λ p. Last p n.childregistered (n.children k)) h last))
]

register-Inv : {n : Nursery} (i : ℕ) → Inv n → n.children i ≡ born → Inv (wait_parent_notify i n)
unfolding wait_parent_notify
register-Inv {n} i v h = elim (dec_lt i n.count) [
  | no out ↦ absurd (let e = v.later_ones i (omega (arith, out)) in cc)
  | yes inside ↦ elim v.state [
    | inl (p, b, all) ↦ absurd (omega (arith, not_in (n.children i) h (all i inside)))
    | inr (k, e, last, all) ↦ elim (dec_lt i k) [
      | yes less ↦ absurd (omega (arith, not_in (n.children i) h (all i less)))
      | no more ↦
          let same : i ≡ k = omega (arith, more, e, inside) in
          record {
            later_ones = λ j l.
                update_ne n.children i j waiting (omega (arith, l, inside)) ∙ v.later_ones j l;
            state = inr (
              k,
              e,
              subst (λ c. Last (signalled n.parent) true c)
                  (sym (
                    ap (update n.children i waiting) (sym same) ∙ update_self n.children i waiting))
                  (Last-signalled n.parent n.childregistered (n.children k)
                    (ap n.children (sym same) ∙ h) last),
              all-update n.children i waiting k (omega (arith, same)) all,
            );
          }
    ]
  ]
]

-- When the parent goes on, the last child is in.
all-last :
    (n : Nursery) (k : ℕ)
    → n.count ≡ suc k
    → IsIn (n.children k)
    → ((i : ℕ) → i < k → IsIn (n.children i))
    → (i : ℕ) → i < n.count
    → IsIn (n.children i)
all-last n k e w all i l = elim (eq_or_ne i k) [
  | inl same ↦ subst (λ x. IsIn (n.children x)) (sym same) w
  | inr other ↦ all i (omega (arith, l, e, other))
]

look-Inv : {n : Nursery} → Inv n → n.parent ≡ spawned → Inv (wait_child_registered n)
unfolding wait_child_registered
look-Inv {n} v h = elim v.state [
  | inl (p, b, all) ↦ absurd (let e = sym p ∙ h in cc)
  | inr (k, e, last, all) ↦ elim (subst (λ p. Last p n.childregistered (n.children k)) h last) [
    | inl (b, c) ↦ rw b record { later_ones = v.later_ones; state = inr (k, e, (refl, c), all) }
    | inr (b, c) ↦
        rw b record { later_ones = v.later_ones; state = inl (refl, refl, all-last n k e c all) }
  ]
]

wake-Inv : {n : Nursery} → Inv n → n.parent ≡ woken → Inv (child_registered n)
unfolding child_registered
wake-Inv {n} v h = elim v.state [
  | inl (p, b, all) ↦ absurd (let e = sym p ∙ h in cc)
  | inr (k, e, last, all) ↦
      let (b, c) = subst (λ p. Last p n.childregistered (n.children k)) h last in
      record { later_ones = v.later_ones; state = inl (refl, refl, all-last n k e c all) }
]

notify-Inv : {n : Nursery} → Inv n → n.parent ≡ at_work → Inv (notify_waiting_children n)
unfolding notify_waiting_children
notify-Inv {n} v h = elim v.state [
  | inl (p, b, all) ↦ record {
    later_ones = λ i l. ap noticed (v.later_ones i l);
    state = inl (p, b, λ i l. IsIn-noticed (n.children i) (all i l));
  }
  | inr (k, e, last, all) ↦
      absurd (omega (arith, subst (λ p. Last p n.childregistered (n.children k)) h last))
]

IsIn-update : (f : ℕ → Child) (i j : ℕ) → IsIn (f j) → IsIn (update f i awake j)
IsIn-update f i j h = elim (eq_or_ne j i) [
  | inl e ↦ inr (ap (update f i awake) e ∙ update_self f i awake)
  | inr d ↦ subst IsIn (sym (update_ne f i j awake d)) h
]

Last-update :
    (p : Parent) (b : Bool) (f : ℕ → Child) (i k : ℕ)
    → f i ≡ waiting
    → Last p b (f k)
    → Last p b (update f i awake k)
Last-update at_work b f i k w l = l
Last-update spawned b f i k w (inl (e, c)) =
    inl (e, update_ne f i k awake (λ q. absurd (let x = sym c ∙ ap f q ∙ w in cc)) ∙ c)
Last-update spawned b f i k w (inr (e, c)) = inr (e, IsIn-update f i k c)
Last-update sleeping b f i k w (e, c) =
    (e, update_ne f i k awake (λ q. absurd (let x = sym c ∙ ap f q ∙ w in cc)) ∙ c)
Last-update woken b f i k w (e, c) = (e, IsIn-update f i k c)

wakes-Inv : {n : Nursery} (i : ℕ) → Inv n → n.children i ≡ waiting → Inv (child_wakes i n)
unfolding child_wakes
wakes-Inv {n} i v w = record {
  later_ones = λ j l.
      update_ne n.children i j awake
        (λ q. absurd (let x = sym (v.later_ones j l) ∙ ap n.children q ∙ w in cc))
      ∙ v.later_ones j l;
  state = elim v.state [
    | inl (p, b, all) ↦ inl (p, b, λ j l. IsIn-update n.children i j (all j l))
    | inr (k, e, last, all) ↦ inr (
      k,
      e,
      Last-update n.parent n.childregistered n.children i k w last,
      λ j l. IsIn-update n.children i j (all j l),
    )
  ];
}

Reach-Inv : {n : Nursery} {early : ℕ} → Reach early n → early ≡ 0 → Inv n
Reach-Inv start z = init-Inv
Reach-Inv (later r (clones h)) z = clone-Inv (Reach-Inv r z) h
Reach-Inv (later r (registers i h)) z = register-Inv i (Reach-Inv r z) h
Reach-Inv (later r (looks h)) z = look-Inv (Reach-Inv r z) h
Reach-Inv (later r (wakes h)) z = wake-Inv (Reach-Inv r z) h
Reach-Inv (later r (notifies h)) z = notify-Inv (Reach-Inv r z) h
Reach-Inv (later r (goes_on i h)) z = wakes-Inv i (Reach-Inv r z) h
Reach-Inv (wakes_early r h) z = absurd (omega (arith, z))

awake-noticed : (c : Child) → IsIn c → noticed c ≡ awake
awake-noticed c (inl h) = ap noticed h
awake-noticed c (inr h) = ap noticed h

-- As long as no wait of the parent ends without a signal, `notifyWaitingChildren` reaches all children,
-- however they run and whether their own waits end early or not: when the parent calls it, every child
-- that it has spawned is awake afterwards.
pub notice_reaches_all :
    {n : Nursery}
    → Reach 0 n
    → n.parent ≡ at_work
    → (i : ℕ) → i < n.count
    → (notify_waiting_children n).children i ≡ awake
unfolding notify_waiting_children
notice_reaches_all {n} r h i l = elim (Reach-Inv r refl).state [
  | inl (p, b, all) ↦ awake-noticed (n.children i) (all i l)
  | inr (k, e, last, all) ↦
      absurd (omega (arith, subst (λ p. Last p n.childregistered (n.children k)) h last))
]

-- The first wait of the parent that ends without a signal: the child that it waits for misses a notice
-- that the parent gives then, and waits for one when it comes to `waitParentNotify`.
early_wake-misses :
    {n : Nursery}
    → Reach 0 n
    → n.parent ≡ sleeping
    → (k : ℕ) × (n.count ≡ suc k)
      × ((child_registered n).parent ≡ at_work)
      × ((notify_waiting_children (child_registered n)).children k ≡ born)
      × ((wait_parent_notify k (notify_waiting_children (child_registered n))).children k ≡ waiting)
unfolding child_registered notify_waiting_children wait_parent_notify
early_wake-misses {n} r h = elim (Reach-Inv r refl).state [
  | inl (p, b, all) ↦ absurd (let e = sym p ∙ h in cc)
  | inr (k, e, last, all) ↦
      let c = (subst (λ p. Last p n.childregistered (n.children k)) h last).1 in
      (k, e, refl, ap noticed c, update_self {A = Child} (λ i. noticed (n.children i)) k waiting)
]
