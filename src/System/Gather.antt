-- ===== src/System/Gather.antt =====
-- What the threads of src/include/xrun.h keep to while they run between two fences: the users of a page
-- are the threads that can write to it, and those have an entry for it.
use dthreads.Base.{
  ℕ, ◌+◌, ◌^◌, ◌<◌, ◌≤◌, ◌≡◌, ◌⊎◌, ◌∙◌, refl, sym, ap, subst, inl, inr, Bool, true, false, Option,
  none, some, List, [], ◌∷◌, ◌==◌, leb, arith, count, if◌then◌else◌, eq_or_ne, Bool-cases,
}
use dthreads.Base.Maps.{update, update_self, update_ne}
use dthreads.Persist.{Bytes}
use dthreads.Persist.Pages.{
  Access, access_none, access_read, access_write, Protection, prot_none, prot_read, prot_write,
  PageInfo, Shared, local_page, insert_dirty, handle_write, mprotect_read, int_version,
  int_version-small,
}
use dthreads.Persist.Commit.Done.{pages_of}
use dthreads.Persist.Commit.Publish.{AreEntries}
use dthreads.Persist.Entries.{PageEntries, alloc_entry}
use dthreads.System.{
  Act, store, compute, synchronise, Thread, fault_with, fault, store_byte, act, run_step,
}
use dthreads.System.Local.{bump, SameView, Unowned, IsPlain, read_fault, none_fault, handled}

-- Whether the process can write to the page without a fault, as a number.
abbrev pub written : Protection → ℕ
written prot_none = 0
written prot_read = 0
written prot_write = 1

pub written-le : (b : Protection) → written b ≤ 1
written-le prot_none = omega arith
written-le prot_read = omega arith
written-le prot_write = omega arith

-- The pages that a process can write to are those that it has an entry for, one for each.
pub record IsTracked {L : Type 0} (vs : ℕ → ℕ) (t : Thread L) : Type 0 where
  pub entries : AreEntries vs t.process.dirty
  pub pages : (n : ℕ) → count n (pages_of t.process.dirty) ≡ written (t.process.protection n)

insert-count :
    (e : PageInfo) (es : List PageInfo) (n : ℕ)
    → count n (pages_of (insert_dirty e es))
      ≡ (if n == e.page_no then 1 else 0) + count n (pages_of es)
unfolding insert_dirty
insert-count e [] n = refl
insert-count e (x ∷ xs) n = ground (arith, insert-count e xs n)

insert-AreEntries :
    (vs : ℕ → ℕ) (e : PageInfo) (es : List PageInfo)
    → e.is_updated ≡ false
    → e.version ≡ vs e.page_no
    → AreEntries vs es
    → AreEntries vs (insert_dirty e es)
unfolding insert_dirty
insert-AreEntries vs e [] f v a = (f, v, 0)
insert-AreEntries vs e (x ∷ xs) f v (fx, vx, a) = elim (Bool-cases (leb x.page_no e.page_no)) [
  | inl l ↦ rw l (fx, vx, insert-AreEntries vs e xs f v a)
  | inr l ↦ rw l (f, v, (fx, vx, a))
]

-- One more page that a process can write to.
abbrev pub grows : Option ℕ → ℕ → ℕ
grows none n = 0
grows (some m) n = if n == m then 1 else 0

written-update :
    (f : ℕ → Protection) (n m : ℕ)
    → written (f n) ≡ 0
    → written (update f n prot_write m) ≡ grows (some n) m + written (f m)
written-update f n m closed = elim (eq_or_ne m n) [
  | inl e ↦
      let one : grows (some n) m ≡ 1 = ground (arith, e) in
      let zero : written (f m) ≡ 0 = ap (λ x. written (f x)) e ∙ closed in
      ap written ((λ i. update f n prot_write (e i)) ∙ update_self f n prot_write)
      ∙ omega (arith, one, zero)
  | inr d ↦
      let none : grows (some n) m ≡ 0 = ground (arith, d) in
      ap written (update_ne f n m prot_write d) ∙ omega (arith, none)
]

-- The step of a thread that does not abort.
pub record IsGrown {L : Type 0} (vs : ℕ → ℕ) (t : Thread L) (s : Shared) (r : Thread L × Shared)
    : Type 0 where
  pub page : Option ℕ
  pub shared : r.1 ≡ bump page s
  pub tracked : IsTracked vs r.0
  pub grown :
      (n : ℕ) → written (r.0.process.protection n) ≡ grows page n + written (t.process.protection n)

module _ {L : Type 0} (vs : ℕ → ℕ) (n : ℕ) (t : Thread L) (s : Shared) (free : Unowned s)
    (q : IsPlain t.process) (k : IsTracked vs t) (same : s.versions ≡ vs)
    (closed : written (t.process.protection n) ≡ 0) (small : (m : ℕ) → vs m < 2 ^ 31) where
  same_state : SameView s s
  same_state = record { persistent = refl; versions = refl; owner = refl }

  fault_with-IsGrown :
      (e : Option (ℕ × PageEntries))
      → t.process.page_info n ≡ access_read
      → ((fault_with e n t s).0.aborted ≡ true) ⊎ IsGrown vs t s (fault_with e n t s)
  unfolding fault_with handle_write
  fault_with-IsGrown none reads = inl refl
  fault_with-IsGrown (some (index, e)) reads =
      let entry : PageInfo = record {
        page_no = n;
        is_updated = false;
        release = t.held index;
        version = int_version (s.versions n);
      } in
      let run =
        handled n (t.held index) t.process s reads
          (read_fault n (t.held index) t.process s free q s same_state) in
      inr (
        subst
          (λ r.
            IsGrown vs t s
              (record t { process = r.0; entries = e; pages = update t.pages index n }, r.1))
          (sym run)
          (record {
            page = some n;
            shared = refl;
            tracked = record {
              entries =
                  insert-AreEntries vs entry t.process.dirty refl
                    (ap (λ (x : ℕ → ℕ). int_version (x n)) same
                      ∙ int_version-small (vs n) (small n))
                    k.entries;
              pages = λ m.
                  insert-count entry t.process.dirty m
                  ∙ ap (λ (x : ℕ). grows (some n) m + x) (k.pages m)
                  ∙ sym (written-update t.process.protection n m closed);
            };
            grown = λ m. written-update t.process.protection n m closed;
          }))

  fault-IsGrown :
      (a : Access)
      → t.process.page_info n ≡ a
      → ((fault a n t s).0.aborted ≡ true) ⊎ IsGrown vs t s (fault a n t s)
  unfolding fault handle_write mprotect_read
  fault-IsGrown access_none e =
      let run =
        handled n false t.process s e (none_fault n false t.process s free q s same_state) in
      let open_to : (m : ℕ)
          → written (update t.process.protection n prot_read m) ≡ written (t.process.protection m) =
        λ m. elim (eq_or_ne m n) [
          | inl e ↦
              ap written (
                (λ i. update t.process.protection n prot_read (e i))
                ∙ update_self t.process.protection n prot_read)
              ∙ sym (ap (λ x. written (t.process.protection x)) e ∙ closed)
          | inr d ↦ ap written (update_ne t.process.protection n m prot_read d)
        ] in
      inr (
        subst (λ r. IsGrown vs t s (record t { process = r.0 }, r.1)) (sym run)
          (record {
            page = none;
            shared = refl;
            tracked = record { entries = k.entries; pages = λ m. k.pages m ∙ sym (open_to m) };
            grown = λ m. omega (arith, open_to m);
          }))
  fault-IsGrown access_read e = fault_with-IsGrown (alloc_entry t.entries) e
  fault-IsGrown access_write e = absurd (q.pages n e)

module _ {L : Type 0} (vs : ℕ → ℕ) (t : Thread L) (s : Shared) (free : Unowned s)
    (q : IsPlain t.process) (k : IsTracked vs t) (same : s.versions ≡ vs)
    (small : (m : ℕ) → vs m < 2 ^ 31) where
  stays :
      (t' : Thread L)
      → IsTracked vs t'
      → t'.process.protection ≡ t.process.protection
      → IsGrown vs t s (t', s)
  stays t' k' e = record {
    page = none;
    shared = refl;
    tracked = k';
    grown = λ n. let h = ap (λ (x : ℕ → Protection). written (x n)) e in omega (arith, h);
  }

  store_byte-IsGrown :
      (b : Protection) (n offset value : ℕ) (next : L)
      → t.process.protection n ≡ b
      → ((store_byte b n offset value next t s).0.aborted ≡ true)
        ⊎ IsGrown vs t s (store_byte b n offset value next t s)
  unfolding store_byte
  store_byte-IsGrown prot_write n offset value next e =
      inr (stays _ (record { entries = k.entries; pages = k.pages }) refl)
  store_byte-IsGrown prot_read n offset value next e =
      fault-IsGrown vs n t s free q k same (ap written e) small (t.process.page_info n) refl
  store_byte-IsGrown prot_none n offset value next e =
      fault-IsGrown vs n t s free q k same (ap written e) small (t.process.page_info n) refl

  act-IsGrown : (a : Act L) → ((act a t s).0.aborted ≡ true) ⊎ IsGrown vs t s (act a t s)
  unfolding act
  act-IsGrown (store n offset value next) =
      store_byte-IsGrown (t.process.protection n) n offset value next refl
  act-IsGrown (compute next) = inr (stays _ (record { entries = k.entries; pages = k.pages }) refl)
  act-IsGrown (synchronise next) = inr (stays _ k refl)

  running_or_not :
      (b : Bool) (r : Thread L × Shared)
      → t.aborted ≡ b
      → ((r.0.aborted ≡ true) ⊎ IsGrown vs t s r)
      → ((if b then (t, s) else r).0.aborted ≡ true) ⊎ IsGrown vs t s (if b then (t, s) else r)
  running_or_not true r e h = inl e
  running_or_not false r e h = h

  -- A step leaves the thread aborted, or one page more is counted and can be written to, or none.
  pub run_step-IsGrown :
      (code : L → (ℕ → Bytes) → Act L)
      → ((run_step code t s).0.aborted ≡ true) ⊎ IsGrown vs t s (run_step code t s)
  unfolding run_step
  run_step-IsGrown code =
      let a = code t.here (λ n. local_page n t.process s) in
      running_or_not t.aborted (act a t s) refl (act-IsGrown a)
