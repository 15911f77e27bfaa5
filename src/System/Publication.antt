-- ===== src/System/Publication.antt =====
-- All the turns between two fences of src/include/xrun.h: every thread commits once, in the order of the
-- token.
use dthreads.Base.{
  ℕ, zero, suc, ◌+◌, ◌≤◌, ◌<◌, ◌≡◌, ◌∙◌, refl, sym, ap, subst, Option, none, some, List, [], ◌∷◌,
  ◌++◌, arith, count, count-append, Distinct, length, >>=-run, append_assoc, append-nil,
}
use dthreads.Base.Maps.{update, update_self, update_ne}
use dthreads.Links.{Ptr}
use dthreads.Links.Chain.{first}
use dthreads.Persist.{Bytes, page_size}
use dthreads.Persist.Pages.{contents_of}
use dthreads.Persist.Commit.Twins.{IsSound}
use dthreads.Persist.Commit.Done.{pages_of}
use dthreads.Persist.Commit.Pending.{IsPending}
use dthreads.Persist.Commit.Publish.{ArePending, published}
use dthreads.Determ.{index_of}
use dthreads.Determ.Token.Ring.{IsWell}
use dthreads.Determ.Token.Pass.{advanced-IsWell}
use dthreads.System.{Act, Thread, World, take_turns}
use dthreads.System.Turns.{IsReady, IsBegun, take_turn-Published}

-- A byte of a process: that of its copy of the page, or the shared one.
abbrev pub own_byte : Option Bytes → (j now : ℕ) → ℕ
own_byte none j now = now
own_byte (some own) j now = own j

contents-own_byte : (c : Option Bytes) (b : Bytes) (j : ℕ) → contents_of c b j ≡ own_byte c j (b j)
contents-own_byte none b j = refl
contents-own_byte (some own) b j = refl

-- The indices of the entries of the ring.
abbrev pub indices : List Ptr → List ℕ
indices [] = []
indices (x ∷ xs) = index_of x ∷ indices xs

pub indices-count :
    (k : ℕ) (xs : List Ptr) → count 0 xs ≡ 0 → count k (indices xs) ≡ count (suc k) xs
indices-count k [] s = refl
indices-count k (zero ∷ xs) s = absurd (ground (arith, s))
indices-count k (suc x ∷ xs) s = ground (arith, indices-count k xs, s)

absent_later :
    (x : Ptr) (xs ys : List Ptr)
    → Distinct (x ∷ (xs ++ ys))
    → count 0 (x ∷ (xs ++ ys)) ≡ 0
    → count (index_of x) (indices xs) ≡ 0
absent_later zero xs ys d s = absurd (ground (arith, s))
absent_later (suc k) xs ys d s =
    let e : index_of (suc k) ≡ k = omega arith in
    rw e (
      indices-count k xs (ground (arith, s, count-append 0 xs ys))
      ∙ ground (arith, d (suc k), count-append (suc k) xs ys))

module _ {L : Type 0} where
  -- What a byte is, when it was `orig` at the fence and is `now`, after the threads have published theirs:
  -- each thread that has written to the page, in turn, sets the byte if its own is not `orig`.
  abbrev pub publish_all : List (Thread L × L) → (n j orig now : ℕ) → ℕ
  publish_all [] n j orig now = now
  publish_all ((t, next) ∷ ts) n j orig now = publish_all ts n j orig (
      published (own_byte (t.process.copies n) j now) orig now (count n (pages_of t.process.dirty)))

  -- How many of the threads have written to a page, and how many entries they have.
  abbrev pub writers : List (Thread L × L) → (n : ℕ) → ℕ
  writers [] n = 0
  writers ((t, next) ∷ ts) n = count n (pages_of t.process.dirty) + writers ts n

  abbrev pub all_entries : List (Thread L × L) → ℕ
  all_entries [] = 0
  all_entries ((t, next) ∷ ts) = length t.process.dirty + all_entries ts

  -- The threads of the ring, and what they are after the round.
  abbrev pub Standing : (f : ℕ → Thread L) → List Ptr → List (Thread L × L) → Type 0
  Standing f [] [] = ℕ
  Standing f (x ∷ xs) ((t, next) ∷ ts) = (f (index_of x) ≡ t) × Standing f xs ts
  Standing f _ _ = ◌≡◌ {A = ℕ} 0 1

  abbrev pub AreBegun : (f : ℕ → Thread L) → List Ptr → List (Thread L × L) → Type 0
  AreBegun f [] [] = ℕ
  AreBegun f (x ∷ xs) ((t, next) ∷ ts) = IsBegun t next (f (index_of x)) × AreBegun f xs ts
  AreBegun f _ _ = ◌≡◌ {A = ℕ} 0 1

  Standing-update :
      (f : ℕ → Thread L) (i : ℕ) (t' : Thread L) (xs : List Ptr) (ts : List (Thread L × L))
      → count i (indices xs) ≡ 0
      → Standing f xs ts
      → Standing (update f i t') xs ts
  Standing-update f i t' [] [] c h = 0
  Standing-update f i t' [] (t ∷ ts) c h = h
  Standing-update f i t' (x ∷ xs) [] c h = h
  Standing-update f i t' (x ∷ xs) ((t, next) ∷ ts) c (h, hs) = (
    update_ne f i (index_of x) t' (λ e. absurd (ground (arith, c, e))) ∙ h,
    Standing-update f i t' xs ts (ground (arith, c)) hs,
  )

module _ {L : Type 0} (code : L → (ℕ → Bytes) → Act L) (vs : ℕ → ℕ) where
  abbrev pub AreReady : List (Thread L × L) → Type 0
  AreReady [] = ℕ
  AreReady ((t, next) ∷ ts) = IsReady code vs t next × AreReady ts

module _ {L : Type 0} (code : L → (ℕ → Bytes) → Act L) (orig : ℕ → Bytes) (vs : ℕ → ℕ) where
  -- The world when some threads of the ring, `xs`, have had their turn, before `ys`.
  pub record IsPublished (xs ys : List Ptr) (ts : List (Thread L × L)) (done : ℕ → ℕ)
      (w w' : World L) : Type 0 where
    pub ring : w'.determ ≡ record w.determ { tokenpos = first (ys ++ xs) }
    pub page :
        (n j : ℕ)
        → j < page_size
        → w'.shared.persistent n j ≡ publish_all ts n j (orig n j) (w.shared.persistent n j)
    pub sound : IsSound w'.shared
    pub cur : w'.shared.bitmap.cur ≤ w.shared.bitmap.cur + all_entries ts
    pub pending : ArePending orig vs (λ _. 0) (λ n. done n + writers ts n) w'.shared
    pub begun : AreBegun w'.threads xs ts
    pub others : (i : ℕ) → count i (indices xs) ≡ 0 → w'.threads i ≡ w.threads i

  pub take_turns-IsPublished :
      (xs ys : List Ptr) (ts : List (Thread L × L)) (done : ℕ → ℕ) (owed : ℕ) (w : World L)
      → IsWell w.determ (xs ++ ys) owed
      → Standing w.threads xs ts
      → AreReady code vs ts
      → IsSound w.shared
      → w.shared.bitmap.cur + all_entries ts ≤ 3071
      → ArePending orig vs (writers ts) done w.shared
      → (w' : World L) × (take_turns code (length xs) w ≡ some w') × IsPublished xs ys ts done w w'
  unfolding take_turns
  take_turns-IsPublished [] ys [] done owed w ring st r sound room h = (
    w,
    refl,
    record {
      ring = rw append-nil (λ i. record w.determ { tokenpos = ring.token i });
      page = λ n j l. refl;
      sound = sound;
      cur = omega arith;
      pending = λ n. subst (λ k. IsPending n (orig n) (vs n) 0 k w.shared) (omega arith) (h n);
      begun = 0;
      others = λ i c. refl;
    },
  )
  take_turns-IsPublished [] ys (t ∷ ts) done owed w ring st r sound room h =
      absurd (omega (arith, st))
  take_turns-IsPublished (x ∷ xs) ys [] done owed w ring st r sound room h =
      absurd (omega (arith, st))
  take_turns-IsPublished (x ∷ xs) ys ((t, next) ∷ ts) done owed w ring (e, st) (r, rs) sound room
        h =
      let (t', s', run, b, page, sound', cur) =
        take_turn-Published code orig vs x (xs ++ ys) owed w t next (writers ts) done ring e r sound
          (omega (arith, room)) h in
      let v : World L = record {
        threads = update w.threads (index_of x) t';
        shared = s';
        determ = record w.determ { tokenpos = first ((xs ++ ys) ++ (x ∷ [])) };
      } in
      let absent : count (index_of x) (indices xs) ≡ 0 =
        absent_later x xs ys ring.ring.distinct ring.ring.solid in
      let well : IsWell v.determ ((xs ++ ys) ++ (x ∷ [])) owed =
        advanced-IsWell {d = w.determ} x (xs ++ ys) owed ring in
      let (w', runs, k) =
        take_turns-IsPublished xs (ys ++ (x ∷ [])) ts
          (λ n. done n + count n (pages_of t.process.dirty)) owed v
          (subst (λ z. IsWell v.determ z owed) (append_assoc xs ys (x ∷ [])) well)
          (Standing-update w.threads (index_of x) t' xs ts absent st) rs sound'
          (omega (arith, room, cur)) (λ n. (page n).0) in
      (
        w',
        >>=-run _ run ∙ runs,
        record {
          ring = k.ring ∙ rw append_assoc refl;
          page = λ n j l.
              k.page n j l
              ∙ ap (publish_all ts n j (orig n j)) (
                  (page n).1 j l
                  ∙ ap
                      (λ (y : ℕ).
                        published y (orig n j) (w.shared.persistent n j)
                          (count n (pages_of t.process.dirty)))
                      (contents-own_byte (t.process.copies n) (w.shared.persistent n) j));
          sound = k.sound;
          cur = omega (arith, k.cur, cur);
          pending = λ n.
              subst (λ z. IsPending n (orig n) (vs n) 0 z w'.shared) (omega arith) (k.pending n);
          begun = (
            subst (IsBegun t next)
                (sym (k.others (index_of x) absent ∙ update_self w.threads (index_of x) t')) b,
            k.begun,
          );
          others = λ i c.
              k.others i (ground (arith, c))
              ∙ update_ne w.threads (index_of x) i t' (λ z. absurd (ground (arith, c, z)));
        },
      )
