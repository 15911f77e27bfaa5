-- ===== src/System/Round.antt =====
-- A whole round of src/include/xrun.h, from one fence to the next: any schedule, and then the turns.
use dthreads.Base.{
  ℕ, ◌+◌, ◌^◌, ◌≤◌, ◌<◌, ◌≡◌, ◌∙◌, sym, ap, subst, inl, inr, some, List, [], ◌∷◌, arith, count,
  length, eq_or_ne, >>=-run,
}
use dthreads.Links.{Ptr}
use dthreads.Persist.{Bytes, page_size}
use dthreads.Persist.Commit.Done.{pages_of}
use dthreads.Determ.{index_of}
use dthreads.Determ.Token.Ring.{IsWell, few}
use dthreads.System.{Act, Thread, World, run_schedule, run_rounds}
use dthreads.System.Rounds.{take_turns-IsQuiet}
use dthreads.System.Turns.{IsBegun}
use dthreads.System.Publication.{
  publish_all, writers, all_entries, Standing, AreBegun, AreReady, indices,
}
use dthreads.System.Fence.{take_turns-IsRenewed}
use dthreads.System.Gather.{written, IsTracked}
use dthreads.System.Tracking.{written_by-le, run_schedule-IsTracking}
use dthreads.System.Waiting.{
  IsClean, AreWaiting, indices-length, indices-Distinct, clean-IsTracking, waiting-AreReady,
  waiting-writers, waiting-running,
}

-- One of the threads after the round.
IsBegun-at :
    {L : Type 0} (f f' : ℕ → Thread L) (xs : List Ptr) (ts : List (Thread L × L)) (i : ℕ)
    → Standing f xs ts
    → AreBegun f' xs ts
    → 0 < count i (indices xs)
    → (next : L) × IsBegun (f i) next (f' i)
IsBegun-at f f' [] [] i st b m = absurd (omega (arith, m))
IsBegun-at f f' [] (t ∷ ts) i st b m = absurd (omega (arith, st))
IsBegun-at f f' (x ∷ xs) [] i st b m = absurd (omega (arith, st))
IsBegun-at f f' (x ∷ xs) ((t, next) ∷ ts) i (e, st) (b, bs) m = elim (eq_or_ne i (index_of x)) [
  | inl y ↦ (
    next,
    subst (λ k. IsBegun (f k) next (f' k)) (sym y)
        (subst (λ u. IsBegun u next (f' (index_of x))) (sym e) b),
  )
  | inr d ↦ IsBegun-at f f' xs ts i st bs (ground (arith, m, d))
]

begun-closed :
    {L : Type 0} (vs : ℕ → ℕ) (t t' : Thread L) (next : L) (n : ℕ)
    → IsTracked vs t
    → IsBegun t next t'
    → written (t'.process.protection n) ≡ 0
begun-closed vs t t' next n k b = elim (eq_or_ne (count n (pages_of t.process.dirty)) 0) [
  | inl z ↦ ap written (b.kept n z) ∙ sym (k.pages n) ∙ z
  | inr d ↦ ap written (b.dropped n (omega (arith, d))).1
]

module _ {L : Type 0} (code : L → (ℕ → Bytes) → Act L) (xs : List Ptr) (ts : List (Thread L × L))
    (owed : ℕ) (js : List ℕ) (w : World L) where
  abbrev reached : World L
  reached = run_schedule code js w

  -- A whole round of the program succeeds, and has one outcome. The ring is well formed, and its
  -- threads start with no page written to, where no page has a user, an owner or a twin page; they, and
  -- no others, run in any order and take any page faults until all of them wait at the fence; and
  -- there are enough indices of twin pages for their entries, and the version of each page is below
  -- 2 ^ 31, so that the `int` of an entry holds it. Then they all commit in the order of the token: each byte becomes that of the last thread that has written to its page and has made it
  -- differ from what it was at the fence, or else stays as it was. The token is where it was, each
  -- thread goes on behind the fence, and the version of each page counts the threads that have written
  -- to it. The next round can begin in the same way while the versions are below 2 ^ 31.
  pub run_rounds-IsClean :
      IsWell w.determ xs owed
      → IsClean xs w
      → ((i : ℕ) → 0 < count i js → 0 < count i (indices xs))
      → Standing (run_schedule code js w).threads xs ts
      → AreWaiting code ts
      → w.shared.bitmap.cur + all_entries ts ≤ 3071
      → ((n : ℕ) → w.shared.versions n < 2 ^ 31)
      → (w' : World L) × (run_rounds code ((js, length xs) ∷ []) w ≡ some w')
        × ((n j : ℕ)
            → j < page_size
            → w'.shared.persistent n j
              ≡ publish_all ts n j (w.shared.persistent n j) (w.shared.persistent n j))
        × (w'.determ ≡ w.determ)
        × AreBegun w'.threads xs ts
        × IsClean xs w'
        × ((n : ℕ) → w'.shared.versions n ≡ w.shared.versions n + writers ts n)
  unfolding run_rounds
  run_rounds-IsClean ring c inside st a room low =
      let short = few owed ring in
      let k =
        run_schedule-IsTracking code (indices xs) w (omega (arith, short, indices-length xs))
          (indices-Distinct xs ring.ring.distinct ring.ring.solid) low js w inside
          (λ i m. waiting-running code w.shared.versions reached.threads xs ts i st a m)
          (clean-IsTracking xs w c) in
      let same =
        λ (n : ℕ). waiting-writers code w.shared.versions reached.threads xs ts n k.threads st in
      let (w', run, r) =
        take_turns-IsRenewed code xs ts owed reached
          (subst (λ d. IsWell d xs owed) (sym k.determ) ring) st
          (subst (λ vs. AreReady code vs ts) (sym k.view.versions)
            (waiting-AreReady code w.shared.versions reached.threads xs ts
              (λ i m. (k.threads i m, k.quiet.plain i)) st a))
          (record {
            users = λ n. k.users n ∙ sym (same n);
            few = λ n. omega (
              arith,
              same n,
              written_by-le reached.threads (indices xs) n,
              short,
              indices-length xs,
            );
            versions = λ n. omega (arith, ap (λ (x : ℕ → ℕ). x n) k.view.versions, low n);
            free = k.quiet.free;
            no_twin = k.no_twin;
            solid = omega (arith, ap (λ (b : _). b.cur) k.bitmap, c.solid);
            room = omega (arith, ap (λ b. b.cur) k.bitmap, room);
          }) in
      (
        w',
        >>=-run _ run,
        λ n j l.
            r.page n j l
            ∙ (λ i. publish_all ts n j (k.view.persistent i n j) (k.view.persistent i n j)),
        r.token ∙ k.determ,
        r.begun,
        record {
          quiet = take_turns-IsQuiet code (length xs) reached w' k.quiet run;
          clean = λ i m. (IsBegun-at reached.threads w'.threads xs ts i st r.begun m).1.clean;
          closed = λ i m n.
              let (next, b) = IsBegun-at reached.threads w'.threads xs ts i st r.begun m in
              begun-closed w.shared.versions (reached.threads i) (w'.threads i) next n
                (k.threads i m) b;
          users = r.users;
          no_twin = r.no_twin;
          solid = r.sound.solid;
        },
        λ n. omega (
          arith,
          r.versions n,
          ap (λ (x : ℕ → ℕ). x n) k.view.versions,
          low n,
          same n,
          written_by-le reached.threads (indices xs) n,
          short,
          indices-length xs,
        ),
      )
