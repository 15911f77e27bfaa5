-- ===== src/System/Waiting.antt =====
-- The threads of src/include/xrun.h right after a fence, and when they have come to the next.
use dthreads.Base.{
  ℕ, suc, ◌<◌, ◌≡◌, ◌∙◌, refl, sym, ap, subst, inl, inr, false, List, [], ◌∷◌, arith, count,
  Distinct, length, eq_or_ne,
}
use dthreads.Links.{Ptr}
use dthreads.Persist.{Bytes}
use dthreads.Persist.Commit.Done.{pages_of}
use dthreads.Persist.Commit.Publish.{AreEntries}
use dthreads.Determ.{index_of}
use dthreads.System.{Act, synchronise, Thread, World}
use dthreads.System.Local.{IsPlain}
use dthreads.System.Schedule.{IsQuiet}
use dthreads.System.Publication.{writers, Standing, AreReady, indices, indices-count}
use dthreads.System.Gather.{written, written-le, IsTracked}
use dthreads.System.Tracking.{written_by, IsTracking}

-- The world right after a fence: no thread of the ring has written to a page, no page has a user, an owner
-- or a twin page.
pub record IsClean {L : Type 0} (xs : List Ptr) (w : World L) : Type 0 where
  pub quiet : IsQuiet w
  pub clean : (i : ℕ) → 0 < count i (indices xs) → (w.threads i).process.dirty ≡ []
  pub closed :
      (i : ℕ)
      → 0 < count i (indices xs)
      → (n : ℕ) → written ((w.threads i).process.protection n) ≡ 0
  pub users : (n : ℕ) → w.shared.users n ≡ 0
  pub no_twin : (n : ℕ) → w.shared.bitmap_index n ≡ 0
  pub solid : 0 < w.shared.bitmap.cur

-- The threads have come to the fence, and go on where `ts` says.
abbrev pub AreWaiting : {L : Type 0} → (L → (ℕ → Bytes) → Act L) → List (Thread L × L) → Type 0
AreWaiting code [] = ℕ
AreWaiting code ((t, next) ∷ ts) =
    (t.aborted ≡ false)
    × ((view : ℕ → Bytes) → code t.here view ≡ synchronise next)
    × AreWaiting code ts

pub indices-length : (xs : List Ptr) → length (indices xs) ≡ length xs
indices-length [] = refl
indices-length (x ∷ xs) = ap suc (indices-length xs)

pub indices-Distinct : (xs : List Ptr) → Distinct xs → count 0 xs ≡ 0 → Distinct (indices xs)
indices-Distinct xs d s k = omega (arith, indices-count k xs s, d (suc k))

module _ {L : Type 0} (xs : List Ptr) (w : World L) (c : IsClean xs w) where
  pub clean-IsTracking : IsTracking (indices xs) w w
  clean-IsTracking = record {
    quiet = c.quiet;
    threads = λ i m. record {
      entries = subst (AreEntries w.shared.versions) (sym (c.clean i m)) 0;
      pages = λ n. ap (λ es. count n (pages_of es)) (c.clean i m) ∙ sym (c.closed i m n);
    };
    users = λ n. c.users n ∙ sym (none_written (indices xs) n c.closed);
    no_twin = c.no_twin;
    view = record { persistent = refl; versions = refl; owner = refl };
    bitmap = refl;
    determ = refl;
  }
    where
      none_written :
          (is : List ℕ) (n : ℕ)
          → ((i : ℕ) → 0 < count i is → (n : ℕ) → written ((w.threads i).process.protection n) ≡ 0)
          → written_by w.threads is n ≡ 0
      none_written [] n h = refl
      none_written (i ∷ is) n h =
          omega (arith, h i (ground arith) n, none_written is n (λ j m. h j (ground (arith, m))))

module _ {L : Type 0} (code : L → (ℕ → Bytes) → Act L) (vs : ℕ → ℕ) (f : ℕ → Thread L) where
  pub waiting-AreReady :
      (xs : List Ptr) (ts : List (Thread L × L))
      → ((i : ℕ) → 0 < count i (indices xs) → IsTracked vs (f i) × IsPlain (f i).process)
      → Standing f xs ts
      → AreWaiting code ts
      → AreReady code vs ts
  waiting-AreReady [] [] h st a = 0
  waiting-AreReady [] (t ∷ ts) h st a = absurd (omega (arith, st))
  waiting-AreReady (x ∷ xs) [] h st a = 0
  waiting-AreReady (x ∷ xs) ((t, next) ∷ ts) h (e, st) (running, fence, a) =
      let (k, q) =
        subst (λ u. IsTracked vs u × IsPlain u.process) e (h (index_of x) (ground arith)) in
      (
        record {
          running = running;
          at_fence = fence;
          mine = q.pid;
          entries = k.entries;
          pages = λ n. omega (arith, k.pages n, written-le (t.process.protection n));
        },
        waiting-AreReady xs ts (λ i m. h i (ground (arith, m))) st a,
      )

  pub waiting-writers :
      (xs : List Ptr) (ts : List (Thread L × L)) (n : ℕ)
      → ((i : ℕ) → 0 < count i (indices xs) → IsTracked vs (f i))
      → Standing f xs ts
      → writers ts n ≡ written_by f (indices xs) n
  waiting-writers [] [] n h st = refl
  waiting-writers [] (t ∷ ts) n h st = absurd (omega (arith, st))
  waiting-writers (x ∷ xs) [] n h st = absurd (omega (arith, st))
  waiting-writers (x ∷ xs) ((t, next) ∷ ts) n h (e, st) =
      let k = subst (IsTracked vs) e (h (index_of x) (ground arith)) in
      let same = ap (λ (u : Thread L). written (u.process.protection n)) e in
      omega (arith, k.pages n, same, waiting-writers xs ts n (λ i m. h i (ground (arith, m))) st)

  pub waiting-running :
      (xs : List Ptr) (ts : List (Thread L × L)) (i : ℕ)
      → Standing f xs ts
      → AreWaiting code ts
      → 0 < count i (indices xs)
      → (f i).aborted ≡ false
  waiting-running [] [] i st a m = absurd (omega (arith, m))
  waiting-running [] (t ∷ ts) i st a m = absurd (omega (arith, st))
  waiting-running (x ∷ xs) [] i st a m = absurd (omega (arith, st))
  waiting-running (x ∷ xs) ((t, next) ∷ ts) i (e, st) (running, fence, a) m =
      elim (eq_or_ne i (index_of x)) [
        | inl y ↦ ap (λ k. (f k).aborted) y ∙ ap (λ (u : Thread L). u.aborted) e ∙ running
        | inr d ↦ waiting-running xs ts i st a (ground (arith, m, d))
      ]
