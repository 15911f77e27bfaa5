-- ===== src/System/Tracking.antt =====
-- The whole of the threads of src/include/xrun.h while they run between two fences, in any order.
use dthreads.Base.{
  ℕ, ◌+◌, ◌^◌, ◌≤◌, ◌<◌, ◌≡◌, ◌∙◌, refl, sym, ap, subst, inl, inr, Bool, true, false, Option, none,
  some, List, [], ◌∷◌, arith, count, Distinct, length, if◌then◌else◌, eq_or_ne, Bool-cases,
}
use dthreads.Base.Maps.{update, update_self, update_ne}
use dthreads.Persist.{Bytes}
use dthreads.Persist.Pages.{Shared, increment_users, local_page}
use dthreads.System.{Act, Thread, World, run_step, run_thread, run_schedule, act}
use dthreads.System.Local.{bump, bump-SameView, SameView, SameView-trans}
use dthreads.System.Schedule.{IsQuiet, run_thread-IsQuiet}
use dthreads.System.Gather.{written, written-le, IsTracked, grows, run_step-IsGrown}

conflict : {b : Bool} → b ≡ true → b ≡ false → ⊥
conflict a c = cc

-- A page has few users, so that the count does not wrap.
bump-users :
    (o : Option ℕ) (s : Shared) (n : ℕ)
    → ((m : ℕ) → s.users m + 1 < 2 ^ 16)
    → (bump o s).users n ≡ grows o n + s.users n
unfolding increment_users
bump-users none s n h = omega arith
bump-users (some m) s n h = ground (arith, h m)

bump-no_twin :
    (o : Option ℕ) (s : Shared) (n : ℕ)
    → ((m : ℕ) → s.users m + 1 < 2 ^ 16)
    → s.bitmap_index n ≡ 0
    → (bump o s).bitmap_index n ≡ 0
unfolding increment_users
bump-no_twin none s n h e = e
bump-no_twin (some m) s n h e = ground (arith, h m, e)

bump-bitmap : (o : Option ℕ) (s : Shared) → (bump o s).bitmap ≡ s.bitmap
unfolding increment_users
bump-bitmap none s = refl
bump-bitmap (some m) s = refl

module _ {L : Type 0} where
  -- How many of the threads can write to a page.
  abbrev pub written_by : (f : ℕ → Thread L) → List ℕ → (n : ℕ) → ℕ
  written_by f [] n = 0
  written_by f (i ∷ is) n = written ((f i).process.protection n) + written_by f is n

  pub written_by-le : (f : ℕ → Thread L) (is : List ℕ) (n : ℕ) → written_by f is n ≤ length is
  written_by-le f [] n = omega arith
  written_by-le f (i ∷ is) n =
      omega (arith, written-le ((f i).process.protection n), written_by-le f is n)

  absent-written_by :
      (f : ℕ → Thread L) (i : ℕ) (t : Thread L) (is : List ℕ) (n : ℕ)
      → count i is ≡ 0
      → written_by (update f i t) is n ≡ written_by f is n
  absent-written_by f i t [] n c = refl
  absent-written_by f i t (j ∷ js) n c =
      let same =
        ap (λ (x : Thread L). written (x.process.protection n))
          (update_ne f i j t (λ e. absurd (ground (arith, c, e)))) in
      omega (arith, same, absent-written_by f i t js n (ground (arith, c)))

  present-written_by :
      (f : ℕ → Thread L) (i : ℕ) (t : Thread L) (g : ℕ) (is : List ℕ) (n : ℕ)
      → count i is ≡ 1
      → written (t.process.protection n) ≡ g + written ((f i).process.protection n)
      → written_by (update f i t) is n ≡ g + written_by f is n
  present-written_by f i t g [] n c h = absurd (omega (arith, c))
  present-written_by f i t g (j ∷ js) n c h = elim (eq_or_ne i j) [
    | inl e ↦
        let here =
          ap (λ (x : Thread L). written (x.process.protection n))
            (subst (λ k. update f i t k ≡ t) e (update_self f i t)) in
        let same = ap (λ k. written ((f k).process.protection n)) e in
        omega (arith, here, same, h, absent-written_by f i t js n (ground (arith, c, e)))
    | inr d ↦
        let same =
          ap (λ (x : Thread L). written (x.process.protection n))
            (update_ne f i j t (λ e. d (sym e))) in
        omega (arith, same, present-written_by f i t g js n (ground (arith, c, d)) h)
  ]

-- The world while the threads `is` run since a fence, where it was `start`.
pub record IsTracking {L : Type 0} (is : List ℕ) (start w : World L) : Type 0 where
  pub quiet : IsQuiet w
  pub threads : (i : ℕ) → 0 < count i is → IsTracked start.shared.versions (w.threads i)
  pub users : (n : ℕ) → w.shared.users n ≡ written_by w.threads is n
  pub no_twin : (n : ℕ) → w.shared.bitmap_index n ≡ 0
  pub view : SameView start.shared w.shared
  pub bitmap : w.shared.bitmap ≡ start.shared.bitmap
  pub determ : w.determ ≡ start.determ

-- None of the threads has run out of entries.
abbrev pub AreRunning : {L : Type 0} → List ℕ → World L → Type 0
AreRunning is w = (i : ℕ) → 0 < count i is → (w.threads i).aborted ≡ false

module _ {L : Type 0} (code : L → (ℕ → Bytes) → Act L) (is : List ℕ) (start : World L)
    (few : length is + 1 < 2 ^ 16) (distinct : Distinct is)
    (low : (n : ℕ) → start.shared.versions n < 2 ^ 31) where
  run_thread-IsTracking :
      (i : ℕ) (w : World L)
      → 0 < count i is
      → AreRunning is (run_thread code i w)
      → IsTracking is start w
      → IsTracking is start (run_thread code i w)
  unfolding run_thread
  run_thread-IsTracking i w member running k =
      let t = w.threads i in
      let r = run_step code t w.shared in
      let small : (m : ℕ) → w.shared.users m + 1 < 2 ^ 16 =
        λ m. omega (arith, k.users m, written_by-le w.threads is m, few) in
      elim (run_step-IsGrown start.shared.versions t w.shared k.quiet.free (k.quiet.plain i)
        (k.threads i member) k.view.versions low code) [
          | inl a ↦
              let b : r.0.aborted ≡ false =
                ap (λ (x : Thread L). x.aborted) (sym (update_self w.threads i r.0))
                ∙ running i member in
              absurd (conflict a b)
          | inr g ↦ record {
            quiet = run_thread-IsQuiet code i w k.quiet;
            threads = λ j m. elim (eq_or_ne j i) [
              | inl e ↦
                  subst (IsTracked start.shared.versions)
                    (sym (
                      subst (λ x. update w.threads i r.0 x ≡ r.0) (sym e)
                        (update_self w.threads i r.0)))
                    g.tracked
              | inr d ↦
                  subst (IsTracked start.shared.versions) (sym (update_ne w.threads i j r.0 d))
                    (k.threads j m)
            ];
            users = λ n.
                ap (λ (x : Shared). x.users n) g.shared
                ∙ bump-users g.page w.shared n small
                ∙ ap (λ (x : ℕ). grows g.page n + x) (k.users n)
                ∙ sym (
                    present-written_by w.threads i r.0 (grows g.page n) is n
                      (omega (arith, member, distinct i)) (g.grown n));
            no_twin = λ n.
                ap (λ (x : Shared). x.bitmap_index n) g.shared
                ∙ bump-no_twin g.page w.shared n small (k.no_twin n);
            view =
                SameView-trans k.view
                  (subst (SameView w.shared) (sym g.shared) (bump-SameView g.page w.shared));
            bitmap =
                ap (λ (x : Shared). x.bitmap) g.shared ∙ bump-bitmap g.page w.shared ∙ k.bitmap;
            determ = k.determ;
          }
        ]

  step-aborted :
      (i j : ℕ) (w : World L)
      → (w.threads i).aborted ≡ true
      → ((run_thread code j w).threads i).aborted ≡ true
  unfolding run_thread run_step
  step-aborted i j w a = elim (eq_or_ne i j) [
    | inl e ↦
        let b : (w.threads j).aborted ≡ true = subst (λ k. (w.threads k).aborted ≡ true) e a in
        subst (λ k. (update w.threads j (run_step code (w.threads j) w.shared).0 k).aborted ≡ true)
          (sym e)
          (ap (λ (x : Thread L). x.aborted)
              (update_self w.threads j (run_step code (w.threads j) w.shared).0)
            ∙ stopped (w.threads j) b)
    | inr d ↦
        ap (λ (x : Thread L). x.aborted)
          (update_ne w.threads j i (run_step code (w.threads j) w.shared).0 d)
        ∙ a
  ]
    where
      stopped : (t : Thread L) → t.aborted ≡ true → (run_step code t w.shared).0.aborted ≡ true
      stopped t b =
          (λ k.
            (if b k
              then (t, w.shared)
              else act (code t.here (λ n. local_page n t.process w.shared)) t w.shared).0.aborted)
          ∙ b

  schedule-aborted :
      (i : ℕ) (js : List ℕ) (w : World L)
      → (w.threads i).aborted ≡ true
      → ((run_schedule code js w).threads i).aborted ≡ true
  unfolding run_schedule
  schedule-aborted i [] w a = a
  schedule-aborted i (j ∷ js) w a =
      schedule-aborted i js (run_thread code j w) (step-aborted i j w a)

  running-before :
      (js : List ℕ) (w : World L) → AreRunning is (run_schedule code js w) → AreRunning is w
  running-before js w h i m = elim (Bool-cases (w.threads i).aborted) [
    | inl a ↦ let b = schedule-aborted i js w a in let c = h i m in absurd (conflict b c)
    | inr b ↦ b
  ]

  -- A schedule of the threads after which all of them still run.
  pub run_schedule-IsTracking :
      (js : List ℕ) (w : World L)
      → ((i : ℕ) → 0 < count i js → 0 < count i is)
      → AreRunning is (run_schedule code js w)
      → IsTracking is start w
      → IsTracking is start (run_schedule code js w)
  unfolding run_schedule
  run_schedule-IsTracking [] w inside running k = k
  run_schedule-IsTracking (j ∷ js) w inside running k =
      run_schedule-IsTracking js (run_thread code j w) (λ i m. inside i (ground (arith, m))) running
        (run_thread-IsTracking j w (inside j (ground arith))
          (running-before js (run_thread code j w) running) k)
