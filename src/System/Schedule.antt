-- ===== src/System/Schedule.antt =====
-- The order in which the processes of src/include/xrun.h run between two fences makes no difference.
use dthreads.Base.{
  ℕ, zero, suc, ◌≡◌, ◌≢◌, ◌∙◌, refl, sym, ap, subst, fun_ext, inl, inr, Option, none, some, List,
  [], ◌∷◌, ◌++◌, eq_or_ne, arith, count, count-append, split_at,
}
use dthreads.Base.Maps.{update, update_self, update_ne}
use dthreads.Persist.{Bytes}
use dthreads.Persist.Pages.{Shared, increment_users}
use dthreads.Determ.{Determ}
use dthreads.System.{Act, Thread, World, run_step, run_thread, run_schedule}
use dthreads.System.Local.{
  bump, SameView, bump-SameView, SameView-trans, SameView-sym, Unowned, IsPlain, IsLocal,
  run_step-IsLocal,
}

-- No page has an owner, and no thread has a written page of its own.
pub record IsQuiet {L : Type 0} (w : World L) : Type 0 where
  pub free : Unowned w.shared
  pub plain : (i : ℕ) → IsPlain (w.threads i).process

increment_comm :
    (n m : ℕ) (s : Shared)
    → increment_users n (increment_users m s) ≡ increment_users m (increment_users n s)
unfolding increment_users
increment_comm n m s = elim (eq_or_ne n m) [
  | inl e ↦
      subst (λ z. increment_users n (increment_users z s) ≡ increment_users z (increment_users n s))
        e refl
  | inr d ↦ λ i. record s { users = fun_ext (users d) i; bitmap_index = fun_ext (index d) i }
]
  where
    users :
        n ≢ m
        → (q : ℕ)
        → (increment_users n (increment_users m s)).users q
          ≡ (increment_users m (increment_users n s)).users q
    users d q = ground (arith, d)

    index :
        n ≢ m
        → (q : ℕ)
        → (increment_users n (increment_users m s)).bitmap_index q
          ≡ (increment_users m (increment_users n s)).bitmap_index q
    index d q = ground (arith, d)

pub bump_comm : (o p : Option ℕ) (s : Shared) → bump o (bump p s) ≡ bump p (bump o s)
bump_comm none p s = refl
bump_comm (some n) none s = refl
bump_comm (some n) (some m) s = increment_comm n m s

update_comm {ℓ} :
    {A : Type ℓ} (f : ℕ → A) (i j : ℕ) (a b : A)
    → i ≢ j
    → update (update f i a) j b ≡ update (update f j b) i a
update_comm f i j a b d = fun_ext (λ k. ground (arith, d))

-- The state after thread `i` has made the step.
abbrev moved : {L : Type 0} → (i : ℕ) → Thread L → Option ℕ → World L → World L
moved i t o w = record w { threads = update w.threads i t; shared = bump o w.shared }

same_view : (s : Shared) → SameView s s
same_view s = record { persistent = refl; versions = refl; owner = refl }

pub replaced-IsQuiet :
    {L : Type 0} (i : ℕ) (t : Thread L) (s : Shared) (d : Determ) (w : World L)
    → IsPlain t.process
    → s.page_owner ≡ w.shared.page_owner
    → IsQuiet w
    → IsQuiet (record w { threads = update w.threads i t; shared = s; determ = d })
replaced-IsQuiet i t s d w p o q = record {
  free = λ n. ap (λ (x : ℕ → ℕ). x n) o ∙ q.free n;
  plain = λ j. elim (eq_or_ne j i) [
    | inl e ↦
        subst (λ (x : Thread _). IsPlain x.process)
          (sym (subst (λ k. update w.threads i t k ≡ t) (sym e) (update_self w.threads i t))) p
    | inr d ↦
        subst (λ (x : Thread _). IsPlain x.process) (sym (update_ne w.threads i j t d)) (q.plain j)
  ];
}

moved-IsQuiet :
    {L : Type 0} (i : ℕ) (t : Thread L) (o : Option ℕ) (w : World L)
    → IsPlain t.process
    → IsQuiet w
    → IsQuiet (moved i t o w)
moved-IsQuiet i t o w p q =
    replaced-IsQuiet i t (bump o w.shared) w.determ w p (bump-SameView o w.shared).owner q

module _ {L : Type 0} (code : L → (ℕ → Bytes) → Act L) where
  local_step : (i : ℕ) (w : World L) → IsQuiet w → IsLocal (run_step code (w.threads i)) w.shared
  local_step i w q = run_step-IsLocal (w.threads i) w.shared q.free (q.plain i) code

  -- A step of thread `i` in a state that has its thread `i` and a view from `w`.
  run_thread-moved :
      (i : ℕ) (w : World L) (q : IsQuiet w) (w' : World L)
      → w'.threads i ≡ w.threads i
      → SameView w.shared w'.shared
      → run_thread code i w' ≡ moved i (local_step i w q).after (local_step i w q).grown w'
  unfolding run_thread
  run_thread-moved i w q w' same v =
      let e = (λ k. run_step code (same k) w'.shared) ∙ (local_step i w q).run w'.shared v in
      λ k. record w' { threads = update w'.threads i (e k).0; shared = (e k).1 }

  pub run_thread-IsQuiet : (i : ℕ) (w : World L) → IsQuiet w → IsQuiet (run_thread code i w)
  run_thread-IsQuiet i w q =
      let h = local_step i w q in
      subst IsQuiet (sym (run_thread-moved i w q w refl (same_view w.shared)))
        (moved-IsQuiet i h.after h.grown w h.plain q)

  twice :
      (i j : ℕ) (w : World L) (q : IsQuiet w)
      → i ≢ j
      → run_thread code i (run_thread code j w)
        ≡ moved i
            (local_step i w q).after
            (local_step i w q).grown
            (moved j (local_step j w q).after (local_step j w q).grown w)
  twice i j w q d =
      let h = local_step j w q in
      (λ k. run_thread code i (run_thread-moved j w q w refl (same_view w.shared) k))
      ∙ run_thread-moved i w q (moved j h.after h.grown w) (update_ne w.threads j i h.after d)
          (bump-SameView h.grown w.shared)

  -- Steps of two threads.
  run_thread_comm :
      (i j : ℕ) (w : World L)
      → IsQuiet w
      → run_thread code i (run_thread code j w) ≡ run_thread code j (run_thread code i w)
  run_thread_comm i j w q = elim (eq_or_ne i j) [
    | inl e ↦
        subst
          (λ k. run_thread code i (run_thread code k w) ≡ run_thread code k (run_thread code i w)) e
          refl
    | inr d ↦
        let h = local_step i w q in
        let g = local_step j w q in
        twice i j w q d
        ∙ (λ k. record w {
          threads = update_comm w.threads j i g.after h.after (λ e. d (sym e)) k;
          shared = bump_comm h.grown g.grown w.shared k;
        })
        ∙ sym (twice j i w q (λ e. d (sym e)))
  ]

  -- A step of `i` goes in front of other steps.
  run_schedule-front :
      (i : ℕ) (us vs : List ℕ) (w : World L)
      → IsQuiet w
      → run_schedule code (us ++ (i ∷ vs)) w ≡ run_schedule code (i ∷ (us ++ vs)) w
  unfolding run_schedule
  run_schedule-front i [] vs w q = refl
  run_schedule-front i (u ∷ us) vs w q =
      run_schedule-front i us vs (run_thread code u w) (run_thread-IsQuiet u w q)
      ∙ ap (run_schedule code (us ++ vs)) (run_thread_comm i u w q)

  pub run_schedule-IsQuiet :
      (is : List ℕ) (w : World L) → IsQuiet w → IsQuiet (run_schedule code is w)
  unfolding run_schedule
  run_schedule-IsQuiet [] w q = q
  run_schedule-IsQuiet (i ∷ is) w q =
      run_schedule-IsQuiet is (run_thread code i w) (run_thread-IsQuiet i w q)

  -- Between two fences the scheduler does not matter: where no page has an owner and no process has a
  -- written page of its own, any two schedules in which every thread makes the same number of steps,
  -- page faults included, lead to the same state, of all the processes and of what they share.
  pub run_schedule-deterministic :
      (is js : List ℕ) (w : World L)
      → IsQuiet w
      → ((i : ℕ) → count i is ≡ count i js)
      → run_schedule code is w ≡ run_schedule code js w
  unfolding run_schedule
  run_schedule-deterministic [] [] w q same = refl
  run_schedule-deterministic [] (j ∷ js) w q same = absurd (ground (arith, same j))
  run_schedule-deterministic (i ∷ is) js w q same =
      let (us, vs, e) = split_at i js (ground (arith, same i)) in
      run_schedule-deterministic is (us ++ vs) (run_thread code i w) (run_thread-IsQuiet i w q)
        (λ a.
          ground (arith, same a, ap (count a) e, count-append a us (i ∷ vs), count-append a us vs))
      ∙ sym (run_schedule-front i us vs w q)
      ∙ sym (ap (λ ks. run_schedule code ks w) e)

  -- `k` steps of a thread alone, in the shared state as it is at the fence.
  unfoldable pub run_alone : (k : ℕ) → Thread L → Shared → Thread L
  run_alone zero t s = t
  run_alone (suc k) t s = run_alone k (run_step code t s).0 s

  isolated_from :
      (i : ℕ) (is : List ℕ) (w : World L) (s : Shared)
      → IsQuiet w
      → SameView s w.shared
      → (run_schedule code is w).threads i ≡ run_alone (count i is) (w.threads i) s
  unfolding run_schedule run_alone
  isolated_from i [] w s q v = refl
  isolated_from i (j ∷ is) w s q v =
      let h = local_step j w q in
      let w' = moved j h.after h.grown w in
      let moves = run_thread-moved j w q w refl (same_view w.shared) in
      let ih =
        isolated_from i is w' s (moved-IsQuiet j h.after h.grown w h.plain q)
          (SameView-trans v (bump-SameView h.grown w.shared)) in
      (λ k. (run_schedule code is (moves k)).threads i) ∙ ih ∙ elim (eq_or_ne i j) [
        | inl e ↦
            let c : count i (j ∷ is) ≡ suc (count i is) = ground arith in
            let t : update w.threads j h.after i ≡ (run_step code (w.threads i) s).0 =
              subst (λ x. update w.threads j h.after x ≡ (run_step code (w.threads x) s).0) (sym e)
                (update_self w.threads j h.after ∙ sym (λ k. (h.run s (SameView-sym v) k).0)) in
            (λ k. run_alone (count i is) (t k) s) ∙ (λ k. run_alone (sym c k) (w.threads i) s)
        | inr d ↦
            let c : count i (j ∷ is) ≡ count i is = ground arith in
            (λ k. run_alone (count i is) (update_ne w.threads j i h.after d k) s)
            ∙ (λ k. run_alone (sym c k) (w.threads i) s)
      ]

  -- Between two fences no thread sees what another does: where no page has an owner and no process has
  -- a written page of its own, a thread is, after any schedule, where its own steps alone lead it, with
  -- the shared state as it was at the fence.
  pub run_schedule-isolated :
      (i : ℕ) (is : List ℕ) (w : World L)
      → IsQuiet w
      → (run_schedule code is w).threads i ≡ run_alone (count i is) (w.threads i) w.shared
  run_schedule-isolated i is w q = isolated_from i is w w.shared q (same_view w.shared)
