-- ===== src/System/Rounds.antt =====
-- The whole run of a program under src/include/xrun.h is the same whatever the scheduler does.
use dthreads.Base.{
  ℕ, zero, suc, ◌+◌, ◌%◌, ◌^◌, ◌≡◌, ◌∙◌, refl, sym, ap, subst, inl, inr, false, some, List, [], ◌∷◌,
  ◌==◌, arith, count, Bool-cases, >>=-eq-some, >>=-agree, ◌>>=◌, not, ◌||◌,
}
use mathlib.Core.Option.{some-injective}
use dthreads.Persist.{Bytes}
use dthreads.Persist.Pages.{PageInfo, Shared, Process, set_shared_page, update_page, local_page}
use dthreads.Persist.Commit.{
  create_twin_page, ensure_twin, end_commit, check_commit, commit_page, commit_pages,
  checkandcommit, update_pages, update_all,
}
use dthreads.Persist.Bitmap.{get}
use dthreads.Determ.{token_index}
use dthreads.Determ.Token.{put_token}
use dthreads.System.{
  Act, Thread, World, run_schedule, arrived, begin_next, take_turn, take_turns, run_rounds,
}
use dthreads.System.Local.{Unowned, IsPlain}
use dthreads.System.Schedule.{
  IsQuiet, run_schedule-IsQuiet, replaced-IsQuiet, run_schedule-deterministic,
}

-- A commit to a page without an owner leaves the process as it is, and the owners.
abbrev Kept : Process → Shared → PageInfo × Process × Shared → Type 0
Kept p s r = (r.1 ≡ p) × (r.2.page_owner ≡ s.page_owner)

ensure_twin-owner :
    (n : ℕ) (s s' : Shared) → ensure_twin n s ≡ some s' → s'.page_owner ≡ s.page_owner
unfolding ensure_twin create_twin_page get
ensure_twin-owner n s s' run = ground (arith, run)

module _ (e : PageInfo) (p : Process) (s : Shared) (free : Unowned s) where
  shared_already :
      (s' : Shared) → s'.page_owner ≡ s.page_owner → set_shared_page e.page_no p s' ≡ (p, s')
  unfolding set_shared_page
  shared_already s' o = rw (ap (λ (x : ℕ → ℕ). x e.page_no) o ∙ free e.page_no) refl

  check_commit-Kept : Kept p s (check_commit e p s)
  unfolding check_commit end_commit
  check_commit-Kept = elim (Bool-cases e.is_updated) [
    | inl u ↦ rw u (refl, refl)
    | inr u ↦
        elim (Bool-cases (not (s.users e.page_no == 1) || not (s.page_owner e.page_no == p.pid))) [
          | inl c ↦ elim (Bool-cases (e.version == s.versions e.page_no)) [
            | inl v ↦ rw (u, c, v) (refl, refl)
            | inr v ↦ rw (u, c, v, shared_already s refl) (refl, refl)
          ]
          | inr c ↦ rw (u, c) (refl, refl)
        ]
  ]

-- The states after a commit that keep what matters here.
abbrev Still : Process → Shared → Process → Shared → Type 0
Still p s p' s' = (p'.pid ≡ p.pid) × (p'.page_info ≡ p.page_info) × (s'.page_owner ≡ s.page_owner)

commit_page-Still :
    (e : PageInfo) (p : Process) (s : Shared)
    → Unowned s
    → (r : PageInfo × Process × Shared) → commit_page false e p s ≡ some r
    → Still p s r.1 r.2
unfolding commit_page
commit_page-Still e p s free r run =
    let (t, twin, done) = >>=-eq-some (ensure_twin e.page_no s) _ run in
    let o = ensure_twin-owner e.page_no s t twin in
    let (same, kept) = check_commit-Kept e p t (λ n. ap (λ (x : ℕ → ℕ). x n) o ∙ free n) in
    let d = some-injective _ _ done in
    (
      (λ i. (sym d i).1.pid) ∙ ap (λ x. x.pid) same,
      (λ i. (sym d i).1.page_info) ∙ ap (λ x. x.page_info) same,
      (λ i. (sym d i).2.page_owner) ∙ kept ∙ o,
    )

commit_pages-Still :
    (es : List PageInfo) (p : Process) (s : Shared)
    → Unowned s
    → (r : List PageInfo × Process × Shared) → commit_pages false es p s ≡ some r
    → Still p s r.1 r.2
unfolding commit_pages
commit_pages-Still [] p s free r run =
    let d = sym (some-injective _ _ run) in
    ((λ i. (d i).1.pid), (λ i. (d i).1.page_info), (λ i. (d i).2.page_owner))
commit_pages-Still (e ∷ es) p s free r run =
    let (a, first, more) = >>=-eq-some (commit_page false e p s) _ run in
    let (b, rest, done) = >>=-eq-some (commit_pages false es a.1 a.2) _ more in
    let (pid, info, owner) = commit_page-Still e p s free a first in
    let (pid', info', owner') =
      commit_pages-Still es a.1 a.2 (λ n. ap (λ (x : ℕ → ℕ). x n) owner ∙ free n) b rest in
    let d = sym (some-injective _ _ done) in
    (
      (λ i. (d i).1.pid) ∙ pid' ∙ pid,
      (λ i. (d i).1.page_info) ∙ info' ∙ info,
      (λ i. (d i).2.page_owner) ∙ owner' ∙ owner,
    )

checked-Still :
    (es : List PageInfo) (p : Process) (s : Shared)
    → Unowned s
    → (r : Process × Shared) → checkandcommit false (record p { dirty = es }) s ≡ some r
    → Still p s r.0 r.1
unfolding checkandcommit
checked-Still [] p s free r run =
    let d = sym (some-injective _ _ run) in
    ((λ i. (d i).0.pid), (λ i. (d i).0.page_info), (λ i. (d i).1.page_owner))
checked-Still (e ∷ es) p s free r run =
    let q = record p { dirty = e ∷ es; trans = (p.trans + 1) % 2 ^ 32 } in
    let (b, rest, done) = >>=-eq-some (commit_pages false (e ∷ es) q s) _ run in
    let (pid, info, owner) = commit_pages-Still (e ∷ es) q s free b rest in
    let d = sym (some-injective _ _ done) in
    ((λ i. (d i).0.pid) ∙ pid, (λ i. (d i).0.page_info) ∙ info, (λ i. (d i).1.page_owner) ∙ owner)

update_pages-IsPlain : (es : List PageInfo) (p : Process) → IsPlain p → IsPlain (update_pages es p)
unfolding update_pages update_page
update_pages-IsPlain [] p q = q
update_pages-IsPlain (e ∷ es) p q = elim (Bool-cases e.is_updated) [
  | inl u ↦ rw u (update_pages-IsPlain es p q)
  | inr u ↦ rw u (
      update_pages-IsPlain es (update_page e.page_no e.release p)
        (record { pid = q.pid; pages = q.pages }))
]

module _ {L : Type 0} (code : L → (ℕ → Bytes) → Act L) where
  begin_next-IsPlain :
      (next : L) (p : Process) (t : Thread L) → IsPlain p → IsPlain (begin_next next p t).process
  unfolding begin_next update_all
  begin_next-IsPlain next p t q =
      let h = update_pages-IsPlain p.dirty p q in record { pid = h.pid; pages = h.pages }

  take_turn-IsQuiet : (w w' : World L) → IsQuiet w → take_turn code w ≡ some w' → IsQuiet w'
  unfolding take_turn
  take_turn-IsQuiet w w' q run =
      let (i, holder, a) = >>=-eq-some (token_index w.determ) _ run in
      let t = w.threads i in
      let (next, at_fence, b) =
        >>=-eq-some (arrived t.aborted (code t.here (λ n. local_page n t.process w.shared))) _ a in
      let (r, commits, c) = >>=-eq-some (checkandcommit false t.process w.shared) _ b in
      let (d, puts, e) = >>=-eq-some (put_token i w.determ) _ c in
      let (pid, info, owner) = checked-Still t.process.dirty t.process w.shared q.free r commits in
      let plain : IsPlain r.0 = record {
        pid = λ x. (q.plain i).pid (sym pid ∙ x);
        pages = λ n x. (q.plain i).pages n (sym (ap (λ y. y n) info) ∙ x);
      } in
      subst IsQuiet (some-injective _ _ e) (
        replaced-IsQuiet i (begin_next next r.0 t) r.1 d.0 w (begin_next-IsPlain next r.0 t plain)
          owner q)

  pub take_turns-IsQuiet :
      (k : ℕ) (w w' : World L) → IsQuiet w → take_turns code k w ≡ some w' → IsQuiet w'
  unfolding take_turns
  take_turns-IsQuiet zero w w' q run = subst IsQuiet (some-injective _ _ run) q
  take_turns-IsQuiet (suc k) w w' q run =
      let (v, first, rest) = >>=-eq-some (take_turn code w) (take_turns code k) run in
      take_turns-IsQuiet k v w' (take_turn-IsQuiet w v q first) rest

-- Two runs of the scheduler in which, from one fence to the next, every thread makes the same number of
-- steps, and as many threads have their turn.
abbrev pub SameSteps : List (List ℕ × ℕ) → List (List ℕ × ℕ) → Type 0
SameSteps [] [] = ℕ
SameSteps [] (r ∷ rs) = ◌≡◌ {A = ℕ} 0 1
SameSteps (r ∷ rs) [] = ◌≡◌ {A = ℕ} 0 1
SameSteps ((is, k) ∷ rs) ((js, l) ∷ qs) =
    ((i : ℕ) → count i is ≡ count i js) × (k ≡ l) × SameSteps rs qs

module _ {L : Type 0} (code : L → (ℕ → Bytes) → Act L) where
  -- The run of a program does not depend on the scheduler: from a state in which no page has an owner
  -- and no process has a written page of its own, two runs with the same steps and turns between their
  -- fences both fail, or lead to the same state of all the processes, the shared pages and the token.
  pub run_rounds-deterministic :
      (rs qs : List (List ℕ × ℕ)) (w : World L)
      → IsQuiet w
      → SameSteps rs qs
      → run_rounds code rs w ≡ run_rounds code qs w
  unfolding run_rounds
  run_rounds-deterministic [] [] w q same = refl
  run_rounds-deterministic [] (r ∷ qs) w q same = absurd (omega (arith, same))
  run_rounds-deterministic (r ∷ rs) [] w q same = absurd (omega (arith, same))
  run_rounds-deterministic ((is, k) ∷ rs) ((js, l) ∷ qs) w q (counts, turns, same) =
      (λ i.
        take_turns code (turns i) (run_schedule-deterministic code is js w q counts i)
        >>= run_rounds code rs)
      ∙ >>=-agree (take_turns code l (run_schedule code js w)) (run_rounds code rs)
          (run_rounds code qs)
          (λ v run.
            run_rounds-deterministic rs qs v
              (take_turns-IsQuiet code l (run_schedule code js w) v
                (run_schedule-IsQuiet code js w q) run)
              same)
