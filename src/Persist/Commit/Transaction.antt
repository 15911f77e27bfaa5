-- ===== src/Persist/Commit/Transaction.antt =====
-- One page of src/include/xpersist.h through a whole transaction: the faults, the writes, the commits.
use dthreads.Base.{
  ℕ, suc, ◌+◌, ◌%◌, ◌^◌, ◌<◌, ◌≡◌, ◌∙◌, refl, sym, ap, subst, Bool, some, List, [], ◌∷◌, length,
  arith,
}
use dthreads.Base.Maps.{update, update_self}
use dthreads.Persist.Pages.{Shared, Process}
use dthreads.Persist.Commit.Round.{
  Writer, AreWriters, IsOpen, IsSettled, commit_in_turn, commit_in_turn-IsSettled,
}
use dthreads.Persist.Commit.Faults.{fault_in_turn, AreReaders, HaveEntries, fault_in_turn-IsOpen}

-- The processes `qs`, after their faults, have each written to the page.
abbrev pub Wrote : (n : ℕ) → List (Process × Bool) → List Process → List Writer → Type 0
Wrote n [] [] [] = ℕ
Wrote n ((p, release) ∷ ps) (q ∷ qs) (w ∷ ws) =
    (w.process ≡ record q { copies = update q.copies n (some w.own) })
    × (w.release ≡ release)
    × Wrote n ps qs ws
Wrote n _ _ _ = ◌≡◌ {A = ℕ} 0 1

Wrote-AreWriters :
    (n v : ℕ) (ps : List (Process × Bool)) (qs : List Process) (ws : List Writer)
    → AreReaders n ps
    → HaveEntries n v ps qs
    → Wrote n ps qs ws
    → AreWriters n ws × (length ws ≡ length ps)
Wrote-AreWriters n v [] [] [] a h k = (0, refl)
Wrote-AreWriters n v ((p, release) ∷ ps) (q ∷ qs) (w ∷ ws) (reads, mine, a)
      (prot, dirty, copies, same, h) (e, r, k) =
    let (z, len) = Wrote-AreWriters n v ps qs ws a h k in
    (
      (
        ap (λ x. x.copies n) e ∙ update_self q.copies n (some w.own),
        λ x. mine (sym same ∙ sym (ap (λ y. y.pid) e) ∙ x),
        z,
      ),
      ap suc len,
    )
Wrote-AreWriters n v [] [] (w ∷ ws) a h k = absurd (omega (arith, k))
Wrote-AreWriters n v [] (q ∷ qs) ws a h k = absurd (omega (arith, h))
Wrote-AreWriters n v (p ∷ ps) [] ws a h k = absurd (omega (arith, h))
Wrote-AreWriters n v (p ∷ ps) (q ∷ qs) [] a h k = absurd (omega (arith, k))

-- Processes, fewer than 2 ^ 16, that can read a page and not write to it fault on it, write to it, and
-- then commit in the same order. If the page had no user, no owner and no twin page, and fewer than
-- 3071 indices of twin pages are taken, and its version is below 2 ^ 31, they all succeed; in the end each byte of the page is that of the last of them
-- that changed it, or else the one before; no other page has changed; and the page again has no
-- user, no owner and no twin page, with a version that counts the commits.
transaction-IsSettled :
    {s : Shared} (n v : ℕ) (p : Process × Bool) (ps : List (Process × Bool)) (w : Writer)
    (ws : List Writer)
    → IsOpen s n v 0
    → AreReaders n (p ∷ ps)
    → length (p ∷ ps) < 2 ^ 16
    → v < 2 ^ 31
    → Wrote n (p ∷ ps) (fault_in_turn n (p ∷ ps) s).0 (w ∷ ws)
    → (s' : Shared) × (commit_in_turn n v (w ∷ ws) (fault_in_turn n (p ∷ ps) s).1 ≡ some s')
      × IsSettled s s' n ((v + length (w ∷ ws)) % 2 ^ 64) (s.persistent n) (w ∷ ws)
transaction-IsSettled {s} n v p ps w ws o a l low k =
    let (open_page, h, same) = fault_in_turn-IsOpen n v (p ∷ ps) 0 o a (omega (arith, l)) low in
    let (z, len) = Wrote-AreWriters n v (p ∷ ps) _ (w ∷ ws) a h k in
    let (s', run, d) =
      commit_in_turn-IsSettled n v w ws (subst (IsOpen _ n v) (omega (arith, len)) open_page) z in
    (
      s',
      run,
      subst
          (λ x.
            IsSettled (record s { persistent = x }) s' n ((v + length (w ∷ ws)) % 2 ^ 64) (x n)
              (w ∷ ws))
          same
          (record {
            page = d.page;
            others = d.others;
            users = d.users;
            no_twin = d.no_twin;
            version = d.version;
            owner = d.owner;
          }),
    )
