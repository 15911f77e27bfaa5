-- ===== src/Threads/Kill.antt =====
-- `kill` of src/include/xrun.h uses the page of the thread after it has given it up.
use dthreads.Base.{
  ℕ, ◌≡◌, ◌≢◌, ◌⊎◌, inl, inr, refl, true, false, none, some, ◌∷◌, ◌==◌, ◌||◌, ==_self, ==_ne,
  Bool-cases,
}
use dthreads.Base.Maps.{update}
use dthreads.Threads.{Objects, join, kill}

-- `kill` with SIGKILL or SIGTERM of a thread whose page the caller has ends the caller: it reads the
-- page that `cancel` has just given up. With any other signal it sends the signal and returns the
-- index, but gives up the page, so that a later `join` of the thread, or another `kill`, ends the caller.
pub kill-gone :
    (v sig later : ℕ) (o : Objects)
    → o.mapped v ≡ true
    → (((sig ≡ 9) ⊎ (sig ≡ 15)) → kill v sig o ≡ none)
      × (sig ≢ 9
          → sig ≢ 15
          → (o' : Objects) × (kill v sig o ≡ some ((o.pages v).thread_index, o'))
            × (o'.sent ≡ ((o.pages v).tid, sig) ∷ o.sent)
            × (join v true o' ≡ none)
            × (kill v later o' ≡ none))
unfolding kill join
kill-gone v sig later o m = (
  λ e. elim e [ inl x ↦ rw (x, m, ==_self v) refl | inr x ↦ rw (x, m, ==_self v) refl ],
  λ a b. (
    record o { mapped = update o.mapped v false; sent = ((o.pages v).tid, sig) ∷ o.sent },
    rw (==_ne sig 9 a, ==_ne sig 15 b, m) refl,
    refl,
    rw (==_self v) refl,
    elim (Bool-cases (later == 9 || later == 15)) [
      | inl e ↦ rw (e, ==_self v) refl
      | inr e ↦ rw (e, ==_self v) refl
    ],
  ),
)
