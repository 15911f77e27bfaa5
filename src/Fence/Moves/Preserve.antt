-- ===== src/Fence/Moves/Preserve.antt =====
-- Every move of a thread at the fence of src/include/determ.h keeps the invariant.
use dthreads.Base.{ℕ, ◌<◌}
use dthreads.Base.Maps.{update}
use dthreads.Fence.System.{
  Thread, Shared, Move, poll, enter_and_wait, enter_last, see_release, exit_fence, join_party,
  quit_party,
}
use dthreads.Fence.Invariant.{Inv}
use dthreads.Fence.Moves.Arrive.{poll-Inv, enter_and_wait-Inv, enter_last-Inv}
use dthreads.Fence.Moves.Depart.{see_release-Inv, exit_fence-Inv, join_party-Inv, quit_party-Inv}

module _ {n : ℕ} {s : Shared} {ts : ℕ → Thread} (inv : Inv n s ts) (i : ℕ) (l : i < n) where
  open inv use {few, outer, inner, gathering, leaving, knows}

  pub Move-Inv : {s' : Shared} {t : Thread} → Move s (ts i) s' t → Inv n s' (update ts i t)
  Move-Inv (poll p q) = poll-Inv inv i l p q
  Move-Inv (enter_and_wait e q) = enter_and_wait-Inv inv i l e q
  Move-Inv (enter_last e q) = enter_last-Inv inv i l e q
  Move-Inv (see_release p q) = see_release-Inv inv i l p q
  Move-Inv (exit_fence e) = exit_fence-Inv inv i l e
  Move-Inv (join_party p) = join_party-Inv inv i l p
  Move-Inv (quit_party p) = quit_party-Inv inv i l p
