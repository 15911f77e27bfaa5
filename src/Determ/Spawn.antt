-- ===== src/Determ/Spawn.antt =====
-- The handshake of a parent with the children that it spawns in src/include/determ.h:
-- `waitParentNotify`, `waitChildRegistered` and `notifyWaitingChildren`, cut where the mutex is given
-- back. A wait on a condition variable may also end without a signal, as POSIX allows: neither wait is in
-- a loop.
pub mod Notice
use dthreads.Base.{ℕ, ◌+◌, Bool, true, false, if◌then◌else◌, ltb, ◌≡◌}
use dthreads.Base.Maps.{update}

-- A child is not there yet, runs towards `waitParentNotify`, waits in it, or has been woken.
pub data Child : Type 0 where
  unborn born waiting awake : Child

-- The parent is at work, is in `waitChildRegistered` before it has looked, or waits there.
pub data Parent : Type 0 where
  at_work spawned sleeping woken : Parent

-- `children i` is the child that is spawned as number `i`; `count` have been spawned.
pub record Nursery : Type 0 where
  pub childregistered : Bool
  pub children : ℕ → Child
  pub parent : Parent
  pub count : ℕ

-- What a signal does to the parent, and a broadcast to a child.
abbrev pub signalled : Parent → Parent
signalled sleeping = woken
signalled p = p

abbrev pub noticed : Child → Child
noticed waiting = awake
noticed c = c

-- `waitParentNotify` up to its wait: it signals the parent.
unfoldable pub wait_parent_notify : (i : ℕ) → Nursery → Nursery
wait_parent_notify i n = record n {
  childregistered = true;
  children = update n.children i waiting;
  parent = signalled n.parent;
}

-- `waitChildRegistered` up to its wait or its end.
unfoldable pub wait_child_registered : Nursery → Nursery
wait_child_registered n =
    if n.childregistered
    then record n { childregistered = false; parent = at_work }
    else record n { parent = sleeping }

-- Its end after the wait: a second test only prints.
unfoldable pub child_registered : Nursery → Nursery
child_registered n = record n { childregistered = false; parent = at_work }

-- `notifyWaitingChildren`, which wakes those that wait.
unfoldable pub notify_waiting_children : Nursery → Nursery
notify_waiting_children n = record n { children = λ i. noticed (n.children i) }

-- A child whose wait ends without the notice.
unfoldable pub child_wakes : (i : ℕ) → Nursery → Nursery
child_wakes i n = record n { children = update n.children i awake }

-- `forkSpawn` clones the parent.
unfoldable pub clone : Nursery → Nursery
clone n = record n {
  children = update n.children n.count born;
  parent = spawned;
  count = n.count + 1;
}

pub data Step (n : Nursery) : Nursery → Type 0 where
  clones : n.parent ≡ at_work → Step n (clone n)
  registers : (i : ℕ) → n.children i ≡ born → Step n (wait_parent_notify i n)
  looks : n.parent ≡ spawned → Step n (wait_child_registered n)
  wakes : n.parent ≡ woken → Step n (child_registered n)
  notifies : n.parent ≡ at_work → Step n (notify_waiting_children n)
  goes_on : (i : ℕ) → n.children i ≡ waiting → Step n (child_wakes i n)

abbrev pub init : Nursery
init = record { childregistered = false; children = λ _. unborn; parent = at_work; count = 0 }

-- What the parent and its children reach; `early` counts the waits of the parent that have ended without
-- a signal. It goes on then, and only prints that the child should be registered.
pub data Reach : (early : ℕ) → Nursery → Type 0 where
  start : Reach 0 init
  later : {early : ℕ} {n m : Nursery} → Reach early n → Step n m → Reach early m
  wakes_early :
      {early : ℕ} {n : Nursery}
      → Reach early n
      → n.parent ≡ sleeping
      → Reach (early + 1) (child_registered n)
