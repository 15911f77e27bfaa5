-- ===== src/Determ/Tests/Spawn.antt =====
-- The handshake of src/include/determ.h with one child.
use dthreads.Base.{◌≡◌, refl, arith}
use dthreads.Determ.Spawn.{
  awake, Nursery, init, clone, wait_parent_notify, wait_child_registered, notify_waiting_children,
  Reach, start, later, clones, registers, looks,
}
use dthreads.Determ.Spawn.Notice.{notice_reaches_all}

abbrev one_child : Nursery
one_child = wait_child_registered (wait_parent_notify 0 (clone init))

one_child-reached : Reach 0 one_child
unfolding clone wait_parent_notify
one_child-reached = later (later (later start (clones refl)) (registers 0 refl)) (looks refl)

notice_reaches_all_example : (notify_waiting_children one_child).children 0 ≡ awake
unfolding clone wait_parent_notify wait_child_registered
notice_reaches_all_example = notice_reaches_all one_child-reached refl 0 (omega arith)
