-- ===== src/Determ/Tests/Start.antt =====
-- The ring of src/include/determ.h when a program has made three children.
use dthreads.Base.{◌≡◌, true, false, not, some, [], ◌∷◌, ◌==◌, arith}
use dthreads.Links.{Ptr}
use dthreads.Determ.{LockEntry, CondEntry, BarrierEntry, Determ, token_index}
use dthreads.Determ.Token.Ring.{IsWell}
use dthreads.Determ.Start.{make, start_program, start_program-IsWell}

abbrev no_words : Ptr → Ptr
no_words a = 0

abbrev no_locks : Ptr → LockEntry
no_locks a = record { total_users = 0; last_thread = 0; is_acquired = false; lock_budget = 10 }

abbrev no_conds : Ptr → CondEntry
no_conds a = record { waiters = 0; cond = 0; head = 0 }

abbrev no_barriers : Ptr → BarrierEntry
no_barriers a = record {
  maxthreads = 0;
  threads = 0;
  arrival_phase = true;
  orig_barr = 0;
  head = 0;
}

start_program-IsWell_example :
    (d : Determ) × (start_program 100
        (101 ∷ 102 ∷ 103 ∷ [])
        (make 1 no_words no_words (λ a. not (a == 0)) no_locks no_conds no_barriers)
      ≡ some d)
    × IsWell d (1 ∷ 2 ∷ 3 ∷ 4 ∷ []) 0
    × (token_index d ≡ some 0)
    × (d.fence.maxthreads ≡ 4)
start_program-IsWell_example =
    start_program-IsWell 1 no_words no_words (λ a. not (a == 0)) no_locks no_conds no_barriers 100
      (101 ∷ 102 ∷ 103 ∷ []) (omega arith)
