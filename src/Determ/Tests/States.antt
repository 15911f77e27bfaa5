-- ===== src/Determ/Tests/States.antt =====
-- A state of src/include/determ.h: three threads in the ring, two that wait.
use dthreads.Base.{ℕ, ◌+◌, refl, true, false, not, ◌==◌, List, [], ◌∷◌, arith, ltb, if◌then◌else◌}
use dthreads.Base.Maps.{update}
use dthreads.Links.{Ptr, null, Links}
use dthreads.Links.Chain.{IsRing}
use dthreads.Determ.{ready, cond_waiting, ThreadEntry, Determ}
use dthreads.Determ.Token.Ring.{IsWell}
use dthreads.Determ.Conds.Queue.{IsQueue, Apart}
use dthreads.Determ.Barriers.Queue.{IsWaited}

-- The rings 1, 2, 3 and 4, 5.
abbrev pub links : Links
links = record {
  next = update (update (update (update (update (λ _. 0) 1 2) 2 3) 3 1) 4 5) 5 4;
  prev = update (update (update (update (update (λ _. 0) 2 1) 3 2) 1 3) 5 4) 4 5;
}

abbrev pub entries : ℕ → ThreadEntry
entries i = record {
  tid = 100 + i;
  threadindex = i;
  status = if ltb 2 i then cond_waiting else ready;
  tid_parent = 7;
  cond = 50;
  barrier = 60;
  wait = 0;
  joinee_thread_index = 0;
}

-- The mutex at 90 has its entry at 95, the condition variable at 70 has it at 50, and the barrier at
-- 80 at 60.
abbrev pub state : Determ
state = record {
  fence = record { maxthreads = 3; currthreads = 0; is_arrival_phase = true };
  links = links;
  entries = entries;
  activelist = 1;
  tokenpos = 1;
  alivethreads = 5;
  childregistered = false;
  condnum = 1;
  barriernum = 1;
  bitmap_cur = 1;
  sync = update (update (update (λ _. 0) 90 95) 70 50) 80 60;
  shared_sync = update (update (update (λ _. 0) 90 95) 70 50) 80 60;
  in_range = λ a. not (a == null);
  locks = λ _. record { total_users = 1; last_thread = 100; is_acquired = true; lock_budget = 5 };
  conds = λ _. record { waiters = 2; cond = 70; head = 4 };
  barriers =
      λ _. record { maxthreads = 3; threads = 2; arrival_phase = true; orig_barr = 80; head = 4 };
}

-- The same with a barrier for four threads.
abbrev pub wide : Determ
wide = record state {
  barriers =
      λ _. record { maxthreads = 4; threads = 2; arrival_phase = true; orig_barr = 80; head = 4 };
}

-- The same with thread 4 alone in the queue.
abbrev pub alone : Determ
alone = record state {
  links = record { next = update (λ _. 0) 5 5; prev = update (λ _. 0) 5 5 };
  conds = λ _. record { waiters = 1; cond = 70; head = 5 };
}

abbrev pub active : List Ptr
active = 1 ∷ 2 ∷ 3 ∷ []

abbrev pub asleep : List Ptr
asleep = 4 ∷ 5 ∷ []

active-IsRing : IsRing links active
active-IsRing = record {
  linked = (refl, refl, (refl, refl, (refl, refl)));
  distinct = λ a. ground arith;
  solid = refl;
}

asleep-IsRing : IsRing links asleep
asleep-IsRing = record {
  linked = (refl, refl, (refl, refl));
  distinct = λ a. ground arith;
  solid = refl;
}

pub state-IsWell : IsWell state active 0
state-IsWell = record {
  ring = active-IsRing;
  token = refl;
  head = ground arith;
  inside = λ a p. ground arith;
  named = λ a p. refl;
  counted = refl;
}

pub wide-IsWell : IsWell wide active 0
wide-IsWell = record {
  ring = active-IsRing;
  token = refl;
  head = ground arith;
  inside = λ a p. ground arith;
  named = λ a p. refl;
  counted = refl;
}

pub state-IsQueue : IsQueue state 50 asleep
state-IsQueue = record {
  ring = asleep-IsRing;
  head = refl;
  waiters = refl;
  inside = λ a p. ground arith;
  named = λ a p. refl;
  asleep = λ a p. ground arith;
}

pub alone-IsQueue : IsQueue alone 50 (5 ∷ [])
alone-IsQueue = record {
  ring = record { linked = (refl, refl); distinct = λ a. ground arith; solid = refl };
  head = refl;
  waiters = refl;
  inside = λ a p. ground arith;
  named = λ a p. refl;
  asleep = λ a p. ground arith;
}

pub state-IsWaited : IsWaited state 60 asleep
state-IsWaited = record {
  ring = asleep-IsRing;
  head = refl;
  threads = refl;
  short = omega arith;
  bounded = omega arith;
  inside = λ a p. ground arith;
  named = λ a p. refl;
}

pub wide-IsWaited : IsWaited wide 60 asleep
wide-IsWaited = record {
  ring = asleep-IsRing;
  head = refl;
  threads = refl;
  short = omega arith;
  bounded = omega arith;
  inside = λ a p. ground arith;
  named = λ a p. refl;
}

pub state-Apart : Apart active asleep
state-Apart a = ground arith
