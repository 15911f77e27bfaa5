-- ===== src/System/Tests.antt =====
-- Two processes under src/include/xrun.h that each store a byte to the same page and then meet at a fence.
mod Whole
use dthreads.Base.{
  ℕ, ◌+◌, ◌≡◌, refl, true, false, not, Option, none, some, List, [], ◌∷◌, ◌==◌, arith,
  if◌then◌else◌,
}
use dthreads.Base.Maps.{update}
use dthreads.Persist.{Bytes}
use dthreads.Persist.Pages.{access_read, prot_read, Process, shared_page}
use dthreads.Persist.Commit.{checkandcommit}
use dthreads.Determ.{ready, Determ, token_index}
use dthreads.Determ.Token.{put_token}
use dthreads.System.{Act, store, synchronise, Thread, World, run_step, run_schedule, run_rounds}
use dthreads.System.Schedule.{IsQuiet, run_alone, run_schedule-isolated}
use dthreads.System.Rounds.{run_rounds-deterministic}

-- The program by the place where a thread is.
abbrev program : ℕ → (ℕ → Bytes) → Act ℕ
program l view =
    if l == 10
    then store 3 0 1 11
    else if l == 20
    then store 3 1 2 21
    else if l == 11
    then synchronise 12
    else synchronise 22

abbrev process : (pid : ℕ) → Process
process pid = record {
  pid = pid;
  is_protected = true;
  copies = λ n. none;
  protection = λ n. prot_read;
  page_info = λ n. access_read;
  dirty = [];
  trans = 0;
  owned_block_info = λ i. 0;
  owned_blocks = 0;
}

abbrev thread : ℕ → Thread ℕ
thread i = record {
  here = if i == 0 then 10 else 20;
  process = process (if i == 0 then 100 else 101);
  entries = record { total = 800000; cur = 0 };
  pages = λ k. 0;
  held = λ k. false;
  aborted = false;
}

-- The ring of both, with the token at the first.
abbrev ring : Determ
ring = record {
  fence = record { maxthreads = 2; currthreads = 0; is_arrival_phase = true };
  links = record {
    next = update (update (λ _. 0) 1 2) 2 1;
    prev = update (update (λ _. 0) 1 2) 2 1;
  };
  entries = λ i. record {
    tid = 100 + i;
    threadindex = i;
    status = ready;
    tid_parent = 0;
    cond = 0;
    barrier = 0;
    wait = 0;
    joinee_thread_index = 0;
  };
  activelist = 1;
  tokenpos = 1;
  alivethreads = 2;
  childregistered = false;
  condnum = 0;
  barriernum = 0;
  bitmap_cur = 1;
  sync = λ _. 0;
  shared_sync = λ _. 0;
  in_range = λ a. not (a == 0);
  locks = λ _. record { total_users = 0; last_thread = 0; is_acquired = false; lock_budget = 10 };
  conds = λ _. record { waiters = 0; cond = 0; head = 0 };
  barriers =
      λ _. record { maxthreads = 0; threads = 0; arrival_phase = true; orig_barr = 0; head = 0 };
}

abbrev start : World ℕ
start = record {
  threads = thread;
  shared = record {
    persistent = λ n j. 7;
    versions = λ n. 5;
    users = λ n. 0;
    bitmap_index = λ n. 0;
    page_owner = λ n. shared_page;
    bitmap = record { cur = 1; mem = λ a. 0 };
  };
  determ = ring;
}

start-IsQuiet : IsQuiet start
start-IsQuiet = record {
  free = λ n. refl;
  plain = λ i. record { pid = ground arith; pages = λ n. cc };
}

run_schedule-isolated_example :
    (run_schedule program (1 ∷ 0 ∷ 1 ∷ 0 ∷ []) start).threads 0
    ≡ run_alone program 2 (thread 0) start.shared
run_schedule-isolated_example =
    run_schedule-isolated program 0 (1 ∷ 0 ∷ 1 ∷ 0 ∷ []) start start-IsQuiet

run_rounds-deterministic_example :
    run_rounds program ((0 ∷ 0 ∷ 1 ∷ 1 ∷ [], 2) ∷ []) start
    ≡ run_rounds program ((1 ∷ 0 ∷ 1 ∷ 0 ∷ [], 2) ∷ []) start
run_rounds-deterministic_example =
    run_rounds-deterministic program ((0 ∷ 0 ∷ 1 ∷ 1 ∷ [], 2) ∷ []) ((1 ∷ 0 ∷ 1 ∷ 0 ∷ [], 2) ∷ [])
      start start-IsQuiet (λ i. ground arith, refl, 0)

-- The first bytes of the page afterwards.
abbrev bytes_after : Option (World ℕ) → List ℕ
bytes_after none = []
bytes_after (some w) =
    w.shared.persistent 3 0 ∷ w.shared.persistent 3 1 ∷ w.shared.persistent 3 2 ∷ []

first_commit :
    bytes_after (run_rounds program ((1 ∷ 0 ∷ 1 ∷ 0 ∷ [], 1) ∷ []) start) ≡ 1 ∷ 7 ∷ 7 ∷ []
unfolding run_rounds token_index run_step checkandcommit put_token
first_commit = refl
