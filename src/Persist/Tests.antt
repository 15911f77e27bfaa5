-- ===== src/Persist/Tests.antt =====
-- The theorems on src/include/xpersist.h for two processes that have written to different bytes of
-- one page.
use dthreads.Persist.{Bytes}
use dthreads.Base.{none, Bool}
use dthreads.Base.{
  ℕ, ◌/◌, ◌≤◌, ◌<◌, ◌≡◌, refl, true, false, some, [], ◌∷◌, ◌==◌, arith, if◌then◌else◌,
}
use dthreads.Persist.{page_size}
use dthreads.Persist.Diff.{write_page_diffs, write_page_diffs_sse}
use dthreads.Persist.Diff.Words.{write_page_diffs-sse}
use dthreads.Persist.Pages.{
  access_read, prot_write, Shared, Process, shared_page, compute_page, handle_write,
}
use dthreads.Persist.Pages.{access_none, signal_handler, mprotect_read}
use dthreads.Persist.Pages.Handover.{handle_write-handover}
use dthreads.Persist.Owned.{for_pages, final_page, set_owned_page}
use dthreads.Persist.Owned.Final.{IsFinal, for_pages-IsFinal, set_owned_page-overrun}
use dthreads.Persist.Commit.Round.{Writer, IsOpen, AreWriters, commit_in_turn}
use dthreads.Persist.Commit.Step.{entry_of}
use dthreads.Base.Maps.{update}
use dthreads.Persist.Commit.Order.{swapped, NoRace, commit_in_turn-order}

abbrev shared : Shared
shared = record {
  persistent = λ n j. 7;
  versions = λ n. 5;
  users = λ n. 2;
  bitmap_index = λ n. 0;
  page_owner = λ n. shared_page;
  bitmap = record { cur = 1; mem = λ a. 0 };
}

-- A process whose byte `at` of each page is `v`.
abbrev wrote : (pid at v : ℕ) → Process
wrote pid at v = record {
  pid = pid;
  is_protected = true;
  copies = λ n. some (λ j. if j == at then v else 7);
  protection = λ n. prot_write;
  page_info = λ n. access_read;
  dirty = [];
  trans = 0;
  owned_block_info = λ i. 0;
  owned_blocks = 256;
}

abbrev first_writer : Writer
first_writer = record {
  process = wrote 10 0 1;
  own = λ j. if j == 0 then 1 else 7;
  release = false;
}

abbrev second_writer : Writer
second_writer = record {
  process = wrote 11 1 2;
  own = λ j. if j == 1 then 2 else 7;
  release = false;
}

shared-IsOpen : IsOpen shared 3 5 2
shared-IsOpen = record {
  users = refl;
  few = omega arith;
  version = refl;
  start = omega arith;
  owner = refl;
  no_twin = refl;
  room = omega arith;
  solid = omega arith;
}

writers : AreWriters 3 (first_writer ∷ second_writer ∷ [])
writers = (refl, omega arith, (refl, omega arith, 0))

writers-NoRace : NoRace 3 shared (first_writer ∷ second_writer ∷ [])
writers-NoRace j q = (if j == 0 then 1 else 2, (ground arith, (ground arith, 0)))

commit_in_turn-order_example :
    (s' s'' : Shared) × (commit_in_turn 3 5 (first_writer ∷ second_writer ∷ []) shared ≡ some s')
    × (commit_in_turn 3 5 (second_writer ∷ first_writer ∷ []) shared ≡ some s'')
    × ((j : ℕ) → j < page_size → s'.persistent 3 j ≡ s''.persistent 3 j)
commit_in_turn-order_example =
    commit_in_turn-order 3 5 first_writer second_writer (second_writer ∷ []) (first_writer ∷ [])
      shared-IsOpen writers (swapped first_writer second_writer []) writers-NoRace

write_page_diffs-sse_example :
    write_page_diffs_sse first_writer.own (λ j. 7) second_writer.own
    ≡ write_page_diffs first_writer.own (λ j. 7) second_writer.own
write_page_diffs-sse_example = write_page_diffs-sse first_writer.own (λ j. 7) second_writer.own

-- The pages of process 10.
abbrev private : Shared
private = record shared { page_owner = λ n. 10 }

for_pages-IsFinal_example :
    IsFinal 2 6
      (wrote 10 0 1)
      (for_pages 4 2 (final_page false) (wrote 10 0 1) private).0
      private
      (for_pages 4 2 (final_page false) (wrote 10 0 1) private).1
for_pages-IsFinal_example = for_pages-IsFinal false 4 2 (wrote 10 0 1) private (omega arith)

set_owned_page-overrun_example :
    (p' : Process) × (s' : Shared) × (set_owned_page 8192 4096 (wrote 10 0 1) shared
      ≡ some (p', s'))
    × (p'.owned_block_info 512 ≡ compute_page 8192)
    × (page_size / 8 ≤ 512)
set_owned_page-overrun_example =
    set_owned_page-overrun 8192 4096 (wrote 10 0 1) shared refl (omega arith) (omega arith)

abbrev reader : ℕ → Process
reader pid = record (wrote pid 0 0) { copies = λ n. none; protection = λ n. prot_write }

abbrev faulted : (pid : ℕ) → Bool → Process
faulted pid release = record (reader pid) {
  protection = update (reader pid).protection 3 prot_write;
  dirty = entry_of 3 5 release ∷ [];
}

abbrev writer : (pid : ℕ) (release : Bool) → Bytes → Writer
writer pid release own = record {
  process = record (faulted pid release) {
    copies = update (faulted pid release).copies 3 (some own);
  };
  own = own;
  release = release;
}

-- A process that may not read the pages of process 10.
abbrev stranger : Process
stranger = record (wrote 12 0 0) { page_info = λ n. access_none; copies = λ n. none }

handle_write-handover_example :
    (q' : Process) × (s' : Shared) × (handle_write 3 true false stranger private
      ≡ (stranger, private, true))
    × (signal_handler 3 (wrote 10 0 1) private ≡ (q', s'))
    × ((j : ℕ) → j < page_size → s'.persistent 3 j ≡ first_writer.own j)
    × (q'.copies 3 ≡ none)
    × (s'.page_owner 3 ≡ shared_page)
    × (s'.versions 3 ≡ 6)
    × (handle_write 3 true false stranger s' ≡ (mprotect_read 3 stranger, s', false))
handle_write-handover_example =
    handle_write-handover 3 false stranger (wrote 10 0 1) private refl refl (omega arith)
