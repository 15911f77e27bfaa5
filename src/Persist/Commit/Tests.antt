-- ===== src/Persist/Commit/Tests.antt =====
-- The theorems on src/include/xpersist.h for a process that has written to two pages, one of which
-- another has committed to since, and for an owner that hands over its page.
use dthreads.Base.{
  ℕ, ◌<◌, ◌≡◌, refl, true, false, some, List, [], ◌∷◌, ◌==◌, count, arith, if◌then◌else◌,
}
use dthreads.Persist.Bitmap.{page_at}
use dthreads.Persist.Pages.{
  access_read, prot_read, prot_write, PageInfo, Shared, Process, shared_page, signal_handler,
  local_page,
}
use dthreads.Persist.Pages.Lost.{stored, signal_handler-loses}
use dthreads.Persist.Commit.{checkandcommit, update_all}
use dthreads.Persist.Commit.Step.{entry_of}
use dthreads.Persist.Commit.Twins.{IsSound}
use dthreads.Persist.Commit.Done.{pages_of}
use dthreads.Persist.Commit.Whole.{IsWhole}
use dthreads.Persist.Commit.Renew.{commit-begin-IsWhole}

-- Page 3 has its twin page at index 1.
abbrev shared : Shared
shared = record {
  persistent = λ n j. 7;
  versions = λ n. if n == 3 then 6 else 5;
  users = λ n. if n == 3 then 2 else 1;
  bitmap_index = λ n. if n == 3 then 1 else 0;
  page_owner = λ n. shared_page;
  bitmap = record { cur = 2; mem = λ a. 0 };
}

abbrev writer : Process
writer = record {
  pid = 10;
  is_protected = true;
  copies = λ n. some (λ j. if j == 0 then 1 else 7);
  protection = λ n. prot_write;
  page_info = λ n. access_read;
  dirty = entry_of 3 5 false ∷ entry_of 4 5 true ∷ [];
  trans = 0;
  owned_block_info = λ i. 0;
  owned_blocks = 0;
}

shared-IsSound : IsSound shared
shared-IsSound = record { solid = omega arith; given = λ n. ground arith }

abbrev entries : List PageInfo
entries = entry_of 3 5 false ∷ entry_of 4 5 true ∷ []

commit-begin-IsWhole_example :
    (p' : Process) × (s' : Shared) × (checkandcommit false writer shared ≡ some (p', s'))
    × IsWhole entries writer shared s'
    × ((update_all true p').dirty ≡ [])
    × ((n : ℕ)
        → 0 < count n (pages_of entries)
        → (local_page n (update_all true p') s' ≡ s'.persistent n)
          × ((update_all true p').protection n ≡ prot_read))
    × ((n : ℕ) → count n (pages_of entries) ≡ 0 → (update_all true p').copies n ≡ writer.copies n)
commit-begin-IsWhole_example =
    commit-begin-IsWhole writer shared (omega arith) shared-IsSound (omega arith)
      (λ a. ground arith)
      (
        record { fresh = refl; owner = refl; has_twin = λ e. ground arith },
        (record { fresh = refl; owner = refl; has_twin = λ e. absurd (e refl) }, 0),
      )

abbrev owner : Process
owner = record writer { dirty = entry_of 4 5 false ∷ [] }

abbrev owned : Shared
owned = record shared { page_owner = λ n. 10 }

signal_handler-loses_example :
    (q' : Process) × (s' : Shared) × (q'' : Process) × (s'' : Shared) × (signal_handler 4 owner
        owned
      ≡ (q', s'))
    × (s'.page_owner 4 ≡ shared_page)
    × (q'.protection 4 ≡ prot_write)
    × (checkandcommit false (stored 4 0 q' s') s' ≡ some (q'', s''))
    × (s''.persistent 4 0 ≡ 1)
unfolding page_at
signal_handler-loses_example =
    signal_handler-loses 4 5 false (λ j. if j == 0 then 1 else 7) owner owned 0 (omega arith)
      (omega arith) refl (omega arith) refl refl refl refl refl refl refl
