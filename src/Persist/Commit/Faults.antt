-- ===== src/Persist/Commit/Faults.antt =====
-- The page faults before the commits of src/include/xpersist.h: the processes that are about to write
-- to a page open it for their commits.
use dthreads.Base.{
  ℕ, suc, ◌+◌, ◌^◌, ◌<◌, ◌≡◌, ◌≢◌, ◌∙◌, refl, sym, ap, subst, Bool, true, false, List, [], ◌∷◌,
  length, ==_ne, arith,
}
use dthreads.Base.Maps.{update, update_self}
use dthreads.Persist.Pages.{
  access_read, prot_write, Shared, Process, shared_page, handle_write, handle_write_in, add_dirty,
  increment_users, mprotect_write, insert_dirty, int_version, int_version-small,
}
use dthreads.Persist.Commit.Step.{entry_of}
use dthreads.Persist.Commit.Round.{IsOpen}

-- The processes fault on the page `n` in turn; each comes with what its new entry held in `release`.
unfoldable pub fault_in_turn : (n : ℕ) → List (Process × Bool) → Shared → List Process × Shared
unfolding handle_write
fault_in_turn n [] s = ([], s)
fault_in_turn n ((p, release) ∷ ps) s =
    let first = handle_write n true release p s in
    let rest = fault_in_turn n ps first.1 in (first.0 ∷ rest.0, rest.1)

-- Each process can read the page and not write to it.
abbrev pub AreReaders : ℕ → List (Process × Bool) → Type 0
AreReaders n [] = ℕ
AreReaders n ((p, release) ∷ ps) =
    (p.page_info n ≡ access_read) × (p.pid ≢ shared_page) × AreReaders n ps

-- Each process can write to the page now, and has its entry for it.
abbrev pub HaveEntries : (n v : ℕ) → List (Process × Bool) → List Process → Type 0
HaveEntries n v [] [] = ℕ
HaveEntries n v [] (q ∷ qs) = ◌≡◌ {A = ℕ} 0 1
HaveEntries n v (p ∷ ps) [] = ◌≡◌ {A = ℕ} 0 1
HaveEntries n v ((p, release) ∷ ps) (q ∷ qs) =
    (q.protection n ≡ prot_write)
    × (q.dirty ≡ insert_dirty (entry_of n v release) p.dirty)
    × (q.copies ≡ p.copies)
    × (q.pid ≡ p.pid)
    × HaveEntries n v ps qs

pub fault-run :
    (n v : ℕ) (release : Bool) (p : Process) (s : Shared)
    → p.page_info n ≡ access_read
    → p.pid ≢ shared_page
    → s.page_owner n ≡ shared_page
    → int_version (s.versions n) ≡ v
    → handle_write n true release p s ≡ (
      record p {
        protection = update p.protection n prot_write;
        dirty = insert_dirty (entry_of n v release) p.dirty;
      },
      increment_users n s,
      false,
    )
unfolding handle_write handle_write_in add_dirty mprotect_write increment_users
fault-run n v release p s reads mine owner version =
    rw (reads, ==_ne (s.page_owner n) p.pid (λ e. mine (sym e ∙ owner)), version) refl

increment-IsOpen :
    {s : Shared} (n v k : ℕ)
    → IsOpen s n v k
    → k + 1 < 2 ^ 16
    → IsOpen (increment_users n s) n v (suc k)
unfolding increment_users
increment-IsOpen n v k o l = record {
  users = ground (arith, o.users, l);
  few = omega (arith, l);
  version = o.version;
  start = o.start;
  owner = o.owner;
  no_twin = ground (arith, o.users, o.no_twin, l);
  room = o.room;
  solid = o.solid;
}

-- Processes that fault on a page in turn, which no one owns, which has no twin page and whose
-- version is below 2 ^ 31, are all users
-- of it afterwards, with the version that it had; each can write to the page, has its entry among its
-- dirtied pages, and still reads what it read; no page has changed.
pub fault_in_turn-IsOpen :
    (n v : ℕ) (ps : List (Process × Bool)) (k : ℕ) {s : Shared}
    → IsOpen s n v k
    → AreReaders n ps
    → k + length ps < 2 ^ 16
    → v < 2 ^ 31
    → IsOpen (fault_in_turn n ps s).1 n v (k + length ps)
      × HaveEntries n v ps (fault_in_turn n ps s).0
      × ((fault_in_turn n ps s).1.persistent ≡ s.persistent)
unfolding fault_in_turn increment_users
fault_in_turn-IsOpen n v [] k {s} o a l low = (subst (IsOpen s n v) (omega arith) o, 0, refl)
fault_in_turn-IsOpen n v ((p, release) ∷ ps) k {s} o (reads, mine, a) l low =
    let run =
      fault-run n v release p s reads mine o.owner
        (ap int_version o.version ∙ int_version-small v low) in
    let (o', h, same) =
      fault_in_turn-IsOpen n v ps (suc k) (increment-IsOpen n v k o (omega (arith, l))) a
        (omega (arith, l)) low in
    rw run (
      subst (IsOpen _ n v) (omega arith) o',
      (update_self p.protection n prot_write, refl, refl, refl, h),
      same,
    )
