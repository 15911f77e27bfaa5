-- ===== src/System/Local.antt =====
-- What a step of a process in src/include/xrun.h depends on: what it reads of the shared state stays as
-- it is between two fences, and all that it changes there is the count of the users of a page.
use dthreads.Base.{
  ℕ, ◌≡◌, ◌≢◌, ◌∙◌, refl, sym, ap, inl, inr, Bool, true, false, Option, none, some, ==_ne,
  if◌then◌else◌, arith, Bool-cases,
}
use dthreads.Base.Maps.{update}
use dthreads.Persist.{Bytes}
use dthreads.Persist.Pages.{
  Access, access_none, access_read, access_write, Protection, prot_none, prot_read, prot_write,
  Shared, Process, local_page, contents_of, shared_page, handle_write, handle_write_in, add_dirty,
  increment_users, mprotect_write, mprotect_read, insert_dirty, notify_owner_to_commit,
  is_shared_page, int_version,
}
use dthreads.Persist.Entries.{PageEntries, alloc_entry}
use dthreads.System.{
  Act, store, compute, synchronise, Thread, fault_with, fault, store_byte, act, run_step,
}

-- The page, if any, that has one more user.
abbrev pub bump : Option ℕ → Shared → Shared
bump none s = s
bump (some n) s = increment_users n s

-- The two states agree in what a process reads.
pub record SameView (s s' : Shared) : Type 0 where
  pub persistent : s'.persistent ≡ s.persistent
  pub versions : s'.versions ≡ s.versions
  pub owner : s'.page_owner ≡ s.page_owner

pub bump-SameView : (o : Option ℕ) (s : Shared) → SameView s (bump o s)
unfolding increment_users
bump-SameView none s = record { persistent = refl; versions = refl; owner = refl }
bump-SameView (some n) s = record { persistent = refl; versions = refl; owner = refl }

pub SameView-trans : {s s' s'' : Shared} → SameView s s' → SameView s' s'' → SameView s s''
SameView-trans v w = record {
  persistent = w.persistent ∙ v.persistent;
  versions = w.versions ∙ v.versions;
  owner = w.owner ∙ v.owner;
}

pub SameView-sym : {s s' : Shared} → SameView s s' → SameView s' s
SameView-sym v = record {
  persistent = sym v.persistent;
  versions = sym v.versions;
  owner = sym v.owner;
}

-- No page has an owner.
abbrev pub Unowned : Shared → Type 0
Unowned s = (n : ℕ) → s.page_owner n ≡ shared_page

-- The process has no written page of its own.
pub record IsPlain (p : Process) : Type 0 where
  pub pid : p.pid ≢ shared_page
  pub pages : (n : ℕ) → p.page_info n ≢ access_write

module _ (n : ℕ) (release : Bool) (p : Process) (s : Shared) (free : Unowned s)
    (q : IsPlain p) where
  pub read_fault :
      (s' : Shared)
      → SameView s s'
      → handle_write_in access_read n true release p s' ≡ (
        record p {
          protection = update p.protection n prot_write;
          dirty =
              insert_dirty
                (record {
                  page_no = n;
                  is_updated = false;
                  release = release;
                  version = int_version (s.versions n);
                })
                p.dirty;
        },
        increment_users n s',
        false,
      )
  unfolding handle_write_in add_dirty mprotect_write increment_users
  read_fault s' v =
      rw
        (
          ==_ne (s'.page_owner n) p.pid
              (λ e. q.pid (sym e ∙ ap (λ (x : ℕ → ℕ). x n) v.owner ∙ free n)),
          ap (λ (x : ℕ → ℕ). x n) v.versions,
        )
        refl

  pub none_fault :
      (s' : Shared)
      → SameView s s'
      → handle_write_in access_none n true release p s' ≡ (mprotect_read n p, s', false)
  unfolding handle_write_in notify_owner_to_commit is_shared_page mprotect_read
  none_fault s' v = rw (ap (λ (x : ℕ → ℕ). x n) v.owner ∙ free n) refl

pub handled :
    {a : Access} {r : Process × Shared × Bool} (n : ℕ) (release : Bool) (p : Process) (s : Shared)
    → p.page_info n ≡ a
    → handle_write_in a n true release p s ≡ r
    → handle_write n true release p s ≡ r
unfolding handle_write
handled n release p s e run = (λ i. handle_write_in (e i) n true release p s) ∙ run

-- The result of a step of a thread, the same in every state with this view.
pub record IsLocal {L : Type 0} (f : Shared → Thread L × Shared) (s : Shared) : Type 0 where
  pub after : Thread L
  pub grown : Option ℕ
  pub run : (s' : Shared) → SameView s s' → f s' ≡ (after, bump grown s')
  pub plain : IsPlain after.process

module _ {L : Type 0} (n : ℕ) (t : Thread L) (s : Shared) (free : Unowned s)
    (q : IsPlain t.process) where
  fault_with-IsLocal :
      (e : Option (ℕ × PageEntries))
      → t.process.page_info n ≡ access_read
      → IsLocal (fault_with e n t) s
  unfolding fault_with handle_write
  fault_with-IsLocal none reads = record {
    after = record t { aborted = true };
    grown = some n;
    run = λ s' v i. (
      record t { aborted = true },
      (handled n false t.process s' reads (read_fault n false t.process s free q s' v) i).1,
    );
    plain = q;
  }
  fault_with-IsLocal (some (index, e)) reads = record {
    after = record t {
      process = record t.process {
        protection = update t.process.protection n prot_write;
        dirty =
            insert_dirty
              (record {
                page_no = n;
                is_updated = false;
                release = t.held index;
                version = int_version (s.versions n);
              })
              t.process.dirty;
      };
      entries = e;
      pages = update t.pages index n;
    };
    grown = some n;
    run = λ s' v i.
        let r =
          handled n (t.held index) t.process s' reads
            (read_fault n (t.held index) t.process s free q s' v) i in
        (record t { process = r.0; entries = e; pages = update t.pages index n }, r.1);
    plain = record { pid = q.pid; pages = q.pages };
  }

  fault-IsLocal : (a : Access) → t.process.page_info n ≡ a → IsLocal (fault a n t) s
  unfolding fault handle_write mprotect_read
  fault-IsLocal access_none e = record {
    after = record t { process = mprotect_read n t.process };
    grown = none;
    run = λ s' v i.
        let r = handled n false t.process s' e (none_fault n false t.process s free q s' v) i in
        (record t { process = r.0 }, r.1);
    plain = record { pid = q.pid; pages = λ m. ground (arith, q.pages m) };
  }
  fault-IsLocal access_read e = fault_with-IsLocal (alloc_entry t.entries) e
  fault-IsLocal access_write e = absurd (q.pages n e)

  store_byte-IsLocal :
      (b : Protection) (offset value : ℕ) (next : L)
      → IsLocal (store_byte b n offset value next t) s
  unfolding store_byte
  store_byte-IsLocal prot_write offset value next = record {
    after = record t {
      here = next;
      process = record t.process {
        copies = update t.process.copies n (some (update (local_page n t.process s) offset value));
      };
    };
    grown = none;
    run = λ s' v i. (
      record t {
        here = next;
        process = record t.process {
          copies =
              update t.process.copies n
                (some (update (contents_of (t.process.copies n) (v.persistent i n)) offset value));
        };
      },
      s',
    );
    plain = record { pid = q.pid; pages = q.pages };
  }
  store_byte-IsLocal prot_read offset value next = fault-IsLocal (t.process.page_info n) refl
  store_byte-IsLocal prot_none offset value next = fault-IsLocal (t.process.page_info n) refl

module _ {L : Type 0} (t : Thread L) (s : Shared) (free : Unowned s) (q : IsPlain t.process) where
  act-IsLocal : (a : Act L) → IsLocal (act a t) s
  unfolding act
  act-IsLocal (store n offset value next) =
      store_byte-IsLocal n t s free q (t.process.protection n) offset value next
  act-IsLocal (compute next) = record {
    after = record t { here = next };
    grown = none;
    run = λ s' v. refl;
    plain = q;
  }
  act-IsLocal (synchronise next) = record { after = t; grown = none; run = λ s' v. refl; plain = q }

  -- A step of a thread reads of the shared state only its view, and changes nothing of it.
  pub run_step-IsLocal : (code : L → (ℕ → Bytes) → Act L) → IsLocal (run_step code t) s
  unfolding run_step
  run_step-IsLocal code = elim (Bool-cases t.aborted) [
    | inl e ↦ record {
      after = t;
      grown = none;
      run = λ s' v i.
          if e i then (t, s') else act (code t.here (λ n. local_page n t.process s')) t s';
      plain = q;
    }
    | inr e ↦
        let h = act-IsLocal (code t.here (λ n. local_page n t.process s)) in
        record {
          after = h.after;
          grown = h.grown;
          run = λ s' v.
              (λ i.
                if e i then (t, s') else act (code t.here (λ n. local_page n t.process s')) t s')
              ∙ (λ i.
                  act (code t.here (λ n. contents_of (t.process.copies n) (v.persistent i n))) t s')
              ∙ h.run s' v;
          plain = h.plain;
        }
  ]
