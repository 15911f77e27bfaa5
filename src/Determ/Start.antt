-- ===== src/Determ/Start.antt =====
-- How the ring of src/include/determ.h comes about: the master registers, then its first children in
-- the order in which it makes them, and then the fence starts.
use dthreads.Base.{
  ℕ, zero, suc, ◌+◌, ◌<◌, ◌≤◌, ◌≡◌, ◌∙◌, refl, sym, ap, subst, true, false, Bool, Option, some,
  List, [], ◌∷◌, ◌++◌, append-nil, arith, count, length, ◌>>=◌, >>=-run,
}
use dthreads.Links.{Ptr, null}
use dthreads.Determ.{
  cond_waiting, LockEntry, CondEntry, BarrierEntry, Determ, entry_at, max_threads, token_index,
}
use dthreads.Determ.Token.{register_thread, register_master, start_all}
use dthreads.Determ.Token.Ring.{IsWell}
use dthreads.Determ.Token.Pass.{holder}
use dthreads.Determ.Token.Register.{register_thread-first, register_thread-behind}

-- The constructor of `determ`, in memory that is zero, with what is not in it given: the index of the next
-- twin page, the words of the pthread objects, and the internal heap.
unfoldable pub make :
    (bitmap_cur : ℕ) (sync shared_sync : Ptr → Ptr) (in_range : Ptr → Bool)
    (locks : Ptr → LockEntry) (conds : Ptr → CondEntry) (barriers : Ptr → BarrierEntry)
    → Determ
make bitmap_cur sync shared_sync in_range locks conds barriers = record {
  fence = record { maxthreads = 0; currthreads = 0; is_arrival_phase = false };
  links = record { next = λ _. null; prev = λ _. null };
  entries = λ _. record {
    tid = 0;
    threadindex = 0;
    status = cond_waiting;
    tid_parent = 0;
    cond = null;
    barrier = null;
    wait = 0;
    joinee_thread_index = 0;
  };
  activelist = null;
  tokenpos = null;
  alivethreads = 0;
  childregistered = false;
  condnum = 0;
  barriernum = 0;
  bitmap_cur = bitmap_cur;
  sync = sync;
  shared_sync = shared_sync;
  in_range = in_range;
  locks = locks;
  conds = conds;
  barriers = barriers;
}

-- The children register with the indices from `index` on; the index of their parent is 0.
unfoldable pub register_children : (index : ℕ) (pids : List ℕ) → Determ → Option Determ
unfolding register_thread
register_children index [] d = some d
register_children index (pid ∷ pids) d = do
  d ← register_thread index pid 0 d
  register_children (suc index) pids d

unfoldable pub start_program : (pid : ℕ) (pids : List ℕ) → Determ → Option Determ
unfolding register_master register_children start_all
start_program pid pids d = do
  d ← register_master 0 pid d
  d ← register_children 1 pids d
  some (start_all (length pids) d)

-- The `n` entries from `from` on.
abbrev pub numbered : (from n : ℕ) → List Ptr
numbered from zero = []
numbered from (suc n) = from ∷ numbered (suc from) n

numbered-snoc : (from n : ℕ) → numbered from n ++ ((from + n) ∷ []) ≡ numbered from (suc n)
numbered-snoc from zero = ap (λ k. k ∷ []) (omega arith)
numbered-snoc from (suc n) =
    ap (◌∷◌ from)
      (ap (λ k. numbered (suc from) n ++ (k ∷ [])) (omega arith) ∙ numbered-snoc (suc from) n)

numbered-beyond : (from n a : ℕ) → from + n ≤ a → count a (numbered from n) ≡ 0
numbered-beyond from zero a l = refl
numbered-beyond from (suc n) a l =
    let h = numbered-beyond (suc from) n a (omega (arith, l)) in ground (arith, h, l)

numbered-length : (from n : ℕ) → length (numbered from n) ≡ n
numbered-length from zero = refl
numbered-length from (suc n) = ap suc (numbered-length (suc from) n)

-- The ring when the master, whose entry is 1, and `n` children have registered.
abbrev ring_of : ℕ → List Ptr
ring_of n = 1 ∷ numbered 2 n

child-IsWell :
    {d : Determ} (n pid owed : ℕ)
    → IsWell d (ring_of n) owed
    → d.activelist ≡ 1
    → suc n < max_threads
    → (d' : Determ) × (register_thread (suc n) pid 0 d ≡ some d')
      × IsWell d' (ring_of (suc n)) (owed + 1)
      × (d'.activelist ≡ 1)
child-IsWell {d} n pid owed w top l =
    let e : entry_at (suc n) ≡ 2 + n = omega arith in
    let (d', run, well, token, status, head) =
      register_thread-behind (suc n) pid 0 (ring_of n) [] owed (rw append-nil w) (sym top) refl
        (λ z. absurd (omega (arith, z, w.token)))
        (rw append-nil
          (let h = numbered-beyond 2 n (entry_at (suc n)) (omega arith) in ground (arith, h)))
        l in
    (
      d',
      run,
      subst (λ r. IsWell d' r (owed + 1))
          (ap (λ k. ring_of n ++ (k ∷ [])) e ∙ ap (◌∷◌ 1) (numbered-snoc 2 n)) well,
      head,
    )

IsWell-subst :
    {d : Determ} {a b o p : ℕ} → a ≡ b → o ≡ p → IsWell d (ring_of a) o → IsWell d (ring_of b) p
IsWell-subst {d} {a} {b} {o} {p} e f w =
    subst (λ x. IsWell d (ring_of x) p) e (subst (IsWell d (ring_of a)) f w)

children-IsWell :
    (pids : List ℕ) (n owed : ℕ) {d : Determ}
    → IsWell d (ring_of n) owed
    → d.activelist ≡ 1
    → n + length pids < max_threads
    → (d' : Determ) × (register_children (suc n) pids d ≡ some d')
      × IsWell d' (ring_of (n + length pids)) (owed + length pids)
unfolding register_children
children-IsWell [] n owed {d} w top l = (d, refl, IsWell-subst (omega arith) (omega arith) w)
children-IsWell (pid ∷ pids) n owed {d} w top l =
    let (d', run, w', top') = child-IsWell n pid owed w top (omega (arith, l)) in
    let (d'', run', w'') = children-IsWell pids (suc n) (owed + 1) w' top' (omega (arith, l)) in
    (d'', >>=-run _ run ∙ run', IsWell-subst (omega arith) (omega arith) w'')

made-IsWell :
    (bitmap_cur : ℕ) (sync shared_sync : Ptr → Ptr) (in_range : Ptr → Bool)
    (locks : Ptr → LockEntry) (conds : Ptr → CondEntry) (barriers : Ptr → BarrierEntry)
    → IsWell (make bitmap_cur sync shared_sync in_range locks conds barriers) [] 0
unfolding make
made-IsWell bitmap_cur sync shared_sync in_range locks conds barriers = record {
  ring = record { linked = tt; distinct = λ a. omega arith; solid = refl };
  token = refl;
  head = refl;
  inside = λ a l. refl;
  named = λ a l. absurd (omega (arith, l));
  counted = refl;
}

master-IsWell :
    {d : Determ} (pid : ℕ)
    → IsWell d [] 0
    → (d' : Determ) × (register_master 0 pid d ≡ some d')
      × IsWell d' (ring_of 0) 0
      × (d'.activelist ≡ 1)
unfolding register_master
master-IsWell pid w =
    let (d', run, w', status, top) = register_thread-first 0 pid 0 0 w (omega arith) in
    (
      record d' {
        fence = record (d'.fence) { maxthreads = 1; is_arrival_phase = true };
        alivethreads = 1;
      },
      >>=-run _ run,
      record {
        ring = w'.ring;
        token = w'.token;
        head = w'.head;
        inside = w'.inside;
        named = w'.named;
        counted = omega arith;
      },
      top,
    )

-- When a program has started with the children `pids`, fewer than 2048 threads in all, its ring is in the
-- order in which the threads were made: the master, which has the token, and then the children. The
-- fence counts all of them and the ring is well formed.
pub start_program-IsWell :
    (bitmap_cur : ℕ) (sync shared_sync : Ptr → Ptr) (in_range : Ptr → Bool)
    (locks : Ptr → LockEntry) (conds : Ptr → CondEntry) (barriers : Ptr → BarrierEntry) (pid : ℕ)
    (pids : List ℕ)
    → length pids < 2047
    → (d : Determ) × (start_program pid pids
          (make bitmap_cur sync shared_sync in_range locks conds barriers)
        ≡ some d)
      × IsWell d (1 ∷ numbered 2 (length pids)) 0
      × (token_index d ≡ some 0)
      × (d.fence.maxthreads ≡ length pids + 1)
unfolding start_program start_all
start_program-IsWell bitmap_cur sync shared_sync in_range locks conds barriers pid pids l =
    let (d1, run1, w1, top) =
      master-IsWell pid (made-IsWell bitmap_cur sync shared_sync in_range locks conds barriers) in
    let (d2, run2, w2) = children-IsWell pids 0 0 w1 top (omega (arith, l)) in
    let w : IsWell d2 (ring_of (length pids)) (length pids) =
      IsWell-subst (omega arith) (omega arith) w2 in
    let d3 = start_all (length pids) d2 in
    let all = numbered-length 2 (length pids) in
    let w3 : IsWell d3 (1 ∷ numbered 2 (length pids)) 0 = record {
      ring = w.ring;
      token = w.token;
      head = w.head;
      inside = w.inside;
      named = w.named;
      counted = omega (arith, w.counted, all, l);
    } in
    (
      d3,
      >>=-run _ run1 ∙ >>=-run _ run2,
      w3,
      holder 1 (numbered 2 (length pids)) 0 w3,
      omega (arith, w3.counted, all),
    )
