-- ===== src/Determ/Token/Register.antt =====
-- Threads come into the ring of src/include/determ.h: a joiner at the exit of the thread that it
-- waits for, a thread that wakes from `sigwait`, and a new thread.
use dthreads.Base.{
  ℕ, ◌+◌, ◌<◌, ◌≤◌, ◌≡◌, ◌≢◌, ◌∙◌, subst, sym, ap, refl, true, some, List, [], ◌∷◌, ◌++◌, arith,
  count, ◌==◌, ==_self, ==_ne, lt→ltb, if◌then◌else◌, append_assoc, append-nil, count-append,
  length-append, split_at, eq_or_ne, inl, inr,
}
use dthreads.Base.Maps.{update}
use dthreads.Links.{Ptr, null, Links, load_next, insert_tail}
use dthreads.Links.Chain.{IsRing-rotate, first, first_in}
use dthreads.Links.Insert.{insert_head-IsRing, insert_tail-IsRing}
use dthreads.Links.Remove.{head_after, remove_entry-RemovedFrom}
use dthreads.Fence.{decr_fence, dec64, incr_fence}
use dthreads.Determ.{ready, exited, Determ, entry_at, index_of, max_threads, free_thread_entry}
use dthreads.Determ.Token.{deregister_thread, sig_wait_wake, register_thread}
use dthreads.Determ.Token.Ring.{HeadIn, IsWell, leave-IsWell, insert-IsWell, decr-maxthreads, few}
use dthreads.Determ.Token.Exit.{is_awaited}

-- `deregisterThread` by the holder of the token, whose parent waits for it in `join`: the parent takes
-- its place in the ring and has the token at once; the fence counts one less, and will count the
-- parent when it wakes.
deregister_thread-wakes :
    {d : Determ} (i : ℕ) (rest : List Ptr) (owed : ℕ)
    → IsWell d (entry_at i ∷ rest) owed
    → 0 < d.fence.maxthreads
    → 0 < d.alivethreads
    → is_awaited d i ≡ true
    → count (entry_at (d.entries i).tid_parent) (entry_at i ∷ rest) ≡ 0
    → entry_at (d.entries i).tid_parent ≤ max_threads
    → (d.entries (d.entries i).tid_parent).threadindex ≡ (d.entries i).tid_parent
    → (d' : Determ) × (deregister_thread i d ≡ some d')
      × IsWell d' (entry_at (d.entries i).tid_parent ∷ rest) (owed + 1)
      × ((d'.entries i).status ≡ exited)
unfolding deregister_thread load_next
deregister_thread-wakes {d} i rest owed w counted alive waits out small named =
    let p = (d.entries i).tid_parent in
    let t = entry_at i in
    let e = entry_at p in
    let q : index_of (entry_at p) ≡ p = omega arith in
    let (m1, put, ins) = insert_head-IsRing [] t e rest w.ring out (omega arith) in
    let d1 = record d { links = m1 } in
    let w1 =
      insert-IsWell t e rest owed (owed + 1) w d1 ins.0 small w.token refl (λ j. refl)
        (subst (λ z. (d.entries z).threadindex ≡ z) (sym q) named) (omega arith) in
    let (m', run, ring, same, kept) = remove_entry-RemovedFrom m1 t (e ∷ rest) d.activelist ins.0 in
    let d' = free_thread_entry i (record d {
      links = m';
      alivethreads = dec64 d.alivethreads;
      fence = decr_fence d.fence;
      activelist = head_after t d.activelist (e ∷ rest);
      tokenpos = e;
    }) in
    (
      d',
      rw (
        waits,
        w.token,
        put,
        ins.0.linked.0,
        run,
        ==_ne t null (omega arith),
        ==_ne d.alivethreads 0 (omega arith),
      ),
      leave-IsWell t e rest (owed + 1) w1 d' ring refl refl (λ j. ground arith)
          (decr-maxthreads t e rest (owed + 1) w1 counted),
      ground arith,
    )

-- A thread that wakes from `sigwait` comes right behind the holder of the token.
pub sig_wait_wake-IsWell :
    {d : Determ} (i : ℕ) (t : Ptr) (rest : List Ptr) (owed : ℕ)
    → IsWell d (t ∷ rest) owed
    → count (entry_at i) (t ∷ rest) ≡ 0
    → i < max_threads
    → (d.entries i).threadindex ≡ i
    → (d' : Determ) × (sig_wait_wake i d ≡ some d') × IsWell d' (t ∷ entry_at i ∷ rest) owed
unfolding sig_wait_wake incr_fence
sig_wait_wake-IsWell {d} i t rest owed w out small named =
    let e = entry_at i in
    let q : index_of (entry_at i) ≡ i = omega arith in
    let (m1, put, ins) = insert_head-IsRing [] t e rest w.ring out (omega arith) in
    let d' = record d { links = m1; fence = incr_fence 1 d.fence } in
    (
      d',
      rw (w.token, ==_ne t null (ground (arith, w.ring.solid)), put),
      insert-IsWell t e rest owed owed w d' ins.0 (omega arith) w.token refl (λ j. refl)
          (subst (λ z. (d.entries z).threadindex ≡ z) (sym q) named)
          (omega (arith, w.counted, few owed w)),
    )

-- The entry of a new thread, and the state after `registerThread` with the links `links`.
abbrev registered : (threadindex pid parentindex : ℕ) → Determ → (head : Ptr) → Links → Determ
registered threadindex pid parentindex d head links = record d {
  entries = update d.entries threadindex (record (d.entries threadindex) {
    tid = pid;
    threadindex = threadindex;
    wait = 0;
    tid_parent = parentindex;
    status = ready;
  });
  tokenpos = if d.tokenpos == null then entry_at threadindex else d.tokenpos;
  links = links;
  activelist = head;
}

register_thread-links :
    (i pid parent : ℕ) (d : Determ) (m' : Links) (head : Ptr)
    → i < max_threads
    → insert_tail (entry_at i) d.activelist d.links ≡ some (head, m')
    → register_thread i pid parent d ≡ some (registered i pid parent d head m')
unfolding register_thread
register_thread-links i pid parent d m' head l run = rw (lt→ltb i max_threads l, run)

registered-named :
    (i pid parent : ℕ) (d : Determ) (head : Ptr) (m : Links) (a : Ptr)
    → (a ≢ entry_at i → (d.entries (index_of a)).threadindex ≡ index_of a)
    → ((registered i pid parent d head m).entries (index_of a)).threadindex ≡ index_of a
registered-named i pid parent d head m a h = elim (eq_or_ne (index_of a) i) [
  | inl e ↦ rw (e, ==_self i)
  | inr n ↦ let k = h (λ z. n (ground arith)) in rw (==_ne (index_of a) i n) k
]

-- The first thread that registers is the ring, and has the token.
pub register_thread-first :
    {d : Determ} (i pid parent owed : ℕ)
    → IsWell d [] owed
    → i < max_threads
    → (d' : Determ) × (register_thread i pid parent d ≡ some d')
      × IsWell d' (entry_at i ∷ []) (owed + 1)
      × ((d'.entries i).status ≡ ready)
      × (d'.activelist ≡ entry_at i)
register_thread-first {d} i pid parent owed w l =
    let (m', run, ring, same) = insert_tail-IsRing (entry_at i) [] w.ring refl (omega arith) in
    let d' = registered i pid parent d (entry_at i) m' in
    (
      d',
      register_thread-links i pid parent d m' (entry_at i) l (rw w.head run),
      record {
        ring = ring;
        token = rw w.token;
        head = ground arith;
        inside = λ a q. ground arith;
        named =
            λ a q. registered-named i pid parent d (entry_at i) m' a (λ z. absurd (ground arith));
        counted = omega (arith, w.counted);
      },
      ground arith,
      refl,
    )

HeadIn-count : (h : Ptr) (xs : List Ptr) → 0 < count h xs → HeadIn h xs
HeadIn-count h [] p = absurd (omega arith)
HeadIn-count h (x ∷ xs) p = p

-- A ring read from the head of the active list, with a new entry at its end, read from the token.
pub register_thread-behind :
    {d : Determ} (i pid parent : ℕ) (us vs : List Ptr) (owed : ℕ)
    → IsWell d (us ++ vs) owed
    → first (vs ++ us) ≡ d.activelist
    → first (us ++ (entry_at i ∷ vs)) ≡ first (us ++ vs)
    → d.tokenpos ≢ null
    → count (entry_at i) (us ++ vs) ≡ 0
    → i < max_threads
    → (d' : Determ) × (register_thread i pid parent d ≡ some d')
      × IsWell d' (us ++ (entry_at i ∷ vs)) (owed + 1)
      × (d'.tokenpos ≡ d.tokenpos)
      × ((d'.entries i).status ≡ ready)
      × (d'.activelist ≡ first ((vs ++ us) ++ (entry_at i ∷ [])))
register_thread-behind {d} i pid parent us vs owed w top same_first solid out l =
    let e = entry_at i in
    let out' : count e (vs ++ us) ≡ 0 =
      omega (arith, out, count-append e us vs, count-append e vs us) in
    let (m', run, ring, same) =
      insert_tail-IsRing e (vs ++ us) (IsRing-rotate d.links us vs w.ring) out' (omega arith) in
    let head' = first ((vs ++ us) ++ (e ∷ [])) in
    let d' = registered i pid parent d head' m' in
    (
      d',
      register_thread-links i pid parent d m' head' l (rw (← top) run),
      record {
        ring = rw append_assoc at (IsRing-rotate m' vs (us ++ (e ∷ [])) (rw append_assoc at ring));
        token = rw (==_ne d.tokenpos null solid) (w.token ∙ sym same_first);
        head = HeadIn-count head' (us ++ (e ∷ vs)) (
            omega (
              arith,
              first_in (vs ++ us) e,
              count-append head' vs us,
              count-append head' us (e ∷ vs),
            ));
        inside =
            λ a q. ground (arith, w.inside a q, count-append a us (e ∷ vs), count-append a us vs);
        named = λ a q.
            registered-named i pid parent d head' m' a
              λ z. w.named a (ground (arith, z, count-append a us (e ∷ vs), count-append a us vs));
        counted = omega (arith, w.counted, length-append us (e ∷ vs), length-append us vs);
      },
      rw (==_ne d.tokenpos null solid),
      ground arith,
      refl,
    )

-- `registerThread` of a new thread while others are active: the token stays where it is, and the
-- thread is put into the ring behind its holder, right before the head of the active list or, if
-- that is the holder, last; it is ready, and the fence does not count it yet.
pub register_thread-IsWell :
    {d : Determ} (i pid parent : ℕ) (t : Ptr) (rest : List Ptr) (owed : ℕ)
    → IsWell d (t ∷ rest) owed
    → count (entry_at i) (t ∷ rest) ≡ 0
    → i < max_threads
    → (us : List Ptr) × (vs : List Ptr) × (d' : Determ) × (t ∷ rest ≡ us ++ vs)
      × (first (vs ++ us) ≡ d.activelist)
      × (register_thread i pid parent d ≡ some d')
      × IsWell d' (us ++ (entry_at i ∷ vs)) (owed + 1)
      × (d'.tokenpos ≡ d.tokenpos)
      × ((d'.entries i).status ≡ ready)
register_thread-IsWell {d} i pid parent t rest owed w out l =
    let solid : d.tokenpos ≢ null = λ z. absurd (ground (arith, w.token, w.ring.solid)) in
    elim (eq_or_ne d.activelist t) [
      | inl e ↦
          let r =
            register_thread-behind i pid parent (t ∷ rest) [] owed (rw append-nil w) (sym e)
              (ground arith) solid (rw append-nil out) l in
          (t ∷ rest, [], r.0, sym (append-nil (t ∷ rest)), sym e, r.1, r.2, r.3, r.4)
      | inr n ↦
          let (us, vs, q) = split_at d.activelist rest (ground (arith, w.head)) in
          let f : t ∷ rest ≡ (t ∷ us) ++ (d.activelist ∷ vs) = ap (◌∷◌ t) q in
          let r =
            register_thread-behind i pid parent (t ∷ us) (d.activelist ∷ vs) owed
              (subst (λ z. IsWell d z owed) f w) refl refl solid
              (subst (λ z. count (entry_at i) z ≡ 0) f out) l in
          (t ∷ us, d.activelist ∷ vs, r.0, f, refl, r.1, r.2, r.3, r.4)
    ]
