-- ===== src/Persist/Commit/Round.antt =====
-- All commits to one page between two fences, in the order of the token (src/include/xpersist.h).
use dthreads.Base.{
  ℕ, suc, ◌+◌, ◌%◌, ◌^◌, ◌<◌, ◌≡◌, ◌≢◌, refl, sym, ap, ◌∙◌, Bool, true, false, ◌&&◌, Option, some,
  List, [], ◌∷◌, length, lt→ltb, ==_self, ==_ne, arith, ◌>>=◌,
}
use dthreads.Base.Maps.{update}
use dthreads.Persist.{Bytes, page_size}
use dthreads.Persist.Bitmap.{get, copy_to, set_version}
use dthreads.Persist.Bitmap.Layout.{copy_to-page_at}
use dthreads.Persist.Diff.Words.{merged}
use dthreads.Persist.Pages.{PageInfo, Shared, Process, shared_page, contents_of}
use dthreads.Persist.Commit.{
  ensure_twin, create_twin_page, commit_page, check_commit, end_commit, copy_local,
}
use dthreads.Persist.Commit.Step.{
  entry_of, IsRound, end_commit-IsRound, check_commit-IsMerged, or_true, at_version,
}

-- A process that has written to the page, its copy of it, and what its entry had in `release`.
pub record Writer : Type 0 where
  pub process : Process
  pub own : Bytes
  pub release : Bool

abbrev pub AreWriters : ℕ → List Writer → Type 0
AreWriters n [] = ℕ
AreWriters n (w ∷ ws) =
    (w.process.copies n ≡ some w.own) × (w.process.pid ≢ shared_page) × AreWriters n ws

-- A page before the first commit, when `left` processes have written to it.
pub record IsOpen (s : Shared) (n v left : ℕ) : Type 0 where
  pub users : s.users n ≡ left
  pub few : left < 2 ^ 16
  pub version : s.versions n ≡ v
  pub start : v < 2 ^ 64
  pub owner : s.page_owner n ≡ shared_page
  pub no_twin : s.bitmap_index n ≡ 0
  pub room : s.bitmap.cur < 3071
  pub solid : 0 < s.bitmap.cur

-- The processes commit to the page `n` in turn.
unfoldable pub commit_in_turn : (n v : ℕ) → List Writer → Shared → Option Shared
unfolding commit_page
commit_in_turn n v [] s = some s
commit_in_turn n v (w ∷ ws) s = do
  (e, p, s) ← commit_page false (entry_of n v w.release) w.process s
  commit_in_turn n v ws s

-- A byte that was `orig` and is `now`, when the writers have set it to their values in turn.
abbrev pub settled : (orig now : ℕ) → (j : ℕ) → List Writer → ℕ
settled orig now j [] = now
settled orig now j (w ∷ ws) = settled orig (merged (w.own j) orig now) j ws

-- The first of several commits makes the twin page.
ensure_twin-IsRound :
    {s : Shared} (n v left : ℕ)
    → IsOpen s n v left
    → 1 < left
    → (s' : Shared) × (ensure_twin n s ≡ some s')
      × IsRound s' n (s.persistent n) v 0 left
      × (s'.persistent ≡ s.persistent)
unfolding ensure_twin create_twin_page get
ensure_twin-IsRound {s} n v left o more =
    let small : s.bitmap.cur % 2 ^ 16 ≡ s.bitmap.cur = omega (arith, o.room) in
    (
      record s {
        bitmap_index = update s.bitmap_index n (s.bitmap.cur % 2 ^ 16);
        bitmap =
            set_version s.bitmap.cur (s.versions n)
              (copy_to s.bitmap.cur (s.persistent n) (record s.bitmap { cur = s.bitmap.cur + 1 }));
      },
      rw (
        o.users,
        o.no_twin,
        lt→ltb 1 left more,
        lt→ltb (s.bitmap.cur + 1) 81920 (omega (arith, o.room)),
      ),
      record {
        users = o.users;
        few = omega (arith, o.few);
        version = omega (arith, o.version, o.start);
        start = o.start;
        owner = o.owner;
        has_twin = ground (arith, o.room, o.solid);
        twin = λ j q.
            rw (==_self n, small)
              (copy_to-page_at (record s.bitmap { cur = s.bitmap.cur + 1 }) s.bitmap.cur
                (s.versions n) (s.persistent n) j o.room o.solid q);
        at_start = λ e j q. refl;
      },
      refl,
    )

and_false : (b : Bool) → b && false ≡ false
and_false true = refl
and_false false = refl

-- The run of the first of the processes, whose page has its twin or is its alone.
commit_in_turn-next :
    (n v : ℕ) (w : Writer) (ws : List Writer) (s t s' : Shared) (e : PageInfo)
    → ensure_twin n s ≡ some t
    → check_commit (entry_of n v w.release) w.process t ≡ (e, w.process, s')
    → commit_in_turn n v (w ∷ ws) s ≡ commit_in_turn n v ws s'
unfolding commit_in_turn commit_page
commit_in_turn-next n v w ws s t s' e twin run = rw (twin, run) refl

has_twin : {s : Shared} (n : ℕ) → s.bitmap_index n ≢ 0 → ensure_twin n s ≡ some s
unfolding ensure_twin
has_twin {s} n made = rw (==_ne (s.bitmap_index n) 0 made, and_false) refl

-- What the page, and what the system keeps of it, is when all have committed.
pub record IsSettled (s s' : Shared) (n v : ℕ) (orig : Bytes) (ws : List Writer) : Type 0 where
  pub page : (j : ℕ) → j < page_size → s'.persistent n j ≡ settled (orig j) (s.persistent n j) j ws
  pub others : (m : ℕ) → m ≢ n → s'.persistent m ≡ s.persistent m
  pub users : s'.users n ≡ 0
  pub no_twin : s'.bitmap_index n ≡ 0
  pub version : s'.versions n ≡ v
  pub owner : s'.page_owner n ≡ shared_page

-- When some have committed, the rest go on from the twin.
settle-round :
    (n v : ℕ) (orig : Bytes) (w : Writer) (ws : List Writer) (done : ℕ) (s : Shared)
    → IsRound s n orig v done (suc (length ws))
    → AreWriters n (w ∷ ws)
    → (s' : Shared) × (commit_in_turn n v (w ∷ ws) s ≡ some s')
      × IsSettled s s' n ((v + (done + suc (length ws))) % 2 ^ 64) orig (w ∷ ws)
unfolding commit_in_turn end_commit
settle-round n v orig w [] done s r (own, mine, z) =
    let (pages, run, m) =
      check_commit-IsMerged n orig w.own v done 0 w.process w.release r mine own in
    (
      end_commit n (record s { persistent = pages }),
      commit_in_turn-next n v w [] s s _ _ (has_twin n r.has_twin) run,
      record {
        page = m.page;
        others = m.others;
        users = ground (arith, r.users);
        no_twin = ground (arith, r.users);
        version = ground (arith, r.version);
        owner = r.owner;
      },
    )
settle-round n v orig w (x ∷ ws) done s r (own, mine, z) =
    let (pages, run, m) =
      check_commit-IsMerged n orig w.own v done (suc (length ws)) w.process w.release r mine own in
    let next = end_commit-IsRound n orig v done (suc (length ws)) pages r (omega arith) in
    let (s', run', k) = settle-round n v orig x ws (suc done) _ next z in
    (
      s',
      commit_in_turn-next n v w (x ∷ ws) s s _ _ (has_twin n r.has_twin) run ∙ run',
      record {
        page = λ j q. k.page j q ∙ ap (λ y. settled (orig j) y j (x ∷ ws)) (m.page j q);
        others = λ i d. k.others i d ∙ m.others i d;
        users = k.users;
        no_twin = k.no_twin;
        version = k.version ∙ omega arith;
        owner = k.owner;
      },
    )

twin_made :
    (n v : ℕ) (w : Writer) (ws : List Writer) (s t : Shared)
    → ensure_twin n s ≡ some t
    → ensure_twin n t ≡ some t
    → commit_in_turn n v (w ∷ ws) s ≡ commit_in_turn n v (w ∷ ws) t
unfolding commit_in_turn commit_page
twin_made n v w ws s t made kept = rw (made, kept) refl

-- The only process that has written to a page.
settle-alone :
    {s : Shared} (n v : ℕ) (w : Writer)
    → IsOpen s n v 1
    → AreWriters n (w ∷ [])
    → (s' : Shared) × (commit_in_turn n v (w ∷ []) s ≡ some s')
      × IsSettled s s' n ((v + 1) % 2 ^ 64) (s.persistent n) (w ∷ [])
unfolding commit_in_turn ensure_twin check_commit end_commit
settle-alone {s} n v w o (own, mine, z) =
    let free = ==_ne (s.page_owner n) w.process.pid (λ e. mine (sym e ∙ o.owner)) in
    (
      end_commit n (copy_local n w.process s),
      commit_in_turn-next n v w [] s s _ (entry_of n v true) (rw o.users refl)
          (rw (free, or_true, at_version v s n (sym o.version)) refl),
      record {
        page = λ j q. ground (arith, ap (λ c. contents_of c (s.persistent n) j) own);
        others = λ m d. ground arith;
        users = ground (arith, o.users);
        no_twin = ground (arith, o.users);
        version = ground (arith, o.version);
        owner = o.owner;
      },
    )

-- The processes that have written to a page since its version was `v` commit in turn. If they are all
-- the users that the page has, no one owns it, it has no twin page, and fewer than 3071 indices of
-- twin pages are taken, then every commit runs; in the end each byte of the page is that of the last
-- process whose byte is not the original one, or else the original one. No other page has changed,
-- the page has no user, no owner and no twin, and its version counts the commits.
pub commit_in_turn-IsSettled :
    {s : Shared} (n v : ℕ) (w : Writer) (ws : List Writer)
    → IsOpen s n v (length (w ∷ ws))
    → AreWriters n (w ∷ ws)
    → (s' : Shared) × (commit_in_turn n v (w ∷ ws) s ≡ some s')
      × IsSettled s s' n ((v + length (w ∷ ws)) % 2 ^ 64) (s.persistent n) (w ∷ ws)
commit_in_turn-IsSettled n v w [] o a = settle-alone n v w o a
commit_in_turn-IsSettled {s} n v w (x ∷ ws) o a =
    let (t, made, r, same) = ensure_twin-IsRound n v (length (w ∷ x ∷ ws)) o (omega arith) in
    let (s', run, k) = settle-round n v (s.persistent n) w (x ∷ ws) 0 t r a in
    (
      s',
      twin_made n v w (x ∷ ws) s t made (has_twin n r.has_twin) ∙ run,
      record {
        page = λ j q. k.page j q ∙ (λ i. settled (s.persistent n j) (same i n j) j (w ∷ x ∷ ws));
        others = λ m d. k.others m d ∙ (λ i. same i m);
        users = k.users;
        no_twin = k.no_twin;
        version = k.version ∙ omega arith;
        owner = k.owner;
      },
    )
