-- ===== src/Persist/Commit/Pending.antt =====
-- The pages of src/include/xpersist.h while several processes commit in turn, each all the pages that it has
-- written to.
use dthreads.Base.{
  ℕ, suc, ◌+◌, ◌%◌, ◌^◌, ◌<◌, ◌≡◌, ◌≢◌, ◌∙◌, sym, inl, inr, false, ==_ne, eq_or_ne, arith,
}
use dthreads.Persist.{Bytes, page_size}
use dthreads.Persist.Bitmap.{page_at}
use dthreads.Persist.Diff.Words.{merged}
use dthreads.Persist.Pages.{PageInfo, Shared, Process, local_page, shared_page}
use dthreads.Persist.Commit.Step.{at_version}
use dthreads.Persist.Commit.Twins.{Untouched, original}
use dthreads.Persist.Commit.Pages.{committed, IsDirty}
use dthreads.Persist.Commit.Done.{IsDone}

-- A page that was `orig` at version `v`, when `done` of the processes that have written to it since have
-- committed and `left` have not.
pub record IsPending (n : ℕ) (orig : Bytes) (v left done : ℕ) (s : Shared) : Type 0 where
  pub users : s.users n ≡ left
  pub few : left + done < 2 ^ 16
  pub start : v < 2 ^ 64
  pub version : s.versions n ≡ (v + done) % 2 ^ 64
  pub owner : s.page_owner n ≡ shared_page
  pub before : done ≡ 0 → (j : ℕ) → j < page_size → s.persistent n j ≡ orig j
  pub twin :
      s.bitmap_index n ≢ 0
      → (j : ℕ) → j < page_size
      → page_at (s.bitmap_index n) s.bitmap j ≡ orig j
  pub made : 0 < done → 0 < left → s.bitmap_index n ≢ 0
  pub over : left ≡ 0 → s.bitmap_index n ≡ 0

pub IsPending-Untouched :
    {n v left done : ℕ} {orig : Bytes} (s t : Shared)
    → Untouched n s t
    → IsPending n orig v left done s
    → IsPending n orig v left done t
IsPending-Untouched {n} {v} {left} {done} {orig} s t u h = record {
  users = u.users ∙ h.users;
  few = h.few;
  start = h.start;
  version = u.versions ∙ h.version;
  owner = u.owner ∙ h.owner;
  before = λ z j l. (λ i. u.persistent i j) ∙ h.before z j l;
  twin = λ x j l.
      let kept : s.bitmap_index n ≢ 0 = λ y. x (u.index ∙ y) in
      (λ i. page_at (u.index i) t.bitmap j) ∙ u.twin kept j l ∙ h.twin kept j l;
  made = λ p q x. h.made p q (sym u.index ∙ x);
  over = λ z. u.index ∙ h.over z;
}

module _ (e : PageInfo) (orig : Bytes) (v left done : ℕ) (s : Shared) (same : e.version ≡ v)
    (h : IsPending e.page_no orig v (suc left) done s) where
  pub pending-IsDirty : e.is_updated ≡ false → IsDirty e s
  pending-IsDirty fresh = record {
    fresh = fresh;
    owner = h.owner;
    has_twin = λ x. elim (eq_or_ne done 0) [
      | inl z ↦ absurd (omega (arith, x, same, z, h.version, h.start))
      | inr d ↦ h.made (omega (arith, d)) (omega arith)
    ];
  }

  -- The commit merges the local page, whether it copies it or writes the differences.
  pub committed-merged :
      (p : Process) (j : ℕ)
      → j < page_size
      → committed e p s j ≡ merged (local_page e.page_no p s j) (orig j) (s.persistent e.page_no j)
  unfolding committed
  committed-merged p j l = elim (eq_or_ne done 0) [
    | inl z ↦
        rw (at_version e.version s e.page_no (omega (arith, same, z, h.version, h.start)))
          (ground (arith, h.before z j l))
    | inr d ↦
        rw
          (==_ne e.version (s.versions e.page_no)
            (omega (arith, same, d, h.version, h.start, h.few)))
          (λ i.
            merged (local_page e.page_no p s j)
              (h.twin (h.made (omega (arith, d)) (omega arith)) j l i) (s.persistent e.page_no j))
  ]

  original-orig : (j : ℕ) → j < page_size → original e.page_no s j ≡ orig j
  unfolding original
  original-orig j l = elim (eq_or_ne (s.bitmap_index e.page_no) 0) [
    | inl z ↦
        let first : done ≡ 0 = elim (eq_or_ne done 0) [
          | inl y ↦ y
          | inr d ↦ absurd (h.made (omega (arith, d)) (omega arith) z)
        ] in
        rw z (h.before first j l)
    | inr d ↦ rw (==_ne (s.bitmap_index e.page_no) 0 d) (h.twin d j l)
  ]

  pub IsPending-next :
      (p : Process) (s' : Shared) → IsDone e p s s' → IsPending e.page_no orig v left (suc done) s'
  IsPending-next p s' k = record {
    users = omega (arith, k.users, h.users, h.few);
    few = omega (arith, h.few);
    start = h.start;
    version = omega (arith, k.version, h.version);
    owner = k.owner ∙ h.owner;
    before = λ z. absurd (omega (arith, z));
    twin = λ x j l. k.twin x j l ∙ original-orig j l;
    made = λ z q. k.twinned (omega (arith, q, h.users));
    over = λ z. k.dropped (omega (arith, z, h.users));
  }
