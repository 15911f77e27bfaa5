-- ===== src/Persist/Commit/Done.antt =====
-- The pages that a commit of src/include/xpersist.h has done, and how a commit of other pages leaves that as
-- it is.
use dthreads.Base.{
  ℕ, ◌+◌, ◌-◌, ◌%◌, ◌^◌, ◌<◌, ◌≡◌, ◌≢◌, ◌∙◌, sym, inl, inr, List, [], ◌∷◌, ==_ne, eq_or_ne, count,
  arith,
}
use dthreads.Persist.{page_size}
use dthreads.Persist.Bitmap.{page_at}
use dthreads.Persist.Diff.Words.{merged}
use dthreads.Persist.Pages.{PageInfo, Shared, Process, contents_of}
use dthreads.Persist.Commit.Step.{at_version}
use dthreads.Persist.Commit.Twins.{Untouched, original}
use dthreads.Persist.Commit.Pages.{committed, IsDirty}

abbrev pub pages_of : List PageInfo → List ℕ
pages_of [] = []
pages_of (e ∷ es) = e.page_no ∷ pages_of es

abbrev pub AreDirty : List PageInfo → Shared → Type 0
AreDirty [] s = ℕ
AreDirty (e ∷ es) s = IsDirty e s × AreDirty es s

-- What the commit has made of the page of an entry.
pub record IsDone (e : PageInfo) (p : Process) (s s' : Shared) : Type 0 where
  pub page : (j : ℕ) → j < page_size → s'.persistent e.page_no j ≡ committed e p s j
  pub version : s'.versions e.page_no ≡ (s.versions e.page_no + 1) % 2 ^ 64
  pub users : s'.users e.page_no ≡ (s.users e.page_no + (2 ^ 16 - 1)) % 2 ^ 16
  pub owner : s'.page_owner e.page_no ≡ s.page_owner e.page_no
  pub twinned : 1 < s.users e.page_no → s'.bitmap_index e.page_no ≢ 0
  pub dropped : s.users e.page_no ≡ 1 → s'.bitmap_index e.page_no ≡ 0
  pub twin :
      s'.bitmap_index e.page_no ≢ 0
      → (j : ℕ) → j < page_size
      → page_at (s'.bitmap_index e.page_no) s'.bitmap j ≡ original e.page_no s j

abbrev pub AreDone : List PageInfo → Process → Shared → Shared → Type 0
AreDone [] p s s' = ℕ
AreDone (e ∷ es) p s s' = IsDone e p s s' × AreDone es p s s'

pub committed-Untouched :
    (e : PageInfo) (p : Process) (s t : Shared) (j : ℕ)
    → IsDirty e s
    → Untouched e.page_no s t
    → j < page_size
    → committed e p t j ≡ committed e p s j
unfolding committed
committed-Untouched e p s t j d u l = elim (eq_or_ne e.version (s.versions e.page_no)) [
  | inl v ↦
      rw (at_version e.version s e.page_no v, at_version e.version t e.page_no (v ∙ sym u.versions))
        (λ i. contents_of (p.copies e.page_no) (u.persistent i) j)
  | inr v ↦
      let twin = (λ i. page_at (u.index i) t.bitmap j) ∙ u.twin (d.has_twin v) j l in
      rw
        (
          ==_ne e.version (s.versions e.page_no) v,
          ==_ne e.version (t.versions e.page_no) (λ x. v (x ∙ u.versions)),
        )
        (λ i.
          merged (contents_of (p.copies e.page_no) (u.persistent i) j) (twin i) (u.persistent i j))
]

pub original-Untouched :
    (n : ℕ) (s t : Shared) (j : ℕ)
    → Untouched n s t
    → j < page_size
    → original n t j ≡ original n s j
unfolding original
original-Untouched n s t j u l = elim (eq_or_ne (s.bitmap_index n) 0) [
  | inl e ↦ rw (u.index, e) (λ i. u.persistent i j)
  | inr d ↦
      let same = (λ i. page_at (u.index i) t.bitmap j) ∙ u.twin d j l in
      rw (==_ne (s.bitmap_index n) 0 d, ==_ne (t.bitmap_index n) 0 (λ x. d (sym u.index ∙ x))) same
]

pub IsDirty-Untouched :
    (e : PageInfo) (s t : Shared) → IsDirty e s → Untouched e.page_no s t → IsDirty e t
IsDirty-Untouched e s t d u = record {
  fresh = d.fresh;
  owner = u.owner ∙ d.owner;
  has_twin = λ v x. d.has_twin (λ y. v (y ∙ sym u.versions)) (sym u.index ∙ x);
}

pub AreDirty-Untouched :
    (es : List PageInfo) (n : ℕ) (s t : Shared)
    → count n (pages_of es) ≡ 0
    → AreDirty es s
    → ((m : ℕ) → m ≢ n → Untouched m s t)
    → AreDirty es t
AreDirty-Untouched [] n s t c d u = 0
AreDirty-Untouched (e ∷ es) n s t c (d, ds) u = (
  IsDirty-Untouched e s t d (u e.page_no (λ x. absurd (ground (arith, c, x)))),
  AreDirty-Untouched es n s t (ground (arith, c)) ds u,
)

pub AreDone-Untouched :
    (es : List PageInfo) (n : ℕ) (p : Process) (s t s' : Shared)
    → count n (pages_of es) ≡ 0
    → AreDirty es s
    → ((m : ℕ) → m ≢ n → Untouched m s t)
    → AreDone es p t s'
    → AreDone es p s s'
AreDone-Untouched [] n p s t s' c ds u k = 0
AreDone-Untouched (e ∷ es) n p s t s' c (d, ds) u (k, ks) =
    let v = u e.page_no (λ x. absurd (ground (arith, c, x))) in
    (
      record {
        page = λ j l. k.page j l ∙ committed-Untouched e p s t j d v l;
        version = k.version ∙ (λ i. (v.versions i + 1) % 2 ^ 64);
        users = k.users ∙ (λ i. (v.users i + (2 ^ 16 - 1)) % 2 ^ 16);
        owner = k.owner ∙ v.owner;
        twinned = λ l. k.twinned (omega (arith, l, v.users));
        dropped = λ x. k.dropped (v.users ∙ x);
        twin = λ x j l. k.twin x j l ∙ original-Untouched e.page_no s t j v l;
      },
      AreDone-Untouched es n p s t s' (ground (arith, c)) ds u ks,
    )

pub AreDone-same :
    (es ds : List PageInfo) (trans : ℕ) (p : Process) (s s' : Shared)
    → AreDone es (record p { dirty = ds; trans = trans }) s s'
    → AreDone es p s s'
unfolding committed
AreDone-same [] ds trans p s s' k = 0
AreDone-same (e ∷ es) ds trans p s s' (k, ks) = (
  record {
    page = k.page;
    version = k.version;
    users = k.users;
    owner = k.owner;
    twinned = k.twinned;
    dropped = k.dropped;
    twin = k.twin;
  },
  AreDone-same es ds trans p s s' ks,
)
