-- ===== src/Persist/Commit/Twins.antt =====
-- The twin page that `checkandcommit` of src/include/xpersist.h makes before a commit, and what that leaves
-- alone.
use dthreads.Base.{
  ℕ, ◌+◌, ◌%◌, ◌^◌, ◌<◌, ◌≤◌, ◌≡◌, ◌≢◌, ◌∙◌, refl, sym, inl, inr, ◌&&◌, some, ◌==◌, ==_self, ==_ne,
  if◌then◌else◌, Bool-cases, lt→ltb, ltb, arith,
}
use dthreads.Base.Maps.{update, update_ne}
use dthreads.Persist.{page_size}
use dthreads.Persist.Bitmap.{get, copy_to, set_version, page_at}
use dthreads.Persist.Bitmap.Layout.{copy_to-other, copy_to-page_at}
use dthreads.Persist.Pages.{Shared}
use dthreads.Persist.Commit.{create_twin_page, ensure_twin}

-- The indices of twin pages that are in use have been handed out.
pub record IsSound (s : Shared) : Type 0 where
  pub solid : 0 < s.bitmap.cur
  pub given : (n : ℕ) → s.bitmap_index n < s.bitmap.cur

-- Nothing has changed for a page.
pub record Untouched (m : ℕ) (s s' : Shared) : Type 0 where
  pub persistent : s'.persistent m ≡ s.persistent m
  pub versions : s'.versions m ≡ s.versions m
  pub users : s'.users m ≡ s.users m
  pub owner : s'.page_owner m ≡ s.page_owner m
  pub index : s'.bitmap_index m ≡ s.bitmap_index m
  pub twin :
      s.bitmap_index m ≢ 0
      → (j : ℕ) → j < page_size
      → page_at (s.bitmap_index m) s'.bitmap j ≡ page_at (s.bitmap_index m) s.bitmap j

pub Untouched-refl : (m : ℕ) (s : Shared) → Untouched m s s
Untouched-refl m s = record {
  persistent = refl;
  versions = refl;
  users = refl;
  owner = refl;
  index = refl;
  twin = λ e j l. refl;
}

pub Untouched-trans :
    {m : ℕ} {s s' s'' : Shared} → Untouched m s s' → Untouched m s' s'' → Untouched m s s''
Untouched-trans {m} {s} {s'} {s''} u v = record {
  persistent = v.persistent ∙ u.persistent;
  versions = v.versions ∙ u.versions;
  users = v.users ∙ u.users;
  owner = v.owner ∙ u.owner;
  index = v.index ∙ u.index;
  twin = λ e j l.
      (λ i. page_at (sym u.index i) s''.bitmap j)
      ∙ v.twin (λ x. e (sym u.index ∙ x)) j l
      ∙ (λ i. page_at (u.index i) s'.bitmap j)
      ∙ u.twin e j l;
}

-- What the twin page holds, or would hold if it were made.
unfoldable pub original : (n : ℕ) → Shared → ℕ → ℕ
original n s j =
    if s.bitmap_index n == 0 then s.persistent n j else page_at (s.bitmap_index n) s.bitmap j

-- What `ensure_twin` may do before the commit to the page `n`.
pub record IsPrepared (n : ℕ) (s s' : Shared) : Type 0 where
  pub persistent : s'.persistent ≡ s.persistent
  pub versions : s'.versions ≡ s.versions
  pub users : s'.users ≡ s.users
  pub owner : s'.page_owner ≡ s.page_owner
  pub kept : s.bitmap_index n ≢ 0 → s' ≡ s
  pub twinned : 1 < s.users n → s'.bitmap_index n ≢ 0
  pub twin :
      s'.bitmap_index n ≢ 0
      → (j : ℕ) → j < page_size
      → page_at (s'.bitmap_index n) s'.bitmap j ≡ original n s j
  pub sound : IsSound s'
  pub cur : s'.bitmap.cur ≤ s.bitmap.cur + 1
  pub others : (m : ℕ) → m ≢ n → Untouched m s s'

module _ {s : Shared} (n : ℕ) (o : IsSound s) (room : s.bitmap.cur < 3071) where
  twin_made :
      s.bitmap_index n ≡ 0 → (s' : Shared) × (create_twin_page n s ≡ some s') × IsPrepared n s s'
  unfolding create_twin_page get page_at original
  twin_made fresh =
      let small : s.bitmap.cur % 2 ^ 16 ≡ s.bitmap.cur = omega (arith, room) in
      let b = record s.bitmap { cur = s.bitmap.cur + 1 } in
      (
        record s {
          bitmap_index = update s.bitmap_index n (s.bitmap.cur % 2 ^ 16);
          bitmap =
              set_version s.bitmap.cur (s.versions n) (copy_to s.bitmap.cur (s.persistent n) b);
        },
        rw (lt→ltb (s.bitmap.cur + 1) 81920 (omega (arith, room))) refl,
        record {
          persistent = refl;
          versions = refl;
          users = refl;
          owner = refl;
          kept = λ e. absurd (e fresh);
          twinned = λ l. ground (arith, small, o.solid);
          twin = λ e j l.
              rw (==_self n, small, fresh)
                (copy_to-page_at b s.bitmap.cur (s.versions n) (s.persistent n) j room o.solid l);
          sound = record { solid = omega arith; given = λ m. ground (arith, o.given m, small) };
          cur = omega arith;
          others = λ m d. record {
            persistent = refl;
            versions = refl;
            users = refl;
            owner = refl;
            index = update_ne s.bitmap_index n m _ d;
            twin = λ e j l.
                copy_to-other b s.bitmap.cur (s.bitmap_index m) (s.versions n) (s.persistent n) j
                  room (omega (arith, e)) (λ x. absurd (omega (arith, x, o.given m))) l;
          };
        },
      )

  pub prepared : (s' : Shared) × (ensure_twin n s ≡ some s') × IsPrepared n s s'
  unfolding ensure_twin original
  prepared = elim (Bool-cases (ltb 1 (s.users n) && (s.bitmap_index n == 0))) [
    | inl c ↦ let (s', run, h) = twin_made (ground (arith, c)) in (s', rw c run, h)
    | inr c ↦ (
      s,
      rw c refl,
      record {
        persistent = refl;
        versions = refl;
        users = refl;
        owner = refl;
        kept = λ e. refl;
        twinned = λ l e. absurd (ground (arith, c, l, e));
        twin = λ e j l. rw (==_ne (s.bitmap_index n) 0 e) refl;
        sound = o;
        cur = omega arith;
        others = λ m d. Untouched-refl m s;
      },
    )
  ]
