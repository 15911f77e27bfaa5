-- ===== src/Persist/Commit/Order.antt =====
-- The order of the commits of src/include/xpersist.h does not matter where the processes do not race.
use dthreads.Base.{
  ℕ, suc, subst, ◌<◌, ◌≡◌, ◌⊎◌, refl, sym, ap, ◌∙◌, some, List, [], ◌∷◌, length, arith,
}
use dthreads.Persist.{page_size}
use dthreads.Persist.Diff.Words.{merged}
use dthreads.Persist.Pages.{Shared}
use dthreads.Persist.Commit.Round.{
  Writer, AreWriters, IsOpen, commit_in_turn, settled, commit_in_turn-IsSettled,
}

-- The same processes in another order of the token.
pub data Reordered : List Writer → List Writer → Type 0 where
  same : (ws : List Writer) → Reordered ws ws
  behind : (w : Writer) {ws us : List Writer} → Reordered ws us → Reordered (w ∷ ws) (w ∷ us)
  swapped : (w u : Writer) (ws : List Writer) → Reordered (w ∷ u ∷ ws) (u ∷ w ∷ ws)
  twice : {ws us vs : List Writer} → Reordered ws us → Reordered us vs → Reordered ws vs

-- All who have changed the byte `j`, which was `orig`, have made it `x`.
abbrev pub AllMake : (orig x j : ℕ) → List Writer → Type 0
AllMake orig x j [] = ℕ
AllMake orig x j (w ∷ ws) = ((w.own j ≡ orig) ⊎ (w.own j ≡ x)) × AllMake orig x j ws

-- No two processes have changed a byte to different values.
abbrev pub NoRace : (n : ℕ) → Shared → List Writer → Type 0
NoRace n s ws = (j : ℕ) → j < page_size → (x : ℕ) × AllMake (s.persistent n j) x j ws

AllMake-Reordered :
    {ws us : List Writer} (orig x j : ℕ)
    → Reordered ws us
    → AllMake orig x j ws
    → AllMake orig x j us
AllMake-Reordered orig x j (same ws) h = h
AllMake-Reordered orig x j (behind w r) (h, k) = (h, AllMake-Reordered orig x j r k)
AllMake-Reordered orig x j (swapped w u ws) (h, (k, l)) = (k, (h, l))
AllMake-Reordered orig x j (twice r q) h =
    AllMake-Reordered orig x j q (AllMake-Reordered orig x j r h)

AreWriters-Reordered :
    {ws us : List Writer} (n : ℕ) → Reordered ws us → AreWriters n ws → AreWriters n us
AreWriters-Reordered n (same ws) h = h
AreWriters-Reordered n (behind w r) (h, k, l) = (h, k, AreWriters-Reordered n r l)
AreWriters-Reordered n (swapped w u ws) (h, k, (a, b, l)) = (a, b, (h, k, l))
AreWriters-Reordered n (twice r q) h = AreWriters-Reordered n q (AreWriters-Reordered n r h)

length-Reordered : {ws us : List Writer} → Reordered ws us → length ws ≡ length us
length-Reordered (same ws) = refl
length-Reordered (behind w r) = ap suc (length-Reordered r)
length-Reordered (swapped w u ws) = refl
length-Reordered (twice r q) = length-Reordered r ∙ length-Reordered q

merged-swap :
    (a b orig x now : ℕ)
    → (a ≡ orig) ⊎ (a ≡ x)
    → (b ≡ orig) ⊎ (b ≡ x)
    → merged b orig (merged a orig now) ≡ merged a orig (merged b orig now)
merged-swap a b orig x now h k = ground (arith, h, k)

settled-Reordered :
    {ws us : List Writer} (orig x now j : ℕ)
    → Reordered ws us
    → AllMake orig x j ws
    → settled orig now j ws ≡ settled orig now j us
settled-Reordered orig x now j (same ws) h = refl
settled-Reordered orig x now j (behind w r) (h, k) = settled-Reordered orig x _ j r k
settled-Reordered orig x now j (swapped w u ws) (h, (k, l)) =
    ap (λ y. settled orig y j ws) (merged-swap (w.own j) (u.own j) orig x now h k)
settled-Reordered orig x now j (twice r q) h =
    settled-Reordered orig x now j r h
    ∙ settled-Reordered orig x now j q (AllMake-Reordered orig x j r h)

-- Processes that have written to a page, all its users, commit to it in one order or another. If the
-- page has no owner and no twin page, fewer than 3071 indices of twin pages are taken, and no two of
-- the processes have changed a byte to different values, the page is the same in both cases.
pub commit_in_turn-order :
    {s : Shared} (n v : ℕ) (w u : Writer) (ws us : List Writer)
    → IsOpen s n v (length (w ∷ ws))
    → AreWriters n (w ∷ ws)
    → Reordered (w ∷ ws) (u ∷ us)
    → NoRace n s (w ∷ ws)
    → (s' s'' : Shared) × (commit_in_turn n v (w ∷ ws) s ≡ some s')
      × (commit_in_turn n v (u ∷ us) s ≡ some s'')
      × ((j : ℕ) → j < page_size → s'.persistent n j ≡ s''.persistent n j)
commit_in_turn-order {s} n v w u ws us o a r clean =
    let (s', run, k) = commit_in_turn-IsSettled n v w ws o a in
    let (s'', run', k') =
      commit_in_turn-IsSettled n v u us (subst (IsOpen s n v) (length-Reordered r) o)
        (AreWriters-Reordered n r a) in
    (
      s',
      s'',
      run,
      run',
      λ j q.
          let (x, all) = clean j q in
          k.page j q
          ∙ settled-Reordered (s.persistent n j) x (s.persistent n j) j r all
          ∙ sym (k'.page j q),
    )
