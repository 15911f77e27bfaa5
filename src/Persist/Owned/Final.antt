-- ===== src/Persist/Owned/Final.antt =====
-- `finalcommit` of src/include/xpersist.h gives back every page that a process owns, and `setOwnedPage`
-- notes the blocks to do so.
use dthreads.Base.{
  ℕ, zero, suc, ◌+◌, ◌*◌, ◌/◌, ◌%◌, ◌^◌, ◌≤◌, ◌<◌, ◌≡◌, ◌≢◌, ◌⊎◌, inl, inr, refl, sym, ap, ◌∙◌,
  subst, Bool, true, false, none, some, ==_self, ==_ne, eq_or_ne, if◌then◌else◌, Bool-cases, arith,
  dec_lt,
}
use dthreads.Base.Maps.{update, update_ne}
use dthreads.Persist.{page_size}
use dthreads.Persist.Pages.{
  Shared, Process, access_read, prot_read, shared_page, local_page, contents_of, copy_page,
  set_shared_page, commit_owned_page, compute_page,
}
use dthreads.Persist.Owned.{for_pages, final_page, set_owned_page, fill}

-- What `finalcommit` makes of the pages of one block: those from `lo` up to `hi`.
pub record IsFinal (lo hi : ℕ) (p p' : Process) (s s' : Shared) : Type 0 where
  pub pid : p'.pid ≡ p.pid
  pub given :
      (j : ℕ)
      → lo ≤ j
      → j < hi
      → s.page_owner j ≡ p.pid
      → (s'.page_owner j ≡ shared_page)
        × ((i : ℕ) → i < page_size → s'.persistent j i ≡ local_page j p s i)
  pub kept :
      (j : ℕ)
      → ((j < lo) ⊎ (hi ≤ j)) ⊎ (s.page_owner j ≢ p.pid)
      → (s'.page_owner j ≡ s.page_owner j) × (s'.persistent j ≡ s.persistent j)
  pub copies : (j : ℕ) → (j < lo) ⊎ (hi ≤ j) → p'.copies j ≡ p.copies j

-- The states after a page has been given back.
abbrev given_process : (release : Bool) → ℕ → Process → Process
given_process release k p = record p {
  page_info = update p.page_info k access_read;
  copies = if release then update p.copies k none else p.copies;
}

abbrev given_shared : ℕ → Process → Shared → Shared
given_shared k p s = record s {
  persistent = update s.persistent k (copy_page (local_page k p s) (s.persistent k));
  versions = update s.versions k ((s.versions k + 1) % 2 ^ 64);
  page_owner = update s.page_owner k shared_page;
}

final_page-run :
    (release : Bool) (k : ℕ) (p : Process) (s : Shared)
    → s.page_owner k ≡ p.pid
    → p.pid ≢ shared_page
    → final_page release k p s ≡ (given_process release k p, given_shared k p s)
unfolding final_page commit_owned_page set_shared_page
final_page-run true k p s own mine = rw (own, ==_self p.pid, ==_ne p.pid shared_page mine) refl
final_page-run false k p s own mine = rw (own, ==_self p.pid, ==_ne p.pid shared_page mine) refl

given-IsFinal :
    (release : Bool) (k : ℕ) (p : Process) (s : Shared)
    → s.page_owner k ≡ p.pid
    → IsFinal k (k + 1) p (given_process release k p) s (given_shared k p s)
given-IsFinal release k p s own = record {
  pid = refl;
  given = λ j a b o.
      let e : j ≡ k = omega arith in
      (
        ground (arith, e),
        λ i q.
            subst (λ z. (given_shared k p s).persistent z i ≡ local_page z p s i) (sym e)
              (ground arith),
      );
  kept = λ j out. elim (eq_or_ne j k) [
    | inl e ↦
        absurd (elim out [ inl r ↦ ground (arith, e, r) | inr o ↦ o (ap s.page_owner e ∙ own) ])
    | inr n ↦ (ground arith, ground arith)
  ];
  copies = λ j out. elim (Bool-cases release) [
    | inl e ↦ rw e (update_ne p.copies k j none (ground (arith, out)))
    | inr e ↦ rw e refl
  ];
}

final_page-other :
    (release : Bool) (k : ℕ) (p : Process) (s : Shared)
    → s.page_owner k ≢ p.pid
    → final_page release k p s ≡ (p, s)
unfolding final_page
final_page-other release k p s other = rw (==_ne (s.page_owner k) p.pid other) refl

-- A step of the loop.
final_page-IsFinal :
    (release : Bool) (k : ℕ) (p : Process) (s : Shared)
    → p.pid ≢ shared_page
    → IsFinal k (k + 1) p (final_page release k p s).0 s (final_page release k p s).1
final_page-IsFinal release k p s mine = elim (eq_or_ne (s.page_owner k) p.pid) [
  | inl own ↦
      subst (λ z. IsFinal k (k + 1) p z.0 s z.1) (sym (final_page-run release k p s own mine))
        (given-IsFinal release k p s own)
  | inr other ↦
      subst (λ z. IsFinal k (k + 1) p z.0 s z.1) (sym (final_page-other release k p s other))
        record {
          pid = refl;
          given = λ j a b o. absurd (other (subst (λ z. s.page_owner z ≡ p.pid) (omega arith) o));
          kept = λ j out. (refl, refl);
          copies = λ j out. refl;
        }
]

IsFinal-join :
    {lo mid hi : ℕ} {p p1 p2 : Process} {s s1 s2 : Shared}
    → lo ≤ mid
    → mid ≤ hi
    → IsFinal lo mid p p1 s s1
    → IsFinal mid hi p1 p2 s1 s2
    → IsFinal lo hi p p2 s s2
IsFinal-join {mid = mid} l m f g = record {
  pid = g.pid ∙ f.pid;
  given = λ j a b o. elim (dec_lt j mid) [
    | yes q ↦
        let (shared, page) = f.given j a q o in
        let (owner, same) = g.kept j (inl (inl q)) in
        (owner ∙ shared, λ i r. (λ k. same k i) ∙ page i r)
    | no q ↦
        let (owner, same) = f.kept j (inl (inr (omega (arith, q)))) in
        let (shared, page) = g.given j (omega (arith, q)) b (owner ∙ o ∙ sym f.pid) in
        (
          shared,
          λ i r. page i r ∙ (λ k. contents_of (f.copies j (inr (omega (arith, q))) k) (same k) i),
        )
  ];
  kept = λ j out.
      let f' = f.kept j (elim out [
        | inl (inl a) ↦ inl (inl a)
        | inl (inr b) ↦ inl (inr (omega (arith, b, m)))
        | inr o ↦ inr o
      ]) in
      let g' = g.kept j (elim out [
        | inl (inl a) ↦ inl (inl (omega (arith, a, l)))
        | inl (inr b) ↦ inl (inr b)
        | inr o ↦ inr (λ z. o (sym f'.0 ∙ z ∙ f.pid))
      ]) in
      (g'.0 ∙ f'.0, g'.1 ∙ f'.1);
  copies = λ j out. elim out [
    | inl a ↦ g.copies j (inl (omega (arith, a, l))) ∙ f.copies j (inl a)
    | inr b ↦ g.copies j (inr b) ∙ f.copies j (inr (omega (arith, b, m)))
  ];
}

-- The loop of `finalcommit` over one block of pages, that is, `n` pages from `at` on: each page that
-- the process owns is shared afterwards, and holds what the process read in it; the pages outside
-- the block, and those that it does not own, keep their owner and their contents.
pub for_pages-IsFinal :
    (release : Bool) (n at : ℕ) (p : Process) (s : Shared)
    → p.pid ≢ shared_page
    → IsFinal at
        (at + n)
        p
        (for_pages n at (final_page release) p s).0
        s
        (for_pages n at (final_page release) p s).1
unfolding for_pages
for_pages-IsFinal release zero at p s mine = record {
  pid = refl;
  given = λ j a b o. absurd (omega (arith, a, b));
  kept = λ j out. (refl, refl);
  copies = λ j out. refl;
}
for_pages-IsFinal release (suc n) at p s mine =
    let step = final_page-IsFinal release at p s mine in
    let rest =
      for_pages-IsFinal release n (at + 1) (final_page release at p s).0
        (final_page release at p s).1 (λ e. mine (sym step.pid ∙ e)) in
    subst
      (λ hi.
        IsFinal at hi p
          (for_pages n (at + 1) (final_page release) (final_page release at p s).0
            (final_page release at p s).1).0
          s
          (for_pages n (at + 1) (final_page release) (final_page release at p s).0
            (final_page release at p s).1).1)
      (omega arith) (IsFinal-join (omega arith) (omega arith) step rest)

-- `setOwnedPage` takes a 257th block and more, up to 2046 of them, though its table is one page of
-- words of 8 bytes with two words for a block: the words that it writes are behind the table.
pub set_owned_page-overrun :
    (offset size : ℕ) (p : Process) (s : Shared)
    → p.is_protected ≡ true
    → page_size / 16 ≤ p.owned_blocks
    → p.owned_blocks + 1 < page_size / 2
    → (p' : Process) × (s' : Shared) × (set_owned_page offset size p s ≡ some (p', s'))
      × (p'.owned_block_info (p.owned_blocks * 2) ≡ compute_page offset)
      × (page_size / 8 ≤ p.owned_blocks * 2)
unfolding set_owned_page
set_owned_page-overrun offset size p s protected many few =
    let start = compute_page offset in
    let pages = size / page_size in
    (
      record p {
        protection = fill start pages prot_read p.protection;
        page_info = fill start pages access_read p.page_info;
        owned_block_info =
            update (update p.owned_block_info (p.owned_blocks * 2) start) (p.owned_blocks * 2 + 1)
              (start + pages);
        owned_blocks = p.owned_blocks + 1;
      },
      record s { page_owner = fill start pages p.pid s.page_owner },
      rw (protected, ==_ne (p.owned_blocks + 1) 2048 (omega (arith, few))) refl,
      ground arith,
      omega (arith, many),
    )
