-- ===== src/Persist/Diff/Words.antt =====
-- `writePageDiffs` of src/include/xpersist.h is a merge byte by byte, in both of its builds.
use dthreads.Base.{
  ℕ, zero, suc, ◌+◌, ◌*◌, ◌≤◌, ◌<◌, ◌≡◌, inl, inr, refl, sym, ap, ◌∙◌, fun_ext, Bool, true, false,
  ◌&&◌, ◌==◌, ==_self, ==_ne, eq_or_ne, leb, ltb, Bool-cases, if◌then◌else◌, arith, dec_lt,
}
use dthreads.Persist.{Bytes, page_size}
use dthreads.Persist.Diff.{
  commit_word, same_word, write_words, write_page_diffs, mask_move, write_chunks,
  write_page_diffs_sse,
}

-- What a byte becomes: the local one if it is not that of the twin.
abbrev pub merged : (local twin dest : ℕ) → ℕ
merged local twin dest = if local == twin then dest else local

-- The bytes from `lo` up to `hi` are merged, the others untouched.
abbrev IsMerge : (lo hi : ℕ) (local twin dest new : Bytes) → Type 0
IsMerge lo hi local twin dest new =
    (j : ℕ) → new j ≡ (if leb lo j && ltb j hi then merged (local j) (twin j) (dest j) else dest j)

commit_word-IsMerge :
    (i base : ℕ) (src twin dest : Bytes)
    → IsMerge base (base + i) src twin dest (commit_word i base src twin dest)
unfolding commit_word
commit_word-IsMerge zero base src twin dest j = ground arith
commit_word-IsMerge (suc i) base src twin dest j =
    let ih = commit_word-IsMerge i base src twin dest j in
    elim (eq_or_ne j (base + i)) [
      | inl e ↦ ground (arith, ih, ap src e, ap twin e, ap dest e)
      | inr n ↦ ground (arith, ih)
    ]

mask_move-commit_word :
    (i base : ℕ) (src twin dest : Bytes)
    → mask_move i base src twin dest ≡ commit_word i base src twin dest
unfolding mask_move commit_word
mask_move-commit_word zero base src twin dest = refl
mask_move-commit_word (suc i) base src twin dest =
    rw (mask_move-commit_word i base src twin dest)
      (elim (eq_or_ne (src (base + i)) (twin (base + i))) [
        | inl e ↦ rw (e, ==_self (twin (base + i))) refl
        | inr n ↦ rw (==_ne (src (base + i)) (twin (base + i)) n) refl
      ])

and_both : (a b : Bool) → a && b ≡ true → (a ≡ true) × (b ≡ true)
and_both true b h = (refl, h)
and_both false b h = absurd (ground (arith, h))

same_word-bytes :
    (i base : ℕ) (src twin : Bytes)
    → same_word i base src twin ≡ true
    → (j : ℕ) → base ≤ j
    → j < base + i
    → src j ≡ twin j
unfolding same_word
same_word-bytes zero base src twin s j p q = absurd (omega arith)
same_word-bytes (suc i) base src twin s j p q =
    let both = and_both (same_word i base src twin) _ s in
    elim (eq_or_ne j (base + i)) [
      | inl e ↦ ground (arith, both.1, ap src e, ap twin e)
      | inr n ↦ same_word-bytes i base src twin both.0 j p (omega arith)
    ]

-- One more word: a word without changes, and one that is merged.
unmerged :
    (i l t d j b : ℕ)
    → b ≡ (if leb 0 j && ltb j (i * 8) then merged l t d else d)
    → (i * 8 ≤ j → j < i * 8 + 8 → l ≡ t)
    → b ≡ (if leb 0 j && ltb j (suc i * 8) then merged l t d else d)
unmerged i l t d j b ih same = elim (dec_lt j (i * 8)) [
  | yes p ↦ ground (arith, ih)
  | no p ↦ elim (dec_lt j (i * 8 + 8)) [
    | yes q ↦ ground (arith, ih, same (omega arith) q)
    | no q ↦ ground (arith, ih)
  ]
]

merged_next :
    (lo n hi l t d j b : ℕ)
    → hi ≡ lo + n
    → b ≡ (if leb 0 j && ltb j lo then merged l t d else d)
    → (if leb lo j && ltb j (lo + n) then merged l t b else b)
      ≡ (if leb 0 j && ltb j hi then merged l t d else d)
merged_next lo n hi l t d j b e ih = ground (arith, ih, e)

write_words-IsMerge :
    (i : ℕ) (local twin dest : Bytes)
    → IsMerge 0 (i * 8) local twin dest (write_words i local twin dest)
unfolding write_words
write_words-IsMerge zero local twin dest j = ground arith
write_words-IsMerge (suc i) local twin dest j =
    let ih = write_words-IsMerge i local twin dest j in
    let w = commit_word-IsMerge 8 (i * 8) local twin (write_words i local twin dest) j in
    elim (Bool-cases (same_word 8 (i * 8) local twin)) [
      | inl e ↦
          let same = same_word-bytes 8 (i * 8) local twin e in
          rw e (unmerged i (local j) (twin j) (dest j) j _ ih (same j))
      | inr e ↦
          rw e
            (w ∙ merged_next (i * 8) 8 (suc i * 8) (local j) (twin j) (dest j) j _ (omega arith) ih)
    ]

-- `writePageDiffs`, without SSE, sets each byte of the page that is not that of the twin to the local
-- one, and no other byte, of the page or behind it.
pub write_page_diffs-merged :
    (local twin dest : Bytes) (j : ℕ)
    → write_page_diffs local twin dest j
      ≡ (if ltb j page_size then merged (local j) (twin j) (dest j) else dest j)
unfolding write_page_diffs
write_page_diffs-merged local twin dest j = write_words-IsMerge 512 local twin dest j ∙ ground arith

write_chunks-IsMerge :
    (i : ℕ) (local twin dest : Bytes)
    → IsMerge 0 (i * 16) local twin dest (write_chunks i local twin dest)
unfolding write_chunks
write_chunks-IsMerge zero local twin dest j = ground arith
write_chunks-IsMerge (suc i) local twin dest j =
    let ih = write_chunks-IsMerge i local twin dest j in
    let w = commit_word-IsMerge 16 (i * 16) local twin (write_chunks i local twin dest) j in
    (λ k. mask_move-commit_word 16 (i * 16) local twin (write_chunks i local twin dest) k j)
    ∙ w
    ∙ merged_next (i * 16) 16 (suc i * 16) (local j) (twin j) (dest j) j _ (omega arith) ih

-- `writePageDiffs` with SSE and without write the same page.
pub write_page_diffs-sse :
    (local twin dest : Bytes)
    → write_page_diffs_sse local twin dest ≡ write_page_diffs local twin dest
unfolding write_page_diffs_sse
write_page_diffs-sse local twin dest = fun_ext (λ j.
    write_chunks-IsMerge 256 local twin dest j
    ∙ ground arith
    ∙ sym (write_page_diffs-merged local twin dest j))
