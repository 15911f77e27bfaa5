-- ===== src/Persist/Diff.antt =====
-- `writePageDiffs` and `commitWord` of src/include/xpersist.h, in both of their builds: by words of 8
-- bytes, and by chunks of 16 with SSE (-DSSE_SUPPORT). Bytes are numbers below 256.
pub mod Words
use dthreads.Base.{ℕ, zero, suc, ◌+◌, ◌-◌, ◌*◌, Bool, true, ◌&&◌, ◌==◌, leb, if◌then◌else◌}
use dthreads.Base.Maps.{update}
use dthreads.Persist.{Bytes}

-- The first `i` rounds of the loop of `commitWord`, on the word at `base`.
unfoldable pub commit_word : (i base : ℕ) (src twin dest : Bytes) → Bytes
commit_word zero base src twin dest = dest
commit_word (suc i) base src twin dest =
    let dest = commit_word i base src twin dest in
    if src (base + i) == twin (base + i) then dest else update dest (base + i) (src (base + i))

-- The test that two words are equal, by the first `i` of their bytes.
unfoldable pub same_word : (i base : ℕ) (src twin : Bytes) → Bool
same_word zero base src twin = true
same_word (suc i) base src twin = same_word i base src twin && (src (base + i) == twin (base + i))

-- The first `i` rounds of the loop over the words of a page.
unfoldable pub write_words : (i : ℕ) (local twin dest : Bytes) → Bytes
unfolding commit_word same_word
write_words zero local twin dest = dest
write_words (suc i) local twin dest =
    let dest = write_words i local twin dest in
    if same_word 8 (i * 8) local twin then dest else commit_word 8 (i * 8) local twin dest

-- `PageSize / sizeof(long long)` words.
unfoldable pub write_page_diffs : (local twin dest : Bytes) → Bytes
unfolding write_words
write_page_diffs local twin dest = write_words 512 local twin dest

-- A byte of `_mm_cmpeq_epi8`, and of its complement by `_mm_xor_si128` with ones.
abbrev pub eq_chunk : ℕ → ℕ → ℕ
eq_chunk a b = if a == b then 255 else 0

abbrev pub neq_chunk : ℕ → ℕ → ℕ
neq_chunk a b = 255 - eq_chunk a b

-- `_mm_maskmoveu_si128` on the first `i` bytes of a chunk: a byte is written if the high bit of its
-- mask is set.
unfoldable pub mask_move : (i base : ℕ) (src twin dest : Bytes) → Bytes
mask_move zero base src twin dest = dest
mask_move (suc i) base src twin dest =
    let dest = mask_move i base src twin dest in
    if leb 128 (neq_chunk (src (base + i)) (twin (base + i)))
    then update dest (base + i) (src (base + i))
    else dest

unfoldable pub write_chunks : (i : ℕ) (local twin dest : Bytes) → Bytes
unfolding mask_move
write_chunks zero local twin dest = dest
write_chunks (suc i) local twin dest =
    let dest = write_chunks i local twin dest in mask_move 16 (i * 16) local twin dest

-- `PageSize / sizeof(__m128i)` chunks.
unfoldable pub write_page_diffs_sse : (local twin dest : Bytes) → Bytes
unfolding write_chunks
write_page_diffs_sse local twin dest = write_chunks 256 local twin dest
