-- ===== src/Intersection/ArrayBitmap.antt =====
-- src/seekstorm/intersection.rs, `intersection_docid`: two lists, the first an array of documents and
-- the second a bitmap. The rank of a posting in the second list goes on from the words summed up
-- before. The documents are those of the array from `p_docid` on.
use seek_storm.Base.{
  ℕ, zero, suc, ◌+◌, ◌-◌, ◌*◌, ◌/◌, ◌%◌, ◌^◌, List, [], ◌∷◌, Run, ok, ◌>>=◌, load, ◌==◌,
  if◌then◌else◌, bit_and,
}
use seek_storm.Utils.{read_u64}
use seek_storm.Intersection.{Progress, Bitmap, count_ones}

-- `for i in ((p_run << 3)..byte_pos).step_by(8)`, `n` turns.
unfoldable pub sum_words : Bitmap → ℕ → ℕ → ℕ → Run ℕ
sum_words bitmap zero i p_run_sum = ok p_run_sum
sum_words bitmap (suc n) i p_run_sum = do
  word ← read_u64 bitmap.byte_array (bitmap.compressed_doc_id_range + i)
  sum_words bitmap n (i + 8) (p_run_sum + count_ones 64 word)

-- The bits of a word below `bit_pos`.
unfoldable pub add_low_bits : Bitmap → ℕ → ℕ → ℕ → Run ℕ
add_low_bits bitmap byte_pos bit_pos p_run_sum = if bit_pos == 0 then ok p_run_sum else (do
  word ← read_u64 bitmap.byte_array (bitmap.compressed_doc_id_range + byte_pos)
  ok (p_run_sum + count_ones 64 (word * 2 ^ (64 - bit_pos) % 2 ^ 64)))

pub record RunProgress {ℓ} (S : Type ℓ) : Type ℓ where
  pub p_run : ℕ
  pub p_run_sum : ℕ
  pub progress : Progress S

module _ {ℓ} {S : Type ℓ} (add_result : ℕ → Progress S → Run (Progress S)) (bitmap : Bitmap) where
  unfoldable pub array_step : ℕ → ℕ → RunProgress S → Run (RunProgress S)
  array_step p_docid doc_id run = do
    byte ← load bitmap.byte_array (bitmap.compressed_doc_id_range + doc_id / 2 ^ 3)
    (if bit_and byte (2 ^ (doc_id % 8)) == 0 then ok run else (do
      p_run_sum ← sum_words bitmap (doc_id / 64 - run.p_run) (run.p_run * 8) run.p_run_sum
      rank ← add_low_bits bitmap (doc_id / 64 * 8) (doc_id % 64) p_run_sum
      added ← add_result doc_id (record run.progress { p_docid_0 = p_docid; p_docid_1 = rank })
      ok (record { p_run = doc_id / 64; p_run_sum = p_run_sum; progress = added })))

  unfoldable pub for_docs : ℕ → List ℕ → RunProgress S → Run (RunProgress S)
  for_docs p_docid [] run = ok run
  for_docs p_docid (doc_id ∷ docs) run = do
    next ← array_step p_docid doc_id run
    for_docs (suc p_docid) docs next
