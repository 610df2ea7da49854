-- ===== src/Intersection.antt =====
-- src/seekstorm/intersection.rs, `intersection_bitmap_2`: the documents of a block that stand in the
-- bitmaps of two terms, 1024 words of 64 bits each, and src/seekstorm/compatible.rs. What a document
-- that both terms have is scored and inserted by is a parameter, `add_result`, which is given the
-- document and the ranks of its postings, changes the count and the result, and may panic. A count of
-- results is a number.
pub mod Bits
pub mod Docs
pub mod Scan
pub mod Bitmaps
pub mod ArrayBitmap
pub mod Ranks
mod Tests
use seek_storm.Base.{
  ℕ, zero, suc, ◌+◌, ◌-◌, ◌*◌, ◌/◌, ◌%◌, ◌^◌, List, [], ◌∷◌, Bool, true, false, not, ◌&&◌, Run, ok,
  out_of_fuel, ◌>>=◌, ltb, ◌==◌, if◌then◌else◌, bit_and, take, drop, load,
}
use seek_storm.Utils.{read_slice, from_le_bytes}
use seek_storm.MinHeap.{MinHeap}

pub data ResultType : Type 0 where
  count : ResultType
  topk : ResultType
  topk_count : ResultType

abbrev pub is_count : ResultType → Bool
is_count ResultType.count = true
is_count _ = false

abbrev pub is_topk : ResultType → Bool
is_topk ResultType.topk = true
is_topk _ = false

-- `trailing_zeros` and `count_ones` of a number of at most `bits` bits.
unfoldable pub trailing_zeros : ℕ → ℕ → ℕ
trailing_zeros zero x = 0
trailing_zeros (suc bits) x =
    let rest = trailing_zeros bits (x / 2) in if x % 2 == 1 then 0 else suc rest

unfoldable pub count_ones : ℕ → ℕ → ℕ
count_ones zero x = 0
count_ones (suc bits) x = x % 2 + count_ones bits (x / 2)

abbrev pub max_u64 : ℕ
max_u64 = 2 ^ 64 - 1

-- `_blsr_u64`
unfoldable pub clear_lowest : ℕ → ℕ
clear_lowest x = if x == 0 then x else bit_and x (max_u64 - 2 ^ trailing_zeros 64 x)

-- What the loops change: the ranks in the two posting lists, the count of results, and the result.
pub record Progress {ℓ} (S : Type ℓ) : Type ℓ where
  pub p_docid_0 : ℕ
  pub p_docid_1 : ℕ
  pub result_count : ℕ
  pub search_result : S

-- What the loops see of a result: its heap, and what the scores in that are compared to. `score_le` is
-- `<=` of `f32`.
pub record BlockSearch {ℓ} (S : Type ℓ) (F : Type 0) : Type ℓ where
  pub topk_candidates : S → MinHeap F
  pub score_le : F → F → Bool
  pub top_k : ℕ
  pub block_score : F

module _ {ℓ} {S : Type ℓ} (add_result : ℕ → Progress S → Run (Progress S)) where
  -- The loop over the bits that two words have in common. There are at most 64, so one unit of fuel
  -- more is enough.
  unfoldable pub while_bits : ℕ → ℕ → ℕ → ℕ → ℕ → Progress S → Run (Progress S)
  while_bits zero base bits1 bits2 intersect progress = out_of_fuel
  while_bits (suc fuel) base bits1 bits2 intersect progress =
      let bit_pos = trailing_zeros 64 intersect in
      let mask2 = max_u64 * 2 ^ bit_pos % 2 ^ 64 in
      let mask1 = max_u64 - mask2 in
      let moved =
        if ltb 0 bit_pos
        then record progress {
          p_docid_0 = progress.p_docid_0 + count_ones 64 (bit_and bits1 mask1);
          p_docid_1 = progress.p_docid_1 + count_ones 64 (bit_and bits2 mask1);
        }
        else progress in
      let rest = add_result (base + bit_pos) moved >>= λ added.
      while_bits fuel base (if ltb 0 bit_pos then bit_and bits1 mask2 else bits1)
        (if ltb 0 bit_pos then bit_and bits2 mask2 else bits2) (clear_lowest intersect) added in
      if intersect == 0
      then ok (record progress {
        p_docid_0 = progress.p_docid_0 + count_ones 64 bits1;
        p_docid_1 = progress.p_docid_1 + count_ones 64 bits2;
      })
      else rest

  module _ {F : Type 0} (search : BlockSearch S F) (result_type : ResultType)
      (filtered : Bool) where
    -- The heap is full, and the score of the block does not exceed its least.
    unfoldable pub is_skipped : S → Run Bool
    is_skipped search_result =
        let heap = search.topk_candidates search_result in
        if filtered
        then ok false
        else if heap.current_heap_size == search.top_k
        then (do root ← load heap.elements 0; ok (search.score_le search.block_score root.score))
        else ok false

    unfoldable pub word_step : ℕ → ℕ → ℕ → Progress S → Run (Progress S)
    word_step base bits1 bits2 progress =
        let intersect = bit_and bits1 bits2 in
        let counted = record progress {
          result_count = progress.result_count + count_ones 64 intersect;
        } in
        if not filtered && is_count result_type then ok counted else (do
          skipped ← is_skipped progress.search_result
          (if skipped
              then ok (if is_topk result_type then progress else counted)
              else while_bits 65 base bits1 bits2 intersect progress))

    -- The loop over the words, the first of them at document `base`.
    unfoldable pub for_words : ℕ → List ℕ → List ℕ → Progress S → Run (Progress S)
    for_words base [] ulongs1 progress = ok progress
    for_words base (bits1 ∷ ulongs0) [] progress = ok progress
    for_words base (bits1 ∷ ulongs0) (bits2 ∷ ulongs1) progress = do
      next ← word_step base bits1 bits2 progress
      for_words (base + 64) ulongs0 ulongs1 next

-- `cast_byte_ulong_slice` of `8 * n` bytes.
unfoldable pub cast_byte_ulong_slice : ℕ → List ℕ → List ℕ
cast_byte_ulong_slice zero vec8 = []
cast_byte_ulong_slice (suc n) vec8 =
    from_le_bytes (take 8 vec8) ∷ cast_byte_ulong_slice n (drop 8 vec8)

-- Where the bitmap of a posting list begins.
pub record Bitmap : Type 0 where
  pub byte_array : List ℕ
  pub compressed_doc_id_range : ℕ

abbrev pub bitmap_words : Bitmap → Run (List ℕ)
bitmap_words bitmap = do
  bytes ← read_slice bitmap.byte_array bitmap.compressed_doc_id_range 8192
  ok (cast_byte_ulong_slice 1024 bytes)

unfoldable pub intersection_bitmap_2 {ℓ} :
    {S : Type ℓ} {F : Type 0}
    → (ℕ → Progress S → Run (Progress S))
    → BlockSearch S F
    → ResultType
    → Bool
    → Bitmap
    → Bitmap
    → Progress S
    → Run (Progress S)
intersection_bitmap_2 add_result search result_type filtered bitmap0 bitmap1 progress = do
  ulongs0 ← bitmap_words bitmap0
  ulongs1 ← bitmap_words bitmap1
  for_words add_result search result_type filtered 0 ulongs0 ulongs1 progress
