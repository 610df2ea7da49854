-- ===== src/Intersection/Tests.antt =====
-- The intersection of two bitmaps at concrete values.
use seek_storm.Base.{
  ◌>>=◌, ℕ, zero, suc, ◌+◌, List, [], ◌∷◌, false, not, ltb, length, Run, ok, replicate,
  length-replicate, ◌≡◌, refl, arith,
}
use seek_storm.Intersection.{
  Progress, BlockSearch, is_skipped, word_step, ResultType, Bitmap, intersection_bitmap_2,
  while_bits, trailing_zeros, count_ones, clear_lowest,
}
use seek_storm.Base.Array.{at}
use seek_storm.Intersection.Docs.{AllBytes, HasBitmap, has_doc, count_docs, common_docs}
use seek_storm.Intersection.Bitmaps.{intersection_bitmap_2-count}
use seek_storm.Intersection.ArrayBitmap.{for_docs}
use seek_storm.Intersection.Ranks.{ranked_docs, for_docs-ranked_docs}

-- The documents 0, 2 and 9, and the documents 2 and 9.
abbrev bitmap_a : Bitmap
bitmap_a = record { byte_array = 5 ∷ 2 ∷ replicate 8190 0; compressed_doc_id_range = 0 }

abbrev bitmap_b : Bitmap
bitmap_b = record { byte_array = 4 ∷ 2 ∷ replicate 8190 0; compressed_doc_id_range = 0 }

zeros-AllBytes : (n : ℕ) → AllBytes (replicate n 0)
zeros-AllBytes zero = tt
zeros-AllBytes (suc n) = (omega arith, zeros-AllBytes n)

-- The documents and the ranks, the last first.
abbrev listed : ℕ → Progress (List (ℕ × ℕ × ℕ)) → Run (Progress (List (ℕ × ℕ × ℕ)))
listed doc_id progress = ok (record progress {
  result_count = progress.result_count + 1;
  search_result = (doc_id, progress.p_docid_0, progress.p_docid_1) ∷ progress.search_result;
})

abbrev start : Progress (List (ℕ × ℕ × ℕ))
start = record { p_docid_0 = 0; p_docid_1 = 0; result_count = 0; search_result = [] }

-- The first words of the two bitmaps.
while_bits-listed :
    while_bits listed 65 0 517 516 516 start
    ≡ ok (record {
      p_docid_0 = 3;
      p_docid_1 = 2;
      result_count = 2;
      search_result = (9, 2, 1) ∷ (2, 1, 0) ∷ [];
    })
unfolding while_bits trailing_zeros count_ones clear_lowest
while_bits-listed = refl

has_a : HasBitmap bitmap_a
has_a = (
  (omega arith, (omega arith, zeros-AllBytes 8190)),
  omega (arith, length-replicate {A = ℕ} 8190 0),
)

has_b : HasBitmap bitmap_b
has_b = (
  (omega arith, (omega arith, zeros-AllBytes 8190)),
  omega (arith, length-replicate {A = ℕ} 8190 0),
)

-- A heap with room for results.
abbrev search : BlockSearch (List (ℕ × ℕ × ℕ)) ℕ
search = record {
  topk_candidates = λ s. record { elements = []; current_heap_size = length s; docid_hashset = [] };
  score_le = λ a b. not (ltb b a);
  top_k = 10;
  block_score = 7;
}

-- A full heap whose root is not below the block.
abbrev full : BlockSearch (List (ℕ × ℕ × ℕ)) ℕ
full = record search {
  topk_candidates = λ s. record {
    elements = record { doc_id = 1; score = 8 } ∷ [];
    current_heap_size = 10;
    docid_hashset = [];
  };
}

word_step-full :
    word_step listed full ResultType.topk_count false 0 517 516 start
    ≡ ok (record start { result_count = 2 })
unfolding word_step is_skipped count_ones
word_step-full = refl

intersection_bitmap_2-count_example :
    intersection_bitmap_2 listed search ResultType.count false bitmap_a bitmap_b start
    ≡ ok (record start { result_count = 0 + common_docs bitmap_a bitmap_b 65536 0 })
intersection_bitmap_2-count_example =
    intersection_bitmap_2-count listed bitmap_a bitmap_b search start has_a has_b

-- The same documents, with their ranks.
ranked_docs-listed :
    ranked_docs listed bitmap_a 0 (2 ∷ 3 ∷ 9 ∷ []) start
    ≡ ok (record {
      p_docid_0 = 2;
      p_docid_1 = 2;
      result_count = 2;
      search_result = (9, 2, 2) ∷ (2, 0, 1) ∷ [];
    })
unfolding ranked_docs has_doc count_docs at
ranked_docs-listed = refl

for_docs-ranked_docs_example :
    (do
      run ←
          for_docs listed bitmap_a 0
            (2 ∷ 3 ∷ 9 ∷ [])
            (record { p_run = 0; p_run_sum = 0; progress = start })
      ok run.progress)
    ≡ ranked_docs listed bitmap_a 0 (2 ∷ 3 ∷ 9 ∷ []) start
for_docs-ranked_docs_example =
    for_docs-ranked_docs listed bitmap_a has_a 0 (2 ∷ 3 ∷ 9 ∷ []) start
      (omega arith, omega arith, (omega arith, omega arith, (omega arith, omega arith, tt)))
