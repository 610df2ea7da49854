-- ===== src/Postings/Choose.antt =====
-- src/seekstorm/compress_postinglist.rs, `compress_postinglist`: the choice of the compression, and
-- the 22 bytes of the key head. `STOPWORDS.binary_search` finds the place of a word in a sorted
-- list without repetition, which is searched from its start here.
use seek_storm.Base.{
  ℕ, suc, ◌+◌, ◌/◌, ◌%◌, List, [], ◌∷◌, Bool, true, false, Option, none, some, Run, ok, ◌>>=◌, load,
  unwrap, ltb, ◌==◌, if◌then◌else◌, min, ◌&&◌,
}
use seek_storm.Utils.{write_u8_ref, write_u16_ref, write_u32_ref, write_u64_ref}
use seek_storm.Postings.{ScoreOps, Index, checked_sub}
use seek_storm.Postings.Compress.{
  Compressed, compress_postinglist_array, compress_postinglist_bitmap, compress_postinglist_rle,
  posting_at,
}

abbrev same_word : List ℕ → List ℕ → Bool
same_word [] [] = true
same_word [] (y ∷ ys) = false
same_word (x ∷ xs) [] = false
same_word (x ∷ xs) (y ∷ ys) = (x == y) && same_word xs ys

unfoldable pub stopword_index : List (List ℕ) → List ℕ → Option ℕ
stopword_index [] word = none
stopword_index (w ∷ ws) word =
    let rest = stopword_index ws word in
    if same_word w word then some 0 else elim rest [ some i ↦ some (suc i) | none ↦ none ]

-- What is written to the head of a key.
pub record KeyHead : Type 0 where
  pub key_hash : ℕ
  pub posting_count : ℕ
  pub max_docid : ℕ
  pub max_p_docid : ℕ
  pub bigram_term_index1 : ℕ
  pub bigram_term_index2 : ℕ
  pub pointer_pivot_p_docid : ℕ
  pub compression_type_pointer : ℕ

unfoldable pub write_key_head : KeyHead → List ℕ → ℕ → Run (List ℕ × ℕ)
write_key_head head buffer0 pointer0 = do
  w1 ← write_u64_ref head.key_hash buffer0 pointer0
  w2 ← write_u16_ref head.posting_count w1.0 w1.1
  w3 ← write_u16_ref head.max_docid w2.0 w2.1
  w4 ← write_u16_ref head.max_p_docid w3.0 w3.1
  w5 ← write_u8_ref head.bigram_term_index1 w4.0 w4.1
  w6 ← write_u8_ref head.bigram_term_index2 w5.0 w5.1
  w7 ← write_u16_ref head.pointer_pivot_p_docid w6.0 w6.1
  write_u32_ref head.compression_type_pointer w7.0 w7.1

module _ (ops : ScoreOps) where
  -- How often the stop word of a bigram occurs.
  unfoldable pub stopword_count : Index ops → List ℕ → Run ℕ
  stopword_count index word = do
    i ← unwrap (stopword_index index.stopwords word)
    load index.stopword_posting_counts i

  -- The counters of the index, and those of a bigram.
  unfoldable pub count_postings : Index ops → Run (Index ops)
  count_postings index =
      let plo = index.plo in
      let counted = record index {
        docid_count = index.docid_count + plo.posting_count;
        postinglist_count = index.postinglist_count + 1;
        position_count = index.position_count + plo.position_count;
      } in
      if plo.is_bigram
      then (do
        count1 ← stopword_count index plo.term_bigram1
        count2 ← stopword_count index plo.term_bigram2
        ok (record counted {
          plo = record plo { posting_count_bigram1 = count1; posting_count_bigram2 = count2 };
        }))
      else ok counted

  -- Runs are tried first; where they are too many, an array of documents below 4096 postings, and a
  -- bitmap from there on.
  unfoldable pub compress_docids : Index ops → ℕ → ℕ → Run (Compressed ops)
  compress_docids index roaring_offset key_body_offset =
      if ltb index.plo.posting_count 4096
      then (do
        let threshold = min (index.plo.posting_count / 2 % 65536) 65535
        runs ←
            compress_postinglist_rle ops (posting_at ops) index roaring_offset threshold
              key_body_offset
        (if runs.runs_count == 0
            then compress_postinglist_array ops runs.index runs.roaring_offset key_body_offset
            else ok runs))
      else (do
        runs ←
            compress_postinglist_rle ops (posting_at ops) index roaring_offset (min 2048 65535)
              key_body_offset
        (if runs.runs_count == 0
            then compress_postinglist_bitmap ops runs.index runs.roaring_offset key_body_offset
            else ok runs))

  unfoldable pub bigram_term_index : Index ops → List ℕ → Run ℕ
  bigram_term_index index word =
      if index.plo.is_bigram
      then (do i ← unwrap (stopword_index index.stopwords word); ok (i % 256))
      else ok 255

  -- The results are the index, the moved `roaring_offset` and `key_head_pointer_w`, and the size.
  unfoldable pub compress_postinglist : Index ops → ℕ → ℕ → ℕ → ℕ → Run (Index ops × ℕ × ℕ × ℕ)
  compress_postinglist index0 key_head_pointer_w roaring_offset key_body_offset key_hash = do
    index ← count_postings index0
    done ← compress_docids index roaring_offset key_body_offset
    let plo = done.index.plo
    count ← checked_sub plo.posting_count 1
    term1 ← bigram_term_index done.index plo.term_bigram1
    term2 ← bigram_term_index done.index plo.term_bigram2
    written ←
        write_key_head
          (record {
            key_hash = key_hash;
            posting_count = count % 65536;
            max_docid = plo.max_docid;
            max_p_docid = plo.max_p_docid;
            bigram_term_index1 = term1;
            bigram_term_index2 = term2;
            pointer_pivot_p_docid = plo.pointer_pivot_p_docid;
            compression_type_pointer = done.compression_type_pointer;
          })
          done.index.segment_block_buffer key_head_pointer_w
    ok (
      record done.index { segment_block_buffer = written.0 },
      done.roaring_offset,
      written.1,
      done.size_compressed_docid_key,
    )
