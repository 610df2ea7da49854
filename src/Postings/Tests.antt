-- ===== src/Postings/Tests.antt =====
-- The heads of keys and the runs of documents on concrete buffers.
use seek_storm.Base.{
  [], ◌-◌, ◌/◌, ltb, false, true, length, ℕ, zero, suc, ◌+◌, ◌*◌, ◌≤◌, ◌<◌, List, ◌∷◌, ◌++◌, ok,
  load, ◌>>=◌, At, ◌≡◌, ◌⊎◌, arith, replicate, get_elem?, refl, some, none,
}
use seek_storm.Utils.{read_u64, read_le, read_slice, to_array, from_le_bytes}
use seek_storm.Postings.Choose.{KeyHead, write_key_head}
use seek_storm.Postings.Head.{key_head_size, read_key_head, binary_search, search_loop}
use seek_storm.Postings.RoundTrip.{read_key_head-write_key_head}
use seek_storm.Postings.{ScoreOps, Index, CompressionType}
use seek_storm.Postings.Compress.{
  type_pointer, posting_pointer_size_sum, Compressed, NextPosting, docid_start,
  compress_postinglist_rle,
}
use seek_storm.Postings.Scan.{scan_rle, compression_type, compressed_doc_id_range}
use seek_storm.Postings.Pointer.{compressed_doc_id_range-type_pointer}
use seek_storm.Postings.Runs.{runs_of}
use seek_storm.Postings.RunLoop.{Source}
use seek_storm.Postings.RunScan.{scan_rle-compress_postinglist_rle}
use seek_storm.Postings.Search.{Finds, binary_search-Finds}

abbrev a_head : KeyHead
a_head = record {
  key_hash = 123456789;
  posting_count = 4;
  max_docid = 70;
  max_p_docid = 3;
  bigram_term_index1 = 255;
  bigram_term_index2 = 255;
  pointer_pivot_p_docid = 5;
  compression_type_pointer = 3221225500;
}

abbrev room : List ℕ
room = replicate 24 0

read_key_head-write_key_head_example :
    (result : List ℕ) × (write_key_head a_head room 1 ≡ ok (result, 1 + key_head_size))
    × ((i : ℕ) → (i < 1) ⊎ (1 + key_head_size ≤ i) → get_elem? result i ≡ get_elem? room i)
    × (read_key_head result 1 ≡ ok a_head)
read_key_head-write_key_head_example =
    read_key_head-write_key_head a_head room 1
      (record {
        key_hash = omega arith;
        posting_count = omega arith;
        max_docid = omega arith;
        max_p_docid = omega arith;
        pointer_pivot_p_docid = omega arith;
        compression_type_pointer = omega arith;
      })
      (omega arith)

-- Two heads, with the keys 7 and 300.
abbrev two_heads : List ℕ
two_heads = 7 ∷ (replicate 21 0 ++ 44 ∷ 1 ∷ replicate 20 0)

abbrev keys : ℕ → ℕ
keys zero = 7
keys (suc i) = 300 + i

two_heads-keys : (i : ℕ) → i < 2 → read_u64 two_heads (i * key_head_size) ≡ ok (keys i)
unfolding read_u64 read_le read_slice to_array from_le_bytes
two_heads-keys zero h = refl
two_heads-keys (suc zero) h = refl
two_heads-keys (suc (suc i)) h = absurd (omega arith)

keys_ascend : (i j : ℕ) → i < j → j < 2 → keys i < keys j
keys_ascend zero zero h k = absurd (omega arith)
keys_ascend zero (suc j) h k = omega arith
keys_ascend (suc i) zero h k = absurd (omega arith)
keys_ascend (suc i) (suc j) h k = omega arith

binary_search-Finds_example : Finds keys 2 300 (binary_search two_heads 2 300)
binary_search-Finds_example = binary_search-Finds two_heads 2 keys 300 two_heads-keys keys_ascend

binary_search_second : binary_search two_heads 2 300 ≡ ok (some 1)
unfolding binary_search search_loop read_u64 read_le read_slice to_array from_le_bytes
binary_search_second = refl

binary_search_absent : binary_search two_heads 2 8 ≡ ok none
unfolding binary_search search_loop read_u64 read_le read_slice to_array from_le_bytes
binary_search_absent = refl

-- Scores as natural numbers, and an index with an empty posting list.
abbrev number_ops : ScoreOps
number_ops = record {
  F32 = ℕ;
  of_count = λ n. n;
  add = ◌+◌;
  sub = ◌-◌;
  mul = ◌*◌;
  div = ◌/◌;
  ln = λ x. x;
  above = λ x y. ltb y x;
  half = 0;
  k = 1;
  b = 0;
  sigma = 0;
}

abbrev an_index : Index number_ops
an_index = record {
  postings_buffer = [];
  segment_block_buffer = replicate 30 0;
  plo = record {
    pointer_first = 0;
    posting_count = 4;
    max_block_score = 0;
    max_docid = 0;
    max_p_docid = 0;
    is_bigram = false;
    term_bigram1 = [];
    term_bigram2 = [];
    posting_count_bigram1 = 0;
    posting_count_bigram2 = 0;
    position_count = 4;
    pointer_pivot_p_docid = 4;
    size_compressed_positions_key = 0;
    compression_type_pointer = 0;
  };
  schema = record {
    indexed_field_vec_len = 1;
    indexed_field_id_bits = 0;
    indexed_field_id_mask = 0;
    longest_field_id = 0;
  };
  boosts = [];
  is_bm25f_proximity = true;
  document_length_compressed_array = [];
  document_length_normalized_average = 1;
  indexed_doc_count = 4;
  stopwords = [];
  stopword_posting_counts = [];
  docid_count = 0;
  postinglist_count = 0;
  position_count = 0;
}

-- Four documents in two runs, from a list in place of the postings.
abbrev four_docs : List ℕ
four_docs = 3 ∷ 4 ∷ 5 ∷ 9 ∷ []

abbrev from_list : NextPosting number_ops
from_list index cursor p_docid = do doc_id ← load four_docs p_docid; ok (index, cursor, doc_id)

abbrev list_source : (start : ℕ) → Source number_ops start from_list
list_source start = record {
  Left = λ docs p index cursor. At four_docs p docs;
  yields = λ doc_id docs p index cursor left.
      (index, cursor, rw (left.0) refl, left.1, refl, λ i h. refl);
  kept = λ docs p index cursor bytes left. left;
}

scan_rle-compress_postinglist_rle_example :
    (done : Compressed number_ops) × (compress_postinglist_rle number_ops from_list an_index 2 2 7
      ≡ ok done)
    × (scan_rle done.index.segment_block_buffer (docid_start number_ops an_index 2)
        ≡ ok (3 ∷ 4 ∷ 5 ∷ 9 ∷ []))
    × (done.size_compressed_docid_key ≡ 2 + 4 * length (runs_of 3 0 3 (4 ∷ 5 ∷ 9 ∷ [])))
    × (done.roaring_offset ≡ docid_start number_ops an_index 2 + done.size_compressed_docid_key)
unfolding runs_of
scan_rle-compress_postinglist_rle_example =
    scan_rle-compress_postinglist_rle number_ops from_list an_index 2 2 7 3 (4 ∷ 5 ∷ 9 ∷ [])
      (list_source (docid_start number_ops an_index 2)) (refl, (refl, (refl, (refl, tt)))) refl
      (omega arith, (omega arith, (omega arith, omega arith))) (omega arith) (omega arith)
      (omega arith)

two_runs : runs_of 3 0 3 (4 ∷ 5 ∷ 9 ∷ []) ≡ (3, 2) ∷ (9, 0) ∷ []
unfolding runs_of
two_runs = refl

-- The pointer of runs at offset 20, for four postings with pointers of two bytes.
compressed_doc_id_range-type_pointer_example :
    (compression_type (type_pointer number_ops 20 CompressionType.rle) ≡ ok CompressionType.rle)
    × (compressed_doc_id_range (type_pointer number_ops 20 CompressionType.rle) 4 3
        ≡ 20 + posting_pointer_size_sum number_ops an_index.plo)
compressed_doc_id_range-type_pointer_example =
    compressed_doc_id_range-type_pointer number_ops an_index.plo 20 3 CompressionType.rle
      (omega arith) (omega arith) refl
