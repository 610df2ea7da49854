-- ===== src/Postings.antt =====
-- src/seekstorm/compress_postinglist.rs: the postings of one key in one block, from the chain in
-- the postings buffer to the compressed form in the segment buffer. The index is the record of the
-- fields that this code reads and changes; `plo` is the entry of the key, which each function looks
-- up under the same `key0` and `key_hash`. An arithmetic overflow panics, as the debug build does.
-- `enable_delta_compression` is the constant false there, so its branches are left out.
pub mod Score
pub mod Iterator
pub mod Compress
pub mod Choose
pub mod Scan
pub mod Head
pub mod Search
pub mod Pointer
pub mod Runs
pub mod RunRead
pub mod RunLoop
pub mod RunScan
pub mod RoundTrip
mod Tests
use seek_storm.Base.{ℕ, ◌+◌, ◌-◌, ◌*◌, ◌<◌, List, Bool, Run, ok, panic, leb, ltb, if◌then◌else◌}
use seek_storm.Fields.Embedded.{FieldSchema}

-- The operations on f32 that the scores use. `of_count` is `as f32`, `above` is `>`.
pub record ScoreOps : Type 1 where
  pub F32 : Type 0
  pub of_count : ℕ → F32
  pub add : F32 → F32 → F32
  pub sub : F32 → F32 → F32
  pub mul : F32 → F32 → F32
  pub div : F32 → F32 → F32
  pub ln : F32 → F32
  pub above : F32 → F32 → Bool
  pub half : F32
  pub k : F32
  pub b : F32
  pub sigma : F32

pub record PostingListObject0 (ops : ScoreOps) : Type 0 where
  pub pointer_first : ℕ
  pub posting_count : ℕ
  pub max_block_score : ops.F32
  pub max_docid : ℕ
  pub max_p_docid : ℕ
  pub is_bigram : Bool
  pub term_bigram1 : List ℕ
  pub term_bigram2 : List ℕ
  pub posting_count_bigram1 : ℕ
  pub posting_count_bigram2 : ℕ
  pub position_count : ℕ
  pub pointer_pivot_p_docid : ℕ
  pub size_compressed_positions_key : ℕ
  pub compression_type_pointer : ℕ

pub record Index (ops : ScoreOps) : Type 0 where
  pub postings_buffer : List ℕ
  pub segment_block_buffer : List ℕ
  pub plo : PostingListObject0 ops
  pub schema : FieldSchema
  pub boosts : List ops.F32
  pub is_bm25f_proximity : Bool
  pub document_length_compressed_array : List (List ℕ)
  pub document_length_normalized_average : ops.F32
  pub indexed_doc_count : ℕ
  pub stopwords : List (List ℕ)
  pub stopword_posting_counts : List ℕ
  pub docid_count : ℕ
  pub postinglist_count : ℕ
  pub position_count : ℕ

pub data CompressionType : Type 0 where
  delta array bitmap rle error : CompressionType

-- `as u32`
abbrev pub discriminant : CompressionType → ℕ
discriminant CompressionType.delta = 0
discriminant CompressionType.array = 1
discriminant CompressionType.bitmap = 2
discriminant CompressionType.rle = 3
discriminant CompressionType.error = 4

-- `a - b`, and `a + b` of u16.
abbrev pub checked_sub : ℕ → ℕ → Run ℕ
checked_sub a b = if leb b a then ok (a - b) else panic

abbrev pub add_u16 : ℕ → ℕ → Run ℕ
add_u16 a b = if ltb (a + b) 65536 then ok (a + b) else panic
