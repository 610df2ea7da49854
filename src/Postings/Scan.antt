-- ===== src/Postings/Scan.antt =====
-- src/seekstorm/commit.rs, `iterate_docid`: the documents of a compressed posting list, in the order
-- in which they are handed to `add_docid`. A document is its number in the block; a slice cast to
-- words is read word by word. The pointers of `add_docid` and the files are not part of this.
use seek_storm.Base.{
  ℕ, zero, suc, ◌+◌, ◌-◌, ◌*◌, ◌/◌, ◌%◌, ◌^◌, List, [], ◌∷◌, ◌++◌, Run, ok, panic, ◌>>=◌, leb,
  if◌then◌else◌, ◌==◌, bit_and,
}
use seek_storm.Utils.{read_u16, read_u64}
use seek_storm.Postings.{CompressionType, add_u16}

-- Where the documents begin, from the fields of the key head. `posting_count` is one less than the
-- number of the postings.
unfoldable pub compressed_doc_id_range : ℕ → ℕ → ℕ → ℕ
compressed_doc_id_range compression_type_pointer pointer_pivot_p_docid posting_count =
    bit_and compression_type_pointer 0x3fffffff
    + (pointer_pivot_p_docid * 2
        + (if leb pointer_pivot_p_docid posting_count
            then (posting_count + 1 - pointer_pivot_p_docid) * 3
            else 0))

unfoldable pub scan_array : ℕ → List ℕ → ℕ → Run (List ℕ)
scan_array zero byte_array start = ok []
scan_array (suc turns) byte_array start = do
  doc_id ← read_u16 byte_array start
  rest ← scan_array turns byte_array (start + 2)
  ok (doc_id ∷ rest)

-- `for j in 0..=runlength`, `turns` being one more than the length.
unfoldable pub scan_run : ℕ → ℕ → ℕ → Run (List ℕ)
scan_run zero startdocid j = ok []
scan_run (suc turns) startdocid j = do
  doc_id ← add_u16 startdocid j
  rest ← scan_run turns startdocid (suc j)
  ok (doc_id ∷ rest)

unfoldable pub scan_runs : ℕ → List ℕ → ℕ → Run (List ℕ)
scan_runs zero byte_array start = ok []
scan_runs (suc turns) byte_array start = do
  startdocid ← read_u16 byte_array start
  runlength ← read_u16 byte_array (start + 2)
  docs ← scan_run (suc runlength) startdocid 0
  rest ← scan_runs turns byte_array (start + 4)
  ok (docs ++ rest)

unfoldable pub scan_rle : List ℕ → ℕ → Run (List ℕ)
scan_rle byte_array start = do
  runs_count ← read_u16 byte_array start
  scan_runs runs_count byte_array (start + 2)

-- The bits of a word from the lowest on: `_mm_tzcnt_64` and `_blsr_u64` visit those that are set.
unfoldable pub scan_word : ℕ → ℕ → ℕ → List ℕ
scan_word zero word doc_id = []
scan_word (suc turns) word doc_id =
    let rest = scan_word turns (word / 2) (suc doc_id) in
    if word % 2 == 1 then doc_id ∷ rest else rest

unfoldable pub scan_bitmap : ℕ → List ℕ → ℕ → ℕ → Run (List ℕ)
scan_bitmap zero byte_array start doc_id = ok []
scan_bitmap (suc turns) byte_array start doc_id = do
  word ← read_u64 byte_array start
  rest ← scan_bitmap turns byte_array (start + 8) (doc_id + 64)
  ok (scan_word 64 word doc_id ++ rest)

-- `FromPrimitive` on the two upper bits.
unfoldable pub compression_type : ℕ → Run CompressionType
compression_type compression_type_pointer =
    let bits = compression_type_pointer / 2 ^ 30 in
    if bits == 0
    then ok CompressionType.delta
    else if bits == 1
    then ok CompressionType.array
    else if bits == 2
    then ok CompressionType.bitmap
    else if bits == 3
    then ok CompressionType.rle
    else if bits == 4
    then ok CompressionType.error
    else panic

unfoldable pub scan_docids : CompressionType → ℕ → List ℕ → ℕ → Run (List ℕ)
scan_docids CompressionType.array posting_count byte_array start =
    scan_array (suc posting_count) byte_array start
scan_docids CompressionType.rle posting_count byte_array start = scan_rle byte_array start
scan_docids CompressionType.bitmap posting_count byte_array start =
    scan_bitmap 1024 byte_array start 0
scan_docids CompressionType.delta posting_count byte_array start = ok []
scan_docids CompressionType.error posting_count byte_array start = ok []

unfoldable pub iterate_docid : ℕ → ℕ → ℕ → List ℕ → Run (List ℕ)
iterate_docid compression_type_pointer pointer_pivot_p_docid posting_count byte_array = do
  type ← compression_type compression_type_pointer
  scan_docids type posting_count byte_array
      (compressed_doc_id_range compression_type_pointer pointer_pivot_p_docid posting_count)
