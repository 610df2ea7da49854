-- ===== src/Postings/Compress.antt =====
-- src/seekstorm/compress_postinglist.rs: the documents of a posting list as an array, as a bitmap or
-- as runs, the choice between them, and the head of the key. A loop over `0..posting_count` is a
-- recursion on the turns left.
use seek_storm.Base.{
  ℕ, zero, suc, ◌+◌, ◌-◌, ◌*◌, ◌/◌, ◌%◌, ◌^◌, List, Option, none, some, Run, ok, ◌>>=◌, load, store,
  ltb, leb, ◌==◌, if◌then◌else◌, bit_and, bit_or, replicate,
}
use seek_storm.Utils.{write_slice, write_u16}
use seek_storm.Postings.{
  ScoreOps, PostingListObject0, Index, CompressionType, discriminant, add_u16,
}
use seek_storm.Postings.Iterator.{Cursor, docid_iterator}

-- What the three compressions return through their `&mut` arguments.
pub record Compressed (ops : ScoreOps) : Type 0 where
  pub index : Index ops
  pub roaring_offset : ℕ
  pub size_compressed_docid_key : ℕ
  pub compression_type_pointer : ℕ
  pub runs_count : ℕ

abbrev pub pointer_size : ℕ → ℕ → ℕ
pointer_size pivot p_docid = if ltb p_docid pivot then 2 else 3

module _ (ops : ScoreOps) where
  abbrev pub posting_pointer_size_sum : PostingListObject0 ops → ℕ
  posting_pointer_size_sum plo =
      plo.pointer_pivot_p_docid * 2
      + (if ltb plo.pointer_pivot_p_docid plo.posting_count
          then (plo.posting_count - plo.pointer_pivot_p_docid) * 3
          else 0)

  -- Where the pointers and where the documents of the key begin.
  abbrev pub rank_start : Index ops → ℕ → ℕ
  rank_start index roaring_offset = roaring_offset + index.plo.size_compressed_positions_key

  abbrev pub docid_start : Index ops → ℕ → ℕ
  docid_start index roaring_offset =
      rank_start index roaring_offset + posting_pointer_size_sum index.plo

  abbrev pub first_cursor : Index ops → ℕ → Cursor
  first_cursor index roaring_offset = record {
    next_pointer = index.plo.pointer_first;
    key_position_pointer_w = rank_start index roaring_offset;
    key_rank_position_pointer_w = rank_start index roaring_offset;
    size_compressed_positions_key = 0;
  }

  abbrev pub type_pointer : ℕ → CompressionType → ℕ
  type_pointer key_body_offset type = bit_or key_body_offset (discriminant type * 2 ^ 30 % 2 ^ 32)

  abbrev pub with_type : Index ops → ℕ → Index ops
  with_type index pointer = record index {
    plo = record index.plo { compression_type_pointer = pointer };
  }

  abbrev pub with_buffer : Index ops → List ℕ → Index ops
  with_buffer index buffer = record index { segment_block_buffer = buffer }

  -- The posting `p_docid`, with the pointer size that its place asks for.
  abbrev pub posting_at : Index ops → Cursor → ℕ → Run (Index ops × Cursor × ℕ)
  posting_at index cursor p_docid =
      docid_iterator ops index (pointer_size index.plo.pointer_pivot_p_docid p_docid) cursor p_docid

  unfoldable pub array_loop : ℕ → ℕ → ℕ → Index ops → Cursor → Run (Index ops)
  array_loop zero p_docid key_docid_pointer_w index cursor = ok index
  array_loop (suc turns) p_docid key_docid_pointer_w index cursor = do
    next ← posting_at index cursor p_docid
    buffer ← write_u16 next.2 next.0.segment_block_buffer (key_docid_pointer_w + p_docid * 2)
    array_loop turns (suc p_docid) key_docid_pointer_w (with_buffer next.0 buffer) next.1

  unfoldable pub compress_postinglist_array : Index ops → ℕ → ℕ → Run (Compressed ops)
  compress_postinglist_array index roaring_offset key_body_offset = do
    let pointer = type_pointer key_body_offset CompressionType.array
    let count_byte = index.plo.posting_count * 2
    let start = docid_start index roaring_offset
    result ←
        array_loop index.plo.posting_count 0 start (with_type index pointer)
          (first_cursor index roaring_offset)
    ok (record {
      index = result;
      roaring_offset = start + count_byte;
      size_compressed_docid_key = count_byte;
      compression_type_pointer = pointer;
      runs_count = 0;
    })

  -- `buffer[i] |= 1u8 << bit`
  abbrev pub set_bit : List ℕ → ℕ → ℕ → Run (List ℕ)
  set_bit buffer i bit = do byte ← load buffer i; store buffer i (bit_or byte (2 ^ bit))

  unfoldable pub bitmap_loop : ℕ → ℕ → ℕ → Index ops → Cursor → Run (Index ops)
  bitmap_loop zero p_docid key_docid_pointer_w index cursor = ok index
  bitmap_loop (suc turns) p_docid key_docid_pointer_w index cursor = do
    next ← posting_at index cursor p_docid
    buffer ←
        set_bit next.0.segment_block_buffer (key_docid_pointer_w + next.2 / 2 ^ 3)
          (bit_and next.2 7)
    bitmap_loop turns (suc p_docid) key_docid_pointer_w (with_buffer next.0 buffer) next.1

  unfoldable pub compress_postinglist_bitmap : Index ops → ℕ → ℕ → Run (Compressed ops)
  compress_postinglist_bitmap index roaring_offset key_body_offset = do
    let pointer = type_pointer key_body_offset CompressionType.bitmap
    let start = docid_start index roaring_offset
    cleared ← write_slice index.segment_block_buffer start (replicate 8192 0)
    result ←
        bitmap_loop index.plo.posting_count 0 start (with_buffer (with_type index pointer) cleared)
          (first_cursor index roaring_offset)
    ok (record {
      index = result;
      roaring_offset = start + 8192;
      size_compressed_docid_key = 8192;
      compression_type_pointer = pointer;
      runs_count = 0;
    })

  -- The local variables of `compress_postinglist_rle`.
  pub record RunState : Type 0 where
    pub run_start : ℕ
    pub run_length : ℕ
    pub runs_count : ℕ
    pub key_docid_pointer_w : ℕ
    pub doc_id_old : ℕ

  -- The run is written as its start and its length, behind the count and the runs before it.
  unfoldable pub write_run : List ℕ → ℕ → RunState → Run (List ℕ)
  write_run buffer start runs = do
    let slot = runs.runs_count * 2 % 65536
    buffer1 ← write_u16 runs.run_start buffer (start + (slot + 1) * 2)
    write_u16 runs.run_length buffer1 (start + (slot + 2) * 2)

  -- The next document begins the first run, prolongs the run, or ends it and begins the next.
  unfoldable pub add_to_runs : List ℕ → ℕ → ℕ → ℕ → RunState → Run (List ℕ × RunState)
  add_to_runs buffer start p_docid doc_id runs =
      if p_docid == 0 then ok (buffer, record runs { run_start = doc_id }) else (do
        following ← add_u16 runs.doc_id_old 1
        (if following == doc_id
            then (do
              longer ← add_u16 runs.run_length 1
              ok (buffer, record runs { run_length = longer }))
            else (do
              written ← write_run buffer start runs
              more ← add_u16 runs.runs_count 1
              ok (
                written,
                record runs {
                  run_start = doc_id;
                  run_length = 0;
                  runs_count = more;
                  key_docid_pointer_w = runs.key_docid_pointer_w + 4;
                },
              ))))

  -- What the loop over runs calls for the next posting: `posting_at`, or what stands in for it.
  abbrev pub NextPosting : Type 0
  NextPosting = Index ops → Cursor → ℕ → Run (Index ops × Cursor × ℕ)

  -- No state of the runs is returned where their number reaches the threshold.
  unfoldable pub rle_loop :
      NextPosting
      → ℕ
      → ℕ
      → ℕ
      → ℕ
      → Index ops
      → Cursor
      → RunState
      → Run (Index ops × Option RunState)
  rle_loop next_posting zero p_docid start threshold index cursor runs = ok (index, some runs)
  rle_loop next_posting (suc turns) p_docid start threshold index cursor runs = do
    next ← next_posting index cursor p_docid
    added ← add_to_runs next.0.segment_block_buffer start p_docid next.2 runs
    (if leb threshold added.1.runs_count
        then ok (with_buffer next.0 added.0, none)
        else rle_loop next_posting turns (suc p_docid) start threshold (with_buffer next.0 added.0)
            next.1 (record added.1 { doc_id_old = next.2 }))

  -- The last run and the count of the runs.
  unfoldable pub finish_runs : ℕ → ℕ → Index ops → RunState → Run (Compressed ops)
  finish_runs start pointer index runs = do
    buffer ← write_run index.segment_block_buffer start runs
    count ← add_u16 runs.runs_count 1
    counted ← write_u16 count buffer start
    (let end = runs.key_docid_pointer_w + 4 + 2 in
        ok (record {
          index = with_buffer index counted;
          roaring_offset = end;
          size_compressed_docid_key = end - start;
          compression_type_pointer = pointer;
          runs_count = count;
        }))

  unfoldable pub compress_postinglist_rle :
      NextPosting → Index ops → ℕ → ℕ → ℕ → Run (Compressed ops)
  compress_postinglist_rle next_posting index roaring_offset runs_count_threshold key_body_offset =
      do
        let pointer = type_pointer key_body_offset CompressionType.rle
        let start = docid_start index roaring_offset
        result ←
            rle_loop next_posting index.plo.posting_count 0 start runs_count_threshold
              (with_type index pointer) (first_cursor index roaring_offset)
              (record {
                run_start = 0;
                run_length = 0;
                runs_count = 0;
                key_docid_pointer_w = start;
                doc_id_old = 0;
              })
        elim result.1 [
          | some runs ↦ finish_runs start pointer result.0 runs
          | none ↦ ok (record {
            index = result.0;
            roaring_offset = roaring_offset;
            size_compressed_docid_key = 0;
            compression_type_pointer = pointer;
            runs_count = 0;
          })
        ]
