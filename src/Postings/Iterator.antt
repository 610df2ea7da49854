-- ===== src/Postings/Iterator.antt =====
-- src/seekstorm/compress_postinglist.rs, `docid_iterator`: one posting of the chain is read, its
-- positions or embedded pointer are copied to the segment buffer, and the best score is updated.
use seek_storm.Base.{
  ℕ, ◌+◌, ◌/◌, ◌^◌, List, Bool, Run, ok, ◌>>=◌, store, ◌==◌, if◌then◌else◌, bit_and, not,
}
use seek_storm.Utils.{read_u16_ref, read_u32_ref, block_copy}
use seek_storm.Fields.Embedded.{decode_positions_commit}
use seek_storm.Postings.{ScoreOps, Index, checked_sub}
use seek_storm.Postings.Score.{posting_score, update_max}

-- The positions that `docid_iterator` moves.
pub record Cursor : Type 0 where
  pub next_pointer : ℕ
  pub key_position_pointer_w : ℕ
  pub key_rank_position_pointer_w : ℕ
  pub size_compressed_positions_key : ℕ

-- One posting of the chain in the postings buffer.
pub record Posting : Type 0 where
  pub next : ℕ
  pub doc_id : ℕ
  pub embed_flag : Bool
  pub position_size_byte : ℕ
  pub read_pointer : ℕ

unfoldable pub read_posting : List ℕ → ℕ → Run Posting
read_posting postings_buffer next_pointer = do
  next ← read_u32_ref postings_buffer next_pointer
  doc_id ← read_u16_ref postings_buffer next.1
  size ← read_u16_ref postings_buffer doc_id.1
  ok (record {
    next = next.0;
    doc_id = doc_id.0;
    embed_flag = not (bit_and size.0 0x8000 == 0);
    position_size_byte = bit_and size.0 0x7fff;
    read_pointer = size.1;
  })

-- The bytes of the rank position pointer, the last one with seven bits.
unfoldable pub write_rank_pointer : ℕ → List ℕ → ℕ → ℕ → Run (List ℕ)
write_rank_pointer pointer_size buffer pointer size = do
  buffer1 ← store buffer pointer (bit_and size 255)
  (if pointer_size == 2 then store buffer1 (pointer + 1) (bit_and (size / 2 ^ 8) 127) else (do
    buffer2 ← store buffer1 (pointer + 1) (bit_and (size / 2 ^ 8) 255)
    store buffer2 (pointer + 1 + 1) (bit_and (size / 2 ^ 16) 127)))

-- An embedded posting is copied in the place of its pointer; any other is copied below those before
-- it, and the pointer tells how far below.
unfoldable pub copy_posting : ℕ → Posting → List ℕ → Cursor → List ℕ → Run (List ℕ × Cursor)
copy_posting pointer_size posting postings_buffer cursor buffer =
    if posting.embed_flag
    then (do
      copied ←
          block_copy postings_buffer posting.read_pointer buffer cursor.key_rank_position_pointer_w
            posting.position_size_byte
      ok (
        copied,
        record cursor {
          key_rank_position_pointer_w = cursor.key_rank_position_pointer_w + pointer_size;
        },
      ))
    else (do
      let size = cursor.size_compressed_positions_key + posting.position_size_byte
      pointer ← checked_sub cursor.key_position_pointer_w posting.position_size_byte
      ranked ← write_rank_pointer pointer_size buffer cursor.key_rank_position_pointer_w size
      copied ←
          block_copy postings_buffer posting.read_pointer ranked pointer posting.position_size_byte
      ok (
        copied,
        record cursor {
          key_position_pointer_w = pointer;
          key_rank_position_pointer_w = cursor.key_rank_position_pointer_w + pointer_size;
          size_compressed_positions_key = size;
        },
      ))

module _ (ops : ScoreOps) where
  -- The third result is the document.
  unfoldable pub docid_iterator : Index ops → ℕ → Cursor → ℕ → Run (Index ops × Cursor × ℕ)
  docid_iterator index posting_pointer_size cursor p_docid = do
    posting ← read_posting index.postings_buffer cursor.next_pointer
    fields ←
        decode_positions_commit posting_pointer_size posting.embed_flag index.postings_buffer
          posting.read_pointer index.plo.is_bigram index.schema
    copied ←
        copy_posting posting_pointer_size posting index.postings_buffer
          (record cursor { next_pointer = posting.next }) index.segment_block_buffer
    score ← posting_score ops index posting.doc_id fields
    ok (
      record index {
        segment_block_buffer = copied.0;
        plo = update_max ops score posting.doc_id p_docid index.plo;
      },
      copied.1,
      posting.doc_id,
    )
