-- ===== src/Postings/RunScan.antt =====
-- The runs that finish_runs leaves in the segment buffer are read as the documents they stand for.
use seek_storm.Base.{
  ℕ, ◌+◌, ◌-◌, ◌*◌, ◌≤◌, ◌<◌, List, [], ◌∷◌, some, leb, false, ok, length, arith, ◌≡◌, refl, sym,
  ap, ◌∙◌, inr, overwrite, length-append, length-overwrite, At, At-overwrite, At-overwrite_frame,
}
use seek_storm.Utils.{to_le_bytes, write_slice, write_u16, read_u16}
use seek_storm.Utils.Laws.{length-to_le_bytes, write_slice-ok, read_le-At}
use seek_storm.Postings.{ScoreOps, Index, CompressionType}
use seek_storm.Postings.Iterator.{Cursor}
use seek_storm.Postings.Compress.{
  Compressed, RunState, NextPosting, write_run, add_to_runs, rle_loop, finish_runs, with_buffer,
  with_type, type_pointer, docid_start, first_cursor, compress_postinglist_rle,
}
use seek_storm.Postings.Scan.{scan_rle}
use seek_storm.Postings.Runs.{runs_of, Ascend, run_bytes, length-run_bytes, Stands, write_run-ok}
use seek_storm.Postings.RunLoop.{Source, some_runs, rle_loop-Stands}
use seek_storm.Postings.RunRead.{runs_of-Fit, scan_runs-At, read_back}

-- The local variables of compress_postinglist_rle before its loop.
abbrev pub first_state : (ops : ScoreOps) → ℕ → RunState ops
first_state ops start = record {
  run_start = 0;
  run_length = 0;
  runs_count = 0;
  key_docid_pointer_w = start;
  doc_id_old = 0;
}

-- What finish_runs makes of the runs: where they stand, and how many.
finish_runs-At :
    (ops : ScoreOps) (index : Index ops) (start pointer : ℕ) (runs : List (ℕ × ℕ))
    (state : RunState ops) (mid : List ℕ)
    → Stands ops index.segment_block_buffer start runs state mid
    → (done : Compressed ops) × (finish_runs ops start pointer (with_buffer ops index mid) state
        ≡ ok done)
      × At done.index.segment_block_buffer start (to_le_bytes 2 (length runs))
      × At done.index.segment_block_buffer (start + 2) (run_bytes runs)
      × (length runs < 65536)
      × (done.size_compressed_docid_key ≡ 2 + 4 * length runs)
      × (done.roaring_offset ≡ start + done.size_compressed_docid_key)
unfolding finish_runs write_u16
finish_runs-At ops index start pointer runs state mid s = (
  done,
  ground (arith, s.bytes, wrote, few, put),
  placed,
  kept,
  omega (arith, size, s.few),
  omega (arith, size, s.pointer),
  omega (arith, size, s.pointer),
)
  where
    buffer : List ℕ
    buffer = index.segment_block_buffer

    size : length runs ≡ length s.written + 1
    size = omega (
      arith,
      length-append s.written ((state.run_start, state.run_length) ∷ []),
      ap length s.all_runs,
    )

    few : state.runs_count + 1 < 65536
    few = omega (arith, s.counted, s.few)

    final : List ℕ
    final = overwrite index.segment_block_buffer (start + 2) (run_bytes runs)

    wrote :
        write_run ops
          (overwrite index.segment_block_buffer (start + 2) (run_bytes s.written))
          start
          state
        ≡ ok (overwrite index.segment_block_buffer (start + 2) (run_bytes runs))
    wrote = rw s.all_runs at (
        write_run-ok ops index.segment_block_buffer start s.written state s.counted
          (omega (arith, s.counted, s.few)) s.room)

    room : start + 2 + length (run_bytes runs) ≤ length index.segment_block_buffer
    room = omega (arith, s.room, size, length-run_bytes runs)

    inside :
        start + length (to_le_bytes 2 (state.runs_count + 1))
        ≤ length (overwrite index.segment_block_buffer (start + 2) (run_bytes runs))
    inside = omega (
      arith,
      s.room,
      length-to_le_bytes 2 (state.runs_count + 1),
      length-overwrite index.segment_block_buffer (start + 2) (run_bytes runs),
    )

    counted : List ℕ
    counted =
        overwrite (overwrite index.segment_block_buffer (start + 2) (run_bytes runs)) start
          (to_le_bytes 2 (state.runs_count + 1))

    put :
        write_slice
          (overwrite index.segment_block_buffer (start + 2) (run_bytes runs))
          start
          (to_le_bytes 2 (state.runs_count + 1))
        ≡ ok (
            overwrite
              (overwrite index.segment_block_buffer (start + 2) (run_bytes runs))
              start
              (to_le_bytes 2 (state.runs_count + 1)))
    put = write_slice-ok final start (to_le_bytes 2 (state.runs_count + 1)) inside

    done : Compressed ops
    done = record {
      index = with_buffer ops index (
          overwrite (overwrite index.segment_block_buffer (start + 2) (run_bytes runs)) start
            (to_le_bytes 2 (state.runs_count + 1)));
      roaring_offset = state.key_docid_pointer_w + 4 + 2;
      size_compressed_docid_key = state.key_docid_pointer_w + 4 + 2 - start;
      compression_type_pointer = pointer;
      runs_count = state.runs_count + 1;
    }

    placed : At counted start (to_le_bytes 2 (length runs))
    placed =
        let e : state.runs_count + 1 ≡ length runs = omega (arith, s.counted, size) in
        rw (sym e) (At-overwrite final start (to_le_bytes 2 (state.runs_count + 1)) inside)

    kept : At counted (start + 2) (run_bytes runs)
    kept =
        At-overwrite_frame final start (to_le_bytes 2 (state.runs_count + 1)) (start + 2)
          (run_bytes runs) (inr (omega (arith, length-to_le_bytes 2 (state.runs_count + 1))))
          (At-overwrite index.segment_block_buffer (start + 2) (run_bytes runs) room)

rle_loop-first :
    (ops : ScoreOps) (start : ℕ) (next_posting : NextPosting ops)
    (source : Source ops start next_posting) (threshold turns doc_id : ℕ) (docs : List ℕ)
    (index : Index ops) (cursor : Cursor)
    → turns ≡ length (doc_id ∷ docs)
    → source.Left (doc_id ∷ docs) 0 index cursor
    → Ascend doc_id docs
    → length docs < 32768
    → start + 6 + 4 * length docs ≤ length index.segment_block_buffer
    → length (runs_of doc_id 0 doc_id docs) ≤ threshold
    → (index' : Index ops) × (state : RunState ops) × (rle_loop ops next_posting turns 0 start
          threshold index cursor
          (first_state ops start)
        ≡ ok (index', some state))
      × Stands ops index'.segment_block_buffer start
          (runs_of doc_id 0 doc_id docs)
          state
          index'.segment_block_buffer
unfolding rle_loop add_to_runs run_bytes
rle_loop-first ops start next_posting source threshold turns doc_id docs index cursor count left up
      few room fit =
    let next = source.yields doc_id docs 0 index cursor left in
    let below : leb threshold 0 ≡ false = ground (arith, fit, some_runs doc_id 0 doc_id docs) in
    let rest =
      rle_loop-Stands ops start next_posting source threshold docs 0 [] next.0 next.1
        (record (first_state ops start) { run_start = doc_id; doc_id_old = doc_id }) next.3 tt up
        (omega arith) refl (omega arith) (omega arith) (omega (arith, next.4, room))
        (omega (arith, fit)) in
    (
      rest.0,
      rest.1,
      ap (λ n. rle_loop ops next_posting n 0 start threshold index cursor (first_state ops start))
            count
          ∙ rw (next.2, below) rest.2,
      rest.3,
    )

-- Where the postings come from a source that yields as many documents as the key has, leaves the
-- buffer behind the pointers alone and does not depend on what is written there, and the documents
-- ascend as u16, are at most 32768 and form at most as many runs as the threshold, and the segment
-- buffer has room for a count and a run each: compress_postinglist_rle returns, and scan_rle reads
-- the documents back; the size is that of the count and the runs, and the offset moves by it.
pub scan_rle-compress_postinglist_rle :
    (ops : ScoreOps) (next_posting : NextPosting ops) (index : Index ops)
    (roaring_offset threshold key_body_offset doc_id : ℕ) (docs : List ℕ)
    (source : Source ops (docid_start ops index roaring_offset) next_posting)
    → source.Left
        (doc_id ∷ docs)
        0
        (with_type ops index (type_pointer ops key_body_offset CompressionType.rle))
        (first_cursor ops index roaring_offset)
    → index.plo.posting_count ≡ length (doc_id ∷ docs)
    → Ascend doc_id docs
    → length docs < 32768
    → docid_start ops index roaring_offset + 6 + 4 * length docs ≤ length index.segment_block_buffer
    → length (runs_of doc_id 0 doc_id docs) ≤ threshold
    → (done : Compressed ops) × (compress_postinglist_rle ops next_posting index roaring_offset
          threshold key_body_offset
        ≡ ok done)
      × (scan_rle done.index.segment_block_buffer (docid_start ops index roaring_offset)
          ≡ ok (doc_id ∷ docs))
      × (done.size_compressed_docid_key ≡ 2 + 4 * length (runs_of doc_id 0 doc_id docs))
      × (done.roaring_offset
          ≡ docid_start ops index roaring_offset + done.size_compressed_docid_key)
unfolding compress_postinglist_rle scan_rle read_u16
scan_rle-compress_postinglist_rle ops next_posting index roaring_offset threshold key_body_offset
      doc_id docs source left count up few room fit =
    let start : ℕ = docid_start ops index roaring_offset in
    let pointer : ℕ = type_pointer ops key_body_offset CompressionType.rle in
    let looped =
      rle_loop-first ops start next_posting source threshold index.plo.posting_count doc_id docs
        (with_type ops index pointer) (first_cursor ops index roaring_offset) count left up few room
        fit in
    let end =
      finish_runs-At ops looped.0 start pointer (runs_of doc_id 0 doc_id docs) looped.1
        looped.0.segment_block_buffer looped.3 in
    (
      end.0,
      rw looped.2 end.1,
      ground (
        arith,
        read_le-At end.0.index.segment_block_buffer start 1 (length (runs_of doc_id 0 doc_id docs))
            end.2 end.4,
        scan_runs-At (runs_of doc_id 0 doc_id docs) end.0.index.segment_block_buffer (start + 2)
            (runs_of-Fit doc_id 0 doc_id docs (omega arith) up) end.3,
        read_back doc_id docs,
      ),
      end.5,
      end.6,
    )
