-- ===== src/Postings/RunLoop.antt =====
-- rle_loop over any source of documents that leaves alone what stands behind the pointers.
use mathlib.Core.List.{append_assoc}
use seek_storm.Base.{
  ℕ, suc, ◌+◌, ◌*◌, ◌≤◌, ◌<◌, List, [], ◌∷◌, ◌++◌, some, leb, false, ok, length, arith, ◌==◌, ◌≡◌,
  refl, sym, Bool-cases, inl, inr, overwrite, length-append, length-overwrite, get_elem?, At,
  At-overwrite, At-agree, overwrite-same,
}
use seek_storm.Postings.{ScoreOps, Index}
use seek_storm.Postings.Iterator.{Cursor}
use seek_storm.Postings.Compress.{RunState, NextPosting, rle_loop, with_buffer}
use seek_storm.Postings.Runs.{
  runs_of, Ascend, Ascend-bound, run_bytes, length-run_bytes, Stands, same_run, next_run,
}

-- What the loop relies on: where `Left docs p` holds, the postings from `p` on are of the documents
-- `docs`; each is returned in turn, changes no byte of the buffer from `start` on and not its length;
-- and what is written behind `start` changes nothing of that.
pub record Source (ops : ScoreOps) (start : ℕ) (next_posting : NextPosting ops) : Type 1 where
  pub Left : List ℕ → ℕ → Index ops → Cursor → Type 0
  pub yields :
      (doc_id : ℕ) (docs : List ℕ) (p : ℕ) (index : Index ops) (cursor : Cursor)
      → Left (doc_id ∷ docs) p index cursor
      → (index' : Index ops) × (cursor' : Cursor) × (next_posting index cursor p
          ≡ ok (index', cursor', doc_id))
        × Left docs (suc p) index' cursor'
        × (length index'.segment_block_buffer ≡ length index.segment_block_buffer)
        × ((i : ℕ)
            → start ≤ i
            → get_elem? index'.segment_block_buffer i ≡ get_elem? index.segment_block_buffer i)
  pub kept :
      (docs : List ℕ) (p : ℕ) (index : Index ops) (cursor : Cursor) (bytes : List ℕ)
      → Left docs p index cursor
      → Left docs p
          (with_buffer ops index (overwrite index.segment_block_buffer (start + 2) bytes))
          cursor

pub some_runs : (first len old : ℕ) (docs : List ℕ) → 0 < length (runs_of first len old docs)
unfolding runs_of
some_runs first len old [] = omega arith
some_runs first len old (doc_id ∷ docs) = ground (arith, some_runs first (len + 1) doc_id docs)

module _ (ops : ScoreOps) (start : ℕ) (next_posting : NextPosting ops)
    (source : Source ops start next_posting) (threshold : ℕ) where
  open source use {Left, yields, kept}

  pub rle_loop-Stands :
      (docs : List ℕ) (p : ℕ) (written : List (ℕ × ℕ)) (index : Index ops) (cursor : Cursor)
      (runs : RunState ops)
      → Left docs (suc p) index cursor
      → At index.segment_block_buffer (start + 2) (run_bytes written)
      → Ascend runs.doc_id_old docs
      → runs.run_start + runs.run_length ≡ runs.doc_id_old
      → runs.runs_count ≡ length written
      → runs.key_docid_pointer_w ≡ start + 4 * length written
      → length written + length docs < 32768
      → start + 6 + 4 * (length written + length docs) ≤ length index.segment_block_buffer
      → length written + length (runs_of runs.run_start runs.run_length runs.doc_id_old docs)
        ≤ threshold
      → (index' : Index ops) × (state : RunState ops) × (rle_loop ops next_posting
            (length docs)
            (suc p)
            start
            threshold
            index
            cursor
            runs
          ≡ ok (index', some state))
        × Stands ops index'.segment_block_buffer start
            (written ++ runs_of runs.run_start runs.run_length runs.doc_id_old docs)
            state
            index'.segment_block_buffer
  unfolding rle_loop runs_of
  rle_loop-Stands [] p written index cursor runs left placed up line count pointer few room fit = (
    index,
    runs,
    refl,
    record {
      written = written;
      bytes =
          sym (overwrite-same index.segment_block_buffer (start + 2) (run_bytes written) placed);
      counted = count;
      all_runs = refl;
      pointer = pointer;
      few = omega arith;
      room = omega arith;
    },
  )
  rle_loop-Stands (doc_id ∷ docs) p written index cursor runs left placed up line count pointer few
        room fit =
      let bound = Ascend-bound doc_id docs up.1 in
      let next = yields doc_id docs (suc p) index cursor left in
      let buffer : List ℕ = next.0.segment_block_buffer in
      let there : At buffer (start + 2) (run_bytes written) =
        At-agree index.segment_block_buffer buffer (start + 2) (run_bytes written)
          (λ i h. next.5 i (omega arith)) placed in
      let same = overwrite-same buffer (start + 2) (run_bytes written) there in
      elim (Bool-cases (runs.doc_id_old + 1 == doc_id)) [
        | inl e ↦
            let one = same_run ops buffer start buffer p doc_id runs e bound (omega arith) in
            let fits = rw e at fit in
            let below : leb threshold runs.runs_count ≡ false =
              ground
                (arith, count, fits, some_runs runs.run_start (runs.run_length + 1) doc_id docs) in
            let rest =
              rle_loop-Stands docs (suc p) written next.0 next.1
                (record runs { run_length = runs.run_length + 1; doc_id_old = doc_id }) next.3 there
                up.1 (ground arith) count pointer (omega arith) (omega (arith, next.4)) fits in
            rw e (rest.0, rest.1, rw (next.2, one, below) rest.2, rest.3)
        | inr e ↦
            let one = rw same at (
              next_run ops buffer start written p doc_id runs e up.0 bound count (omega arith)
                (omega (arith, next.4))) in
            let fits = rw e at fit in
            let more : List (ℕ × ℕ) = written ++ (runs.run_start, runs.run_length) ∷ [] in
            let longer = length-append written ((runs.run_start, runs.run_length) ∷ []) in
            let below : leb threshold (runs.runs_count + 1) ≡ false =
              ground (arith, count, fits, some_runs doc_id 0 doc_id docs) in
            let rest =
              rle_loop-Stands docs (suc p) more
                (with_buffer ops next.0 (overwrite buffer (start + 2) (run_bytes more))) next.1
                (record runs {
                  run_start = doc_id;
                  run_length = 0;
                  runs_count = runs.runs_count + 1;
                  key_docid_pointer_w = runs.key_docid_pointer_w + 4;
                  doc_id_old = doc_id;
                })
                (kept docs (suc (suc p)) next.0 next.1 (run_bytes more) next.3)
                (At-overwrite buffer (start + 2) (run_bytes more)
                  (omega (arith, length-run_bytes more, longer, next.4, room)))
                up.1 (omega arith) (omega arith) (omega arith) (omega arith)
                (omega (
                  arith,
                  longer,
                  next.4,
                  room,
                  length-overwrite buffer (start + 2) (run_bytes more),
                ))
                (omega (arith, longer, fits)) in
            rw
              (
                e,
                ← append_assoc written ((runs.run_start, runs.run_length) ∷ [])
                    (runs_of doc_id 0 doc_id docs),
              )
              (rest.0, rest.1, rw (next.2, one, below) rest.2, rest.3)
      ]
