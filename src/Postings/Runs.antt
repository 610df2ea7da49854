-- ===== src/Postings/Runs.antt =====
-- src/seekstorm/compress_postinglist.rs: the documents of a posting list as runs, and what a turn of
-- the loop of compress_postinglist_rle writes of them.
use seek_storm.Base.{
  ℕ, suc, ◌+◌, ◌*◌, ◌%◌, ◌≤◌, ◌<◌, List, [], ◌∷◌, ◌++◌, true, false, ok, length, arith, ◌==◌,
  if◌then◌else◌, ◌≡◌, refl, sym, ◌∙◌, ap, overwrite, length-append,
}
use mathlib.Core.List.{append_assoc, append-nil}
use seek_storm.Utils.{to_le_bytes, write_u16}
use seek_storm.Utils.Laws.{length-to_le_bytes}
use seek_storm.Postings.RoundTrip.{write_next}
use seek_storm.Postings.{ScoreOps}
use seek_storm.Postings.Compress.{RunState, write_run, add_to_runs}

-- The runs of the documents, the first of them prolonging the run of `length + 1` documents from
-- `first` to `old`.
unfoldable pub runs_of : ℕ → ℕ → ℕ → List ℕ → List (ℕ × ℕ)
runs_of first len old [] = (first, len) ∷ []
runs_of first len old (doc_id ∷ docs) =
    if old + 1 == doc_id
    then runs_of first (len + 1) doc_id docs
    else ((first, len) ∷ runs_of doc_id 0 doc_id docs)

-- The documents ascend from `old` on and are u16.
abbrev pub Ascend : ℕ → List ℕ → Type 0
Ascend old [] = old < 65536
Ascend old (doc_id ∷ docs) = (old < doc_id) × Ascend doc_id docs

unfoldable pub run_bytes : List (ℕ × ℕ) → List ℕ
run_bytes [] = []
run_bytes (run ∷ runs) = to_le_bytes 2 run.0 ++ (to_le_bytes 2 run.1 ++ run_bytes runs)

pub length-run_bytes : (runs : List (ℕ × ℕ)) → length (run_bytes runs) ≡ 4 * length runs
unfolding run_bytes
length-run_bytes [] = refl
length-run_bytes (run ∷ runs) = omega (
  arith,
  length-append (to_le_bytes 2 run.0) (to_le_bytes 2 run.1 ++ run_bytes runs),
  length-append (to_le_bytes 2 run.1) (run_bytes runs),
  length-to_le_bytes 2 run.0,
  length-to_le_bytes 2 run.1,
  length-run_bytes runs,
)

pub run_bytes-append :
    (runs more : List (ℕ × ℕ)) → run_bytes (runs ++ more) ≡ run_bytes runs ++ run_bytes more
unfolding run_bytes to_le_bytes
run_bytes-append [] more = refl
run_bytes-append (run ∷ runs) more =
    ap (λ bs. to_le_bytes 2 run.0 ++ (to_le_bytes 2 run.1 ++ bs)) (run_bytes-append runs more)
    ∙ sym (
        append_assoc (to_le_bytes 2 run.0 ++ to_le_bytes 2 run.1) (run_bytes runs) (run_bytes more))

run_bytes-snoc :
    (runs : List (ℕ × ℕ)) (first len : ℕ)
    → run_bytes (runs ++ (first, len) ∷ [])
      ≡ (run_bytes runs ++ to_le_bytes 2 first) ++ to_le_bytes 2 len
unfolding run_bytes
run_bytes-snoc runs first len =
    run_bytes-append runs ((first, len) ∷ [])
    ∙ ap (λ bs. run_bytes runs ++ (to_le_bytes 2 first ++ bs)) (append-nil (to_le_bytes 2 len))
    ∙ sym (append_assoc (run_bytes runs) (to_le_bytes 2 first) (to_le_bytes 2 len))

pub Ascend-bound : (old : ℕ) (docs : List ℕ) → Ascend old docs → old < 65536
Ascend-bound old [] up = up
Ascend-bound old (doc_id ∷ docs) up = omega (arith, up.0, Ascend-bound doc_id docs up.1)

module _ (ops : ScoreOps) (buffer : List ℕ) (start : ℕ) where
  -- The run behind those already written.
  pub write_run-ok :
      (written : List (ℕ × ℕ)) (runs : RunState ops)
      → runs.runs_count ≡ length written
      → runs.runs_count < 32768
      → start + 6 + 4 * length written ≤ length buffer
      → write_run ops (overwrite buffer (start + 2) (run_bytes written)) start runs
        ≡ ok (
            overwrite buffer
              (start + 2)
              (run_bytes (written ++ (runs.run_start, runs.run_length) ∷ [])))
  unfolding write_run write_u16
  write_run-ok written runs e few room = ground (
    arith,
    run_bytes-snoc written runs.run_start runs.run_length,
    length-run_bytes written,
    length-append (run_bytes written) (to_le_bytes 2 runs.run_start),
    length-to_le_bytes 2 runs.run_start,
    write_next 2 runs.run_start buffer (start + 2) (start + (runs.runs_count * 2 % 65536 + 1) * 2)
        (run_bytes written),
    write_next 2 runs.run_length buffer (start + 2) (start + (runs.runs_count * 2 % 65536 + 2) * 2)
        (run_bytes written ++ to_le_bytes 2 runs.run_start),
  )

  -- The two ways in which a further document changes the runs.
  pub same_run :
      (bytes : List ℕ) (p doc_id : ℕ) (runs : RunState ops)
      → (runs.doc_id_old + 1 == doc_id) ≡ true
      → doc_id < 65536
      → runs.run_length ≤ runs.doc_id_old
      → add_to_runs ops bytes start (suc p) doc_id runs
        ≡ ok (bytes, record runs { run_length = runs.run_length + 1 })
  unfolding add_to_runs
  same_run bytes p doc_id runs e h le = ground arith

  pub next_run :
      (written : List (ℕ × ℕ)) (p doc_id : ℕ) (runs : RunState ops)
      → (runs.doc_id_old + 1 == doc_id) ≡ false
      → runs.doc_id_old < doc_id
      → doc_id < 65536
      → runs.runs_count ≡ length written
      → runs.runs_count < 32768
      → start + 6 + 4 * length written ≤ length buffer
      → add_to_runs ops (overwrite buffer (start + 2) (run_bytes written)) start (suc p) doc_id runs
        ≡ ok (
          overwrite buffer
              (start + 2)
              (run_bytes (written ++ (runs.run_start, runs.run_length) ∷ [])),
          record runs {
            run_start = doc_id;
            run_length = 0;
            runs_count = runs.runs_count + 1;
            key_docid_pointer_w = runs.key_docid_pointer_w + 4;
          },
        )
  unfolding add_to_runs
  next_run written p doc_id runs e up h count few room =
      ground (arith, write_run-ok written runs count few room)

  -- How the local variables stand once `runs` are those of the documents so far.
  pub record Stands (runs : List (ℕ × ℕ)) (state : RunState ops) (mid : List ℕ) : Type 0 where
    pub written : List (ℕ × ℕ)
    pub bytes : mid ≡ overwrite buffer (start + 2) (run_bytes written)
    pub counted : state.runs_count ≡ length written
    pub all_runs : written ++ (state.run_start, state.run_length) ∷ [] ≡ runs
    pub pointer : state.key_docid_pointer_w ≡ start + 4 * length written
    pub few : length written < 32768
    pub room : start + 6 + 4 * length written ≤ length buffer
