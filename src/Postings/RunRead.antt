-- ===== src/Postings/RunRead.antt =====
-- Runs are read as the documents that they stand for.
use seek_storm.Base.{
  ℕ, zero, suc, ◌+◌, ◌≤◌, ◌<◌, List, [], ◌∷◌, ◌++◌, ok, length, arith, ◌==◌, ◌≡◌, refl, ◌∙◌, ap,
  Bool-cases, inl, inr, At, At-append,
}
use mathlib.Core.List.{append_assoc}
use seek_storm.Utils.{to_le_bytes, read_u16}
use seek_storm.Utils.Laws.{length-to_le_bytes, read_le-At}
use seek_storm.Postings.Scan.{scan_run, scan_runs}
use seek_storm.Postings.Runs.{runs_of, Ascend, run_bytes, Ascend-bound}

-- `count` documents from `first` on.
unfoldable pub from : ℕ → ℕ → List ℕ
from first zero = []
from first (suc count) = first ∷ from (first + 1) count

unfoldable pub documents : List (ℕ × ℕ) → List ℕ
documents [] = []
documents (run ∷ runs) = from run.0 (suc run.1) ++ documents runs

-- Each run ends at a u16.
abbrev pub Fit : List (ℕ × ℕ) → Type 0
Fit [] = Unit
Fit (run ∷ runs) = (run.0 + run.1 < 65536) × Fit runs

from-snoc : (first count : ℕ) → from first (suc count) ≡ from first count ++ (first + count) ∷ []
unfolding from
from-snoc first zero = ap (λ d. d ∷ []) (omega arith)
from-snoc first (suc count) =
    let e : first + 1 + count ≡ first + suc count = omega arith in
    ap (◌∷◌ first) (from-snoc (first + 1) count ∙ ap (λ d. from (first + 1) count ++ d ∷ []) e)

runs_of-documents :
    (first len old : ℕ) (docs : List ℕ)
    → first + len ≡ old
    → documents (runs_of first len old docs) ≡ from first (suc len) ++ docs
unfolding runs_of documents from
runs_of-documents first len old [] e = refl
runs_of-documents first len old (doc_id ∷ docs) e = elim (Bool-cases (old + 1 == doc_id)) [
  | inl same ↦
      let one_more : len + 1 ≡ suc len = omega arith in
      let last : first + suc len ≡ doc_id = ground arith in
      rw same (
        runs_of-documents first (len + 1) doc_id docs (omega arith)
        ∙ ap (λ n. from first (suc n) ++ docs) one_more
        ∙ ap (λ ds. ds ++ docs) (from-snoc first (suc len))
        ∙ append_assoc (from first (suc len)) ((first + suc len) ∷ []) docs
        ∙ ap (λ d. from first (suc len) ++ d ∷ docs) last)
  | inr other ↦
      rw other (
        ap (λ ds. from first (suc len) ++ ds)
          (runs_of-documents doc_id 0 doc_id docs (omega arith)))
]

pub runs_of-Fit :
    (first len old : ℕ) (docs : List ℕ)
    → first + len ≡ old
    → Ascend old docs
    → Fit (runs_of first len old docs)
unfolding runs_of
runs_of-Fit first len old [] e up = (omega (arith, up), tt)
runs_of-Fit first len old (doc_id ∷ docs) e up = elim (Bool-cases (old + 1 == doc_id)) [
  | inl same ↦ rw same (runs_of-Fit first (len + 1) doc_id docs (ground arith) up.1)
  | inr other ↦ rw other (
    omega (arith, up.0, Ascend-bound doc_id docs up.1),
    runs_of-Fit doc_id 0 doc_id docs (omega arith) up.1,
  )
]

scan_run-from :
    (count first j : ℕ)
    → first + j + count ≤ 65536
    → scan_run count first j ≡ ok (from (first + j) count)
unfolding scan_run from
scan_run-from zero first j h = refl
scan_run-from (suc count) first j h =
    let e : first + j + 1 ≡ first + suc j = omega arith in
    ground (arith, ap (λ d. from d count) e, scan_run-from count first (suc j))

plus_nothing : (n : ℕ) → n + 0 ≡ n
plus_nothing n = omega arith

pub scan_runs-At :
    (runs : List (ℕ × ℕ)) (bytes : List ℕ) (p : ℕ)
    → Fit runs
    → At bytes p (run_bytes runs)
    → scan_runs (length runs) bytes p ≡ ok (documents runs)
unfolding scan_runs run_bytes documents read_u16
scan_runs-At [] bytes p fit a = refl
scan_runs-At (run ∷ runs) bytes p fit a =
    let a1 = At-append bytes p (to_le_bytes 2 run.0) _ a in
    let a2 = At-append bytes (p + length (to_le_bytes 2 run.0)) (to_le_bytes 2 run.1) _ a1.1 in
    let rest = rw (length-to_le_bytes 2 run.0, length-to_le_bytes 2 run.1) at a2.1 in
    let second = rw (length-to_le_bytes 2 run.0) at a2.0 in
    let e : p + 2 + 2 ≡ p + 4 = omega arith in
    ground (
      arith,
      read_le-At bytes p 1 run.0 a1.0 (omega arith),
      read_le-At bytes (p + 2) 1 run.1 second (omega arith),
      scan_run-from (suc run.1) run.0 0 (omega arith),
      ap (λ d. from d (suc run.1)) (plus_nothing run.0),
      scan_runs-At runs bytes (p + 4) fit.1 (rw e at rest),
    )

pub read_back :
    (doc_id : ℕ) (docs : List ℕ) → documents (runs_of doc_id 0 doc_id docs) ≡ doc_id ∷ docs
unfolding from
read_back doc_id docs = runs_of-documents doc_id 0 doc_id docs (omega arith)
