-- ===== src/Positions/Delta.antt =====
-- src/seekstorm/index_posting.rs and src/seekstorm/commit.rs: the positions of a term in a field as
-- distances. The first is kept, and each other is one less than its distance from the one before. A
-- posting that is read back at the restore of the last level gets its positions from them. An
-- overflow of u16 panics.
use seek_storm.Base.{
  ℕ, ◌+◌, ◌-◌, ◌<◌, List, [], ◌∷◌, Run, ok, panic, ◌>>=◌, leb, ltb, if◌then◌else◌, ◌≡◌, refl, arith,
}
use seek_storm.Positions.Encode.{AllU16}

-- `*pos - previous_position - 1`
unfoldable pub distances : ℕ → List ℕ → Run (List ℕ)
distances previous_position [] = ok []
distances previous_position (pos ∷ positions) = do
  distance ← if leb (previous_position + 1) pos then ok (pos - previous_position - 1) else panic
  rest ← distances pos positions
  ok (distance ∷ rest)

unfoldable pub position_deltas : List ℕ → Run (List ℕ)
position_deltas [] = ok []
position_deltas (pos ∷ positions) = do rest ← distances pos positions; ok (pos ∷ rest)

-- `one` is 0 at the first position, and 1 from then on.
unfoldable pub restore_positions : ℕ → ℕ → List ℕ → Run (List ℕ)
restore_positions prev_pos one [] = ok []
restore_positions prev_pos one (delta ∷ deltas) = do
  pos ← if ltb (prev_pos + delta + one) 65536 then ok (prev_pos + delta + one) else panic
  rest ← restore_positions pos 1 deltas
  ok (pos ∷ rest)

-- The positions ascend strictly from `previous` on.
abbrev pub Ascending : ℕ → List ℕ → Type 0
Ascending previous [] = Unit
Ascending previous (pos ∷ positions) = (previous < pos) × Ascending pos positions

restore_positions-distances :
    (previous : ℕ) (positions : List ℕ)
    → Ascending previous positions
    → AllU16 positions
    → (deltas : List ℕ) × (distances previous positions ≡ ok deltas)
      × AllU16 deltas
      × (restore_positions previous 1 deltas ≡ ok positions)
unfolding distances restore_positions
restore_positions-distances previous [] up fit = ([], refl, tt, refl)
restore_positions-distances previous (pos ∷ positions) up fit =
    let rest = restore_positions-distances pos positions up.1 fit.1 in
    let back : previous + (pos - previous - 1) + 1 ≡ pos = omega (arith, up.0) in
    (
      (pos - previous - 1) ∷ rest.0,
      ground (arith, up.0, rest.1),
      (omega (arith, fit.0), rest.2),
      ground (arith, fit.0, back, rest.3),
    )

-- Where the positions are u16 and ascend strictly, position_deltas returns, the deltas are u16, and
-- restore_positions, as it is called, returns the positions.
pub restore_positions-position_deltas :
    (pos : ℕ) (positions : List ℕ)
    → Ascending pos positions
    → AllU16 (pos ∷ positions)
    → (deltas : List ℕ) × (position_deltas (pos ∷ positions) ≡ ok deltas)
      × AllU16 deltas
      × (restore_positions 0 0 deltas ≡ ok (pos ∷ positions))
unfolding position_deltas restore_positions
restore_positions-position_deltas pos positions up fit =
    let rest = restore_positions-distances pos positions up fit.1 in
    let start : 0 + pos + 0 ≡ pos = omega arith in
    (pos ∷ rest.0, ground (arith, rest.1), (fit.0, rest.2), ground (arith, fit.0, start, rest.3))
