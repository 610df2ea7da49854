-- ===== src/Positions/RoundTrip.antt =====
-- What compress_positions writes, the decoders read back.
use seek_storm.Base.{
  ℕ, ◌+◌, ◌*◌, ◌≤◌, ◌<◌, List, false, ok, ◌≡◌, refl, length, arith, overwrite, At, ◌⊎◌,
  get_elem?-overwrite_frame, At-overwrite, get_elem?,
}
use seek_storm.Positions.{
  compress_positions, NonUniquePostingListObjectQuery, get_next_position_singlefield,
  get_next_position_multifield,
}
use seek_storm.Positions.Encode.{AllU16, all_bytes, length-all_bytes, compress_positions-ok}
use seek_storm.Positions.Decode.{read_each, read_each-At, singlefield-Shared, multifield-Shared}

-- A query object that stands at `pointer` in the bytes, its positions not embedded.
abbrev pub reading : NonUniquePostingListObjectQuery → List ℕ → ℕ → NonUniquePostingListObjectQuery
reading plo bytes pointer = record plo {
  byte_array = bytes;
  positions_pointer = pointer;
  is_embedded = false;
}

-- Where every delta is a u16 and three bytes for each are left in the buffer, compress_positions
-- returns, it moves the pointer by at most three bytes for each, changes no byte outside those it
-- passed, and as many calls of either decoder from the old pointer on return the deltas and end at
-- the new pointer.
pub get_next_position-compress_positions :
    (plo : NonUniquePostingListObjectQuery) (positions bytes : List ℕ) (p : ℕ)
    → AllU16 positions
    → p + 3 * length positions ≤ length bytes
    → (result : List ℕ) × (q : ℕ) × (compress_positions positions bytes p ≡ ok (result, q))
      × (q ≤ p + 3 * length positions)
      × ((i : ℕ) → (i < p) ⊎ (q ≤ i) → get_elem? result i ≡ get_elem? bytes i)
      × (read_each get_next_position_singlefield (length positions) (reading plo result p)
          ≡ ok (positions, reading plo result q))
      × (read_each get_next_position_multifield (length positions) (reading plo result p)
          ≡ ok (positions, reading plo result q))
get_next_position-compress_positions plo positions bytes p fits room = (
  overwrite bytes p (all_bytes positions),
  p + length (all_bytes positions),
  compress_positions-ok positions bytes p fits small,
  omega (arith, length-all_bytes positions),
  λ i h. get_elem?-overwrite_frame bytes p (all_bytes positions) i h,
  read_each-At get_next_position_singlefield singlefield-Shared source positions refl fits placed,
  read_each-At get_next_position_multifield multifield-Shared source positions refl fits placed,
)
  where
    small : p + length (all_bytes positions) ≤ length bytes
    small = omega (arith, length-all_bytes positions)

    source : NonUniquePostingListObjectQuery
    source = reading plo (overwrite bytes p (all_bytes positions)) p

    placed : At (overwrite bytes p (all_bytes positions)) p (all_bytes positions)
    placed = At-overwrite bytes p (all_bytes positions) small
