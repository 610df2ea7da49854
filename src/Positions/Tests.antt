-- ===== src/Positions/Tests.antt =====
-- The round trips of positions on concrete lists.
use seek_storm.Base.{
  ℕ, ◌+◌, ◌*◌, ◌≤◌, ◌<◌, List, [], ◌∷◌, false, ok, ◌≡◌, arith, replicate, get_elem?, ◌⊎◌, refl,
}
use seek_storm.Positions.{
  compress_position, compress_positions, NonUniquePostingListObjectQuery,
  get_next_position_singlefield, get_next_position_multifield,
}
use seek_storm.Positions.Encode.{AllU16}
use seek_storm.Positions.Delta.{
  distances, position_deltas, restore_positions, restore_positions-position_deltas,
}
use seek_storm.Positions.Decode.{read_each}
use seek_storm.Positions.RoundTrip.{reading, get_next_position-compress_positions}

abbrev a_query : NonUniquePostingListObjectQuery
a_query = record {
  p_pos = 0;
  positions_pointer = 0;
  byte_array = [];
  is_embedded = false;
  embedded_positions = [];
  p_field = 0;
  field_vec = [];
}

abbrev three_deltas : List ℕ
three_deltas = 5 ∷ 300 ∷ 65535 ∷ []

abbrev room : List ℕ
room = replicate 12 0

get_next_position-compress_positions_example :
    (result : List ℕ) × (q : ℕ) × (compress_positions three_deltas room 2 ≡ ok (result, q))
    × (q ≤ 2 + 3 * 3)
    × ((i : ℕ) → (i < 2) ⊎ (q ≤ i) → get_elem? result i ≡ get_elem? room i)
    × (read_each get_next_position_singlefield 3 (reading a_query result 2)
        ≡ ok (three_deltas, reading a_query result q))
    × (read_each get_next_position_multifield 3 (reading a_query result 2)
        ≡ ok (three_deltas, reading a_query result q))
get_next_position-compress_positions_example =
    get_next_position-compress_positions a_query three_deltas room 2
      (omega arith, (omega arith, (omega arith, tt))) (omega arith)

compress_positions_bytes :
    compress_positions three_deltas room 2
    ≡ ok (0 ∷ 0 ∷ 133 ∷ 2 ∷ 172 ∷ 7 ∷ 127 ∷ 255 ∷ 0 ∷ 0 ∷ 0 ∷ 0 ∷ [], 8)
unfolding compress_positions compress_position
compress_positions_bytes = refl

restore_positions-position_deltas_example :
    (deltas : List ℕ) × (position_deltas (4 ∷ 5 ∷ 9 ∷ []) ≡ ok deltas)
    × AllU16 deltas
    × (restore_positions 0 0 deltas ≡ ok (4 ∷ 5 ∷ 9 ∷ []))
restore_positions-position_deltas_example =
    restore_positions-position_deltas 4 (5 ∷ 9 ∷ []) (omega arith, (omega arith, tt))
      (omega arith, (omega arith, (omega arith, tt)))

position_deltas_run : position_deltas (4 ∷ 5 ∷ 9 ∷ []) ≡ ok (4 ∷ 0 ∷ 3 ∷ [])
unfolding position_deltas distances
position_deltas_run = refl
