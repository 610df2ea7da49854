-- ===== src/Positions.antt =====
-- src/seekstorm/compress_postinglist.rs and src/seekstorm/add_result.rs: positions as a sequence of
-- one to three bytes each. Positions are u16, so a shift by 7 or 13 and a cast to u8 keep the lowest
-- eight bits; bytes shifted up by at most 13 stay below 2 ^ 32. `p_pos` is kept as a number: the
-- decoder casts it to usize.
pub mod Encode
pub mod Decode
pub mod Delta
pub mod RoundTrip
mod Tests
use seek_storm.Base.{
  ℕ, ◌+◌, ◌-◌, ◌*◌, ◌/◌, ◌%◌, ◌^◌, List, [], ◌∷◌, Bool, true, false, Run, ok, ◌>>=◌, load, store,
  ltb, ◌==◌, if◌then◌else◌, bit_and, bit_or, not,
}

abbrev pub stop_bit : ℕ
stop_bit = 0x80

-- One turn of the loop of `compress_positions`.
unfoldable pub compress_position : ℕ → List ℕ → ℕ → Run (List ℕ × ℕ)
compress_position delta positions_compressed pointer =
    if ltb delta 128
    then (do
      bytes ← store positions_compressed pointer (bit_or (delta % 256) stop_bit)
      ok (bytes, pointer + 1))
    else if ltb delta 16384
    then (do
      bytes1 ← store positions_compressed pointer (bit_and (delta / 2 ^ 7 % 256) 0x7f)
      bytes2 ← store bytes1 (pointer + 1) (bit_or (bit_and delta 0x7f % 256) stop_bit)
      ok (bytes2, pointer + 1 + 1))
    else (do
      bytes1 ← store positions_compressed pointer (bit_and (delta / 2 ^ 13 % 256) 0x7f)
      bytes2 ← store bytes1 (pointer + 1) (bit_and (delta / 2 ^ 7 % 256) 0x7f)
      bytes3 ← store bytes2 (pointer + 1 + 1) (bit_or (bit_and delta 0x7f % 256) stop_bit)
      ok (bytes3, pointer + 1 + 1 + 1))

unfoldable pub compress_positions : List ℕ → List ℕ → ℕ → Run (List ℕ × ℕ)
compress_positions [] positions_compressed pointer = ok (positions_compressed, pointer)
compress_positions (delta ∷ positions) positions_compressed pointer = do
  written ← compress_position delta positions_compressed pointer
  compress_positions positions written.0 written.1

-- The fields of the query object that the decoders read or change.
pub record NonUniquePostingListObjectQuery : Type 0 where
  pub p_pos : ℕ
  pub positions_pointer : ℕ
  pub byte_array : List ℕ
  pub is_embedded : Bool
  pub embedded_positions : List ℕ
  pub p_field : ℕ
  pub field_vec : List (ℕ × ℕ)

abbrev pub advanced : NonUniquePostingListObjectQuery → ℕ → NonUniquePostingListObjectQuery
advanced plo n = record plo { positions_pointer = plo.positions_pointer + n }

-- The decoding that both decoders share, where the positions are not embedded.
unfoldable pub next_position :
    NonUniquePostingListObjectQuery → Run (ℕ × NonUniquePostingListObjectQuery)
next_position plo = do
  byte0 ← load plo.byte_array plo.positions_pointer
  (if not (bit_and byte0 stop_bit == 0) then ok (bit_and byte0 0x7f, advanced plo 1) else (do
    byte1 ← load plo.byte_array (plo.positions_pointer + 1)
    (if not (bit_and byte1 stop_bit == 0)
        then ok (bit_or (byte0 * 2 ^ 7) (bit_and byte1 0x7f), advanced plo 2)
        else (do
          byte2 ← load plo.byte_array (plo.positions_pointer + 2)
          ok (
            bit_or (bit_or (byte0 * 2 ^ 13) (byte1 * 2 ^ 7)) (bit_and byte2 0x7f),
            advanced plo 3,
          )))))

unfoldable pub get_next_position_singlefield :
    NonUniquePostingListObjectQuery → Run (ℕ × NonUniquePostingListObjectQuery)
get_next_position_singlefield plo =
    if plo.is_embedded
    then (do position ← load plo.embedded_positions plo.p_pos; ok (position, plo))
    else next_position plo

unfoldable pub get_next_position_multifield :
    NonUniquePostingListObjectQuery → Run (ℕ × NonUniquePostingListObjectQuery)
get_next_position_multifield plo =
    if plo.is_embedded
    then (do
      start ←
          if plo.p_field == 0
          then ok 0
          else (do field ← load plo.field_vec (plo.p_field - 1); ok field.1)
      position ← load plo.embedded_positions (start + plo.p_pos)
      ok (position, plo))
    else next_position plo
