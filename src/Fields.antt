-- ===== src/Fields.antt =====
-- src/seekstorm/index_posting.rs and src/seekstorm/add_result.rs: the fields in which a term occurs
-- and how often, as one to three bytes per field. A field is the pair of its id and its count.
-- A branch that only prints an error leaves the buffer and the pointer as they are.
pub mod Embedded
pub mod RoundTrip
mod Tests
use seek_storm.Base.{
  ℕ, zero, suc, ◌+◌, ◌-◌, ◌*◌, ◌/◌, ◌%◌, ◌^◌, List, [], ◌∷◌, ◌++◌, Bool, true, false, Run, ok,
  out_of_fuel, ◌>>=◌, load, store, length, ltb, leb, ◌==◌, if◌then◌else◌, bit_and, bit_or, not,
  ◌&&◌,
}
use seek_storm.Positions.{stop_bit}

abbrev pub field_stop_bit_1 : ℕ
field_stop_bit_1 = 0x20

abbrev pub field_stop_bit_2 : ℕ
field_stop_bit_2 = 0x40

-- `BITS - leading_zeros()` of a number of at most `bits` bits.
unfoldable pub bit_length : ℕ → ℕ → ℕ
bit_length zero value = 0
bit_length (suc bits) value =
    let rest = bit_length bits (value / 2) in if value == 0 then 0 else suc rest

-- Two and three bytes written from `pointer` on, the pointer behind them.
abbrev store_two : List ℕ → ℕ → ℕ → ℕ → Run (List ℕ × ℕ)
store_two buffer pointer b0 b1 = do
  buffer1 ← store buffer pointer b0
  buffer2 ← store buffer1 (pointer + 1) b1
  ok (buffer2, pointer + 1 + 1)

abbrev store_three : List ℕ → ℕ → ℕ → ℕ → ℕ → Run (List ℕ × ℕ)
store_three buffer pointer b0 b1 b2 = do
  buffer1 ← store buffer pointer b0
  buffer2 ← store buffer1 (pointer + 1) b1
  buffer3 ← store buffer2 (pointer + 1 + 1) b2
  ok (buffer3, pointer + 1 + 1 + 1)

-- The branch for an index with one indexed field.
unfoldable pub write_single : List ℕ → ℕ → ℕ → Run (List ℕ × ℕ)
write_single postings_buffer write_pointer count =
    if ltb count 128
    then (do
      buffer ← store postings_buffer write_pointer (bit_or (count % 256) stop_bit)
      ok (buffer, write_pointer + 1))
    else if ltb count 16384
    then store_two postings_buffer write_pointer (count / 2 ^ 7 % 256)
        (bit_or (bit_and count 0x7f % 256) stop_bit)
    else ok (postings_buffer, write_pointer)

-- The branch for a term that occurs in the longest field only.
unfoldable pub write_longest : List ℕ → ℕ → ℕ → Run (List ℕ × ℕ)
write_longest postings_buffer write_pointer count =
    if ltb count 64
    then (do
      buffer ← store postings_buffer write_pointer (bit_or (count % 256) 0xc0)
      ok (buffer, write_pointer + 1))
    else if ltb count 8192
    then store_two postings_buffer write_pointer (bit_or (count / 2 ^ 7 % 256) 0x40)
        (bit_or (bit_and count 0x7f % 256) stop_bit)
    else ok (postings_buffer, write_pointer)

-- The last branch, at the `i`-th field of the loop. `i == nonempty_field_count - 1` is written
-- `i + 1 == nonempty_field_count`, which is the same also where the difference wraps.
unfoldable pub field_stop : ℕ → ℕ → ℕ
field_stop nonempty_field_count i =
    if i + 1 == nonempty_field_count
    then (if i == 0 then field_stop_bit_1 else field_stop_bit_2)
    else 0

unfoldable pub write_packed : List ℕ → ℕ → ℕ → ℕ → ℕ → Run (List ℕ × ℕ)
write_packed postings_buffer write_pointer stop meta_bits packed =
    if leb meta_bits 6
    then (do
      buffer ← store postings_buffer write_pointer (bit_or (bit_or stop (packed % 256)) stop_bit)
      ok (buffer, write_pointer + 1))
    else if leb meta_bits 13
    then store_two postings_buffer write_pointer (bit_or stop (packed / 2 ^ 7 % 256))
        (bit_or (bit_and packed 0x7f % 256) stop_bit)
    else if leb meta_bits 20
    then store_three postings_buffer write_pointer (bit_or stop (packed / 2 ^ 14 % 256))
        (bit_and (packed / 2 ^ 7) 0x7f % 256) (bit_or (bit_and packed 0x7f % 256) stop_bit)
    else ok (postings_buffer, write_pointer)

unfoldable pub write_field : List ℕ → ℕ → ℕ → ℕ × ℕ → Bool → Bool → ℕ → ℕ → Run (List ℕ × ℕ)
write_field buffer pointer i field single only_longest_field nonempty_field_count id_bits =
    if single
    then write_single buffer pointer field.1
    else if only_longest_field
    then write_longest buffer pointer field.1
    else write_packed buffer pointer (field_stop nonempty_field_count i)
        ((if i == 0 then 1 else 0) + bit_length 32 field.1 + id_bits)
        (bit_or (field.1 * 2 ^ id_bits) field.0)

-- `i` counts the turns of the loop.
unfoldable pub write_fields : ℕ → List ℕ → ℕ → List (ℕ × ℕ) → Bool → Bool → ℕ → ℕ → Run (List ℕ × ℕ)
write_fields i buffer pointer [] single only_longest_field nonempty id_bits = ok (buffer, pointer)
write_fields i buffer pointer (field ∷ fields) single only_longest_field nonempty id_bits = do
  written ← write_field buffer pointer i field single only_longest_field nonempty id_bits
  write_fields (suc i) written.0 written.1 fields single only_longest_field nonempty id_bits

unfoldable pub write_field_vec : List ℕ → ℕ → List (ℕ × ℕ) → ℕ → Bool → ℕ → ℕ → Run (List ℕ × ℕ)
write_field_vec postings_buffer write_pointer field_vec indexed_field_vec_len only_longest_field
      nonempty_field_count indexed_field_id_bits =
    write_fields 0 postings_buffer write_pointer field_vec (indexed_field_vec_len == 1)
      only_longest_field nonempty_field_count indexed_field_id_bits

abbrev pub has_bit : ℕ → ℕ → Bool
has_bit byte mask = not (bit_and byte mask == 0)

-- A count whose first byte holds `mask` of its bits, and the pointer behind it.
unfoldable pub read_count : ℕ → List ℕ → ℕ → Run (ℕ × ℕ)
read_count mask byte_array pointer = do
  byte0 ← load byte_array pointer
  (if has_bit byte0 stop_bit then ok (bit_and byte0 mask, pointer + 1) else (do
    byte1 ← load byte_array (pointer + 1)
    (let upper = bit_and byte0 mask * 2 ^ 7 in
        if has_bit byte1 stop_bit
        then ok (bit_or upper (bit_and byte1 0x7f), pointer + 1 + 1)
        else (do
          byte2 ← load byte_array (pointer + 1 + 1)
          ok (
            bit_or (bit_or (upper * 2 ^ 7) (bit_and byte1 0x7f * 2 ^ 7)) (bit_and byte2 0x7f),
            pointer + 1 + 1 + 1,
          )))))

-- One field of the last branch: its bytes as a number, whether the loop ends with it, and the
-- pointer behind it.
unfoldable pub read_packed : Bool → List ℕ → ℕ → Run (ℕ × Bool × ℕ)
read_packed first byte_array pointer = do
  byte0 ← load byte_array pointer
  (let field_stop = has_bit byte0 (if first then field_stop_bit_1 else field_stop_bit_2) in
      let packed = bit_and byte0 (if first then 0x1f else 0x3f) in
      if has_bit byte0 stop_bit then ok (packed, field_stop, pointer + 1) else (do
        byte1 ← load byte_array (pointer + 1)
        (let packed1 = bit_or (packed * 2 ^ 7) (bit_and byte1 0x7f) in
            if has_bit byte1 stop_bit then ok (packed1, field_stop, pointer + 1 + 1) else (do
              byte2 ← load byte_array (pointer + 1 + 1)
              (let packed2 = bit_or (packed1 * 2 ^ 7) (bit_and byte2 0x7f) in
                  ok (packed2, (has_bit byte2 stop_bit && field_stop), pointer + 1 + 1 + 1))))))

-- The loop over the fields. Each turn reads a byte further on, and reading past the end panics, so
-- one unit of fuel more than there are bytes is enough.
unfoldable pub read_fields : ℕ → Bool → ℕ → ℕ → List (ℕ × ℕ) → List ℕ → ℕ → Run (List (ℕ × ℕ) × ℕ)
read_fields zero first id_bits id_mask field_vec byte_array pointer = out_of_fuel
read_fields (suc fuel) first id_bits id_mask field_vec byte_array pointer = do
  packed ← read_packed first byte_array pointer
  (let fields = field_vec ++ (bit_and packed.0 id_mask, packed.0 / 2 ^ id_bits) ∷ [] in
      let rest = read_fields fuel false id_bits id_mask fields byte_array packed.2 in
      if packed.1 then ok (fields, packed.2) else rest)

unfoldable pub read_multifield_vec :
    ℕ → ℕ → ℕ → ℕ → List (ℕ × ℕ) → List ℕ → ℕ → Run (List (ℕ × ℕ) × ℕ)
read_multifield_vec indexed_field_vec_len id_bits id_mask longest_field_id field_vec byte_array
      pointer =
    if indexed_field_vec_len == 1
    then (do
      count ← read_count 0x7f byte_array pointer
      ok (field_vec ++ (0, count.0) ∷ [], count.1))
    else (do
      byte ← load byte_array pointer
      (if has_bit byte 0x40
          then (do
            count ← read_count 0x3f byte_array pointer
            ok (field_vec ++ (longest_field_id % 65536, count.0) ∷ [], count.1))
          else read_fields (suc (length byte_array)) true id_bits id_mask field_vec byte_array
              pointer))
