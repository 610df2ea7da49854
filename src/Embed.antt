-- ===== src/Embed.antt =====
-- src/seekstorm/index_posting.rs, `index_posting`: a posting with few and small positions is embedded
-- in the two or three bytes that would hold the pointer to its positions. The positions are the
-- deltas of all fields, one after the other; a u32 is shifted with its wrap-around.
pub mod Choice
pub mod Decode
pub mod FieldIds
pub mod FieldShapes
pub mod FieldRanks
pub mod FieldTags
pub mod FieldValue
pub mod LongFields
pub mod Longest
pub mod Multi
pub mod Pack
pub mod Places
pub mod Several
pub mod ShortFields
pub mod Unpack
pub mod Bytes
pub mod RoundTrip
mod Tests
use seek_storm.Base.{
  ℕ, zero, suc, ◌+◌, ◌-◌, ◌*◌, ◌/◌, ◌%◌, ◌^◌, List, [], ◌∷◌, Bool, true, false, ◌&&◌, ◌||◌, Run, ok,
  ◌>>=◌, store, length, ltb, leb, ◌==◌, if◌then◌else◌, bit_and, bit_or,
}
use seek_storm.Fields.{bit_length}

-- Whether there are as many positions as widths, and each takes at most its width in bits.
unfoldable pub fits : List ℕ → List ℕ → Bool
fits [] [] = true
fits [] (p ∷ positions) = false
fits (w ∷ widths) [] = false
fits (w ∷ widths) (p ∷ positions) = leb (bit_length 16 p) w && fits widths positions

-- `r` bits shared out among one to four positions.
abbrev pub widths_1 : ℕ → List ℕ
widths_1 r = r ∷ []

abbrev pub widths_2 : ℕ → List ℕ
widths_2 r = (r / 2) ∷ (r - r / 2) ∷ []

abbrev pub widths_3 : ℕ → List ℕ
widths_3 r = (r / 3) ∷ ((r - r / 3) / 2) ∷ (r - (r - r / 3) / 2 - r / 3) ∷ []

abbrev pub widths_4 : ℕ → List ℕ
widths_4 r =
    (r / 4)
    ∷ ((r - r / 4) / 3)
    ∷ ((r - (r - r / 4) / 3 - r / 4) / 2)
    ∷ (r - r / 4 - (r - r / 4) / 3 - (r - (r - r / 4) / 3 - r / 4) / 2)
    ∷ []

-- An index with one field.
unfoldable pub embed_single : ℕ → List ℕ → Bool
embed_single pointer_size positions =
    if pointer_size == 2
    then fits (14 ∷ []) positions || fits (7 ∷ 7 ∷ []) positions
    else fits (21 ∷ []) positions
      || (fits (10 ∷ 11 ∷ []) positions
          || (fits (7 ∷ 7 ∷ 7 ∷ []) positions || fits (5 ∷ 5 ∷ 5 ∷ 6 ∷ []) positions))

-- A term that occurs in the longest field only.
unfoldable pub embed_longest : ℕ → List ℕ → Bool
embed_longest pointer_size positions =
    if pointer_size == 2
    then fits (13 ∷ []) positions || fits (6 ∷ 7 ∷ []) positions
    else fits (20 ∷ []) positions
      || (fits (10 ∷ 10 ∷ []) positions
          || (fits (6 ∷ 7 ∷ 7 ∷ []) positions || fits (5 ∷ 5 ∷ 5 ∷ 5 ∷ []) positions))

-- Any other term, the ids of its fields being kept too.
unfoldable pub embed_fields : ℕ → ℕ → ℕ → List ℕ → Bool
embed_fields pointer_size nonempty_field_count id_bits positions =
    let used_bits = nonempty_field_count * id_bits in
    let bits = if pointer_size == 2 then 12 else 19 in
    let r = bits - used_bits in
    ltb used_bits bits
    && (if pointer_size == 2
        then fits (widths_1 r) positions
          || (fits (widths_2 r) positions
              || (nonempty_field_count == 1 && fits (widths_3 r) positions))
        else fits (widths_1 r) positions
          || (fits (widths_2 r) positions
              || (fits (widths_3 r) positions
                  || (nonempty_field_count == 1 && fits (widths_4 r) positions))))

-- `data <<= bits; data |= value`
abbrev pub push_bits : ℕ → ℕ → ℕ → ℕ
push_bits data0 bits value = bit_or (data0 * 2 ^ bits % 2 ^ 32) value

unfoldable pub pack_ids : ℕ → ℕ → List ℕ → ℕ
pack_ids id_bits data0 [] = data0
pack_ids id_bits data0 (id ∷ ids) = pack_ids id_bits (push_bits data0 id_bits id) ids

unfoldable pub pack_positions : ℕ → ℕ → List ℕ → ℕ
pack_positions remaining_bits data0 [] = data0
pack_positions remaining_bits data0 (position ∷ positions) =
    let position_bits = remaining_bits / length (position ∷ positions) in
    pack_positions (remaining_bits - position_bits) (push_bits data0 position_bits position)
      positions

-- `1` for the flag that the third byte has.
abbrev pub payload_bits : ℕ → ℕ
payload_bits pointer_size = pointer_size * 8 - (if pointer_size == 2 then 0 else 1)

-- The bytes for each kind of term.
unfoldable pub single_bytes : ℕ → List ℕ → List ℕ
single_bytes pointer_size positions =
    let value = pack_positions (payload_bits pointer_size - 2) 0 positions in
    let count = length positions - 1 in
    if pointer_size == 2
    then (bit_and value 255 ∷ bit_or (bit_or (value / 2 ^ 8 % 256) 0x80) (count * 2 ^ 6 % 256) ∷ [])
    else (bit_and value 255
        ∷ bit_and (value / 2 ^ 8) 255
        ∷ bit_or (bit_or (value / 2 ^ 16 % 256) 0x80) (count * 2 ^ 5 % 256)
        ∷ [])

unfoldable pub longest_bytes : ℕ → List ℕ → List ℕ
longest_bytes pointer_size positions =
    let value = pack_positions (payload_bits pointer_size - 3) 0 positions in
    let count = length positions - 1 in
    if pointer_size == 2
    then (bit_and value 255 ∷ bit_or (bit_or (value / 2 ^ 8 % 256) 0xc0) (count * 2 ^ 5 % 256) ∷ [])
    else (bit_and value 255
        ∷ bit_and (value / 2 ^ 8) 255
        ∷ bit_or (bit_or (value / 2 ^ 16 % 256) 0xc0) (count * 2 ^ 4 % 256)
        ∷ [])

-- `counts` are the numbers of positions in the fields. Only the first two are looked at.
abbrev first_count : List ℕ → ℕ
first_count [] = 0
first_count (c ∷ counts) = c

abbrev second_count : List ℕ → ℕ
second_count [] = 0
second_count (c ∷ counts) = first_count counts

unfoldable pub fields_tag : List ℕ → ℕ → ℕ
fields_tag counts count =
    if length counts == 1
    then count * 2 ^ 3 % 256
    else if length counts == 3
    then 0x38
    else if first_count counts == 1 && second_count counts == 1
    then 0x20
    else if first_count counts == 1 && second_count counts == 2
    then 0x28
    else 0x30

unfoldable pub fields_bytes : ℕ → ℕ → List ℕ → List ℕ → List ℕ → List ℕ
fields_bytes pointer_size id_bits ids counts positions =
    let remaining_bits = payload_bits pointer_size - (4 + length ids * id_bits) in
    let value = pack_positions remaining_bits (pack_ids id_bits 0 ids) positions in
    let count = length positions - 1 in
    if pointer_size == 2
    then (bit_and value 255
        ∷ (if length counts == 1
            then bit_or (bit_or (value / 2 ^ 8 % 256) 0x80) (count * 2 ^ 4 % 256)
            else bit_or (value / 2 ^ 8 % 256) 0xb0)
        ∷ [])
    else (bit_and value 255
        ∷ bit_and (value / 2 ^ 8) 255
        ∷ bit_or (bit_or (value / 2 ^ 16 % 256) 0x80) (fields_tag counts count)
        ∷ [])
