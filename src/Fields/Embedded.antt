-- ===== src/Fields/Embedded.antt =====
-- src/seekstorm/add_result.rs: the fields of a posting as a commit reads them, from the bytes of its
-- positions or from the pointer in which its positions are embedded. A shift count below zero
-- panics, and an unsupported pointer prints an error and adds no field.
use seek_storm.Base.{
  ℕ, ◌+◌, ◌-◌, ◌*◌, ◌/◌, ◌%◌, ◌^◌, List, [], ◌∷◌, Bool, Run, ok, panic, ◌>>=◌, leb, ltb, ◌==◌,
  if◌then◌else◌, bit_and,
}
use seek_storm.Utils.{read_u16, read_u32}
use seek_storm.Fields.{read_multifield_vec}

-- The three lists of fields that are filled.
pub record DecodedFields : Type 0 where
  pub field_vec : List (ℕ × ℕ)
  pub field_vec_bigram1 : List (ℕ × ℕ)
  pub field_vec_bigram2 : List (ℕ × ℕ)

-- The fields of the index that tell how a field id is kept.
pub record FieldSchema : Type 0 where
  pub indexed_field_vec_len : ℕ
  pub indexed_field_id_bits : ℕ
  pub indexed_field_id_mask : ℕ
  pub longest_field_id : ℕ

-- `width - n * bits`, an underflow of usize.
abbrev minus : ℕ → ℕ → Run ℕ
minus width used = if leb used width then ok (width - used) else panic

abbrev pub id_at : FieldSchema → ℕ → ℕ → ℕ
id_at schema rank shift = bit_and (rank / 2 ^ shift) schema.indexed_field_id_mask % 65536

-- One, two or three field ids above `width - n * bits` bits, with their counts.
abbrev one_field : FieldSchema → ℕ → ℕ → ℕ → Run (List (ℕ × ℕ))
one_field schema width rank count = do
  position_bits ← minus width schema.indexed_field_id_bits
  ok ((id_at schema rank position_bits, count) ∷ [])

abbrev two_fields : FieldSchema → ℕ → ℕ → ℕ → ℕ → Run (List (ℕ × ℕ))
two_fields schema width rank count count2 = do
  position_bits ← minus width (2 * schema.indexed_field_id_bits)
  ok (
      (id_at schema rank (position_bits + schema.indexed_field_id_bits), count)
      ∷ (id_at schema rank position_bits, count2)
      ∷ [])

abbrev three_fields : FieldSchema → ℕ → ℕ → Run (List (ℕ × ℕ))
three_fields schema width rank = do
  position_bits ← minus width (3 * schema.indexed_field_id_bits)
  ok (
      (
        id_at schema rank
            (position_bits + schema.indexed_field_id_bits + schema.indexed_field_id_bits),
        1,
      )
      ∷ (id_at schema rank (position_bits + schema.indexed_field_id_bits), 1)
      ∷ (id_at schema rank position_bits, 1)
      ∷ [])

-- A pointer of two bytes.
unfoldable pub embedded_fields_2 : FieldSchema → ℕ → Run (List (ℕ × ℕ))
embedded_fields_2 schema rank =
    let tag = rank / 2 ^ 12 in
    if schema.indexed_field_vec_len == 1
    then (if ltb tag 0b1000
        then ok []
        else if ltb tag 0b1100
        then ok ((0, 1) ∷ [])
        else if ltb tag 0b10000
        then ok ((0, 2) ∷ [])
        else ok [])
    else if ltb tag 0b1000
    then ok []
    else if tag == 0b1000
    then one_field schema 12 rank 1
    else if tag == 0b1001
    then one_field schema 12 rank 2
    else if tag == 0b1010
    then one_field schema 12 rank 3
    else if tag == 0b1011
    then two_fields schema 12 rank 1 1
    else if ltb tag 0b1110
    then ok ((schema.longest_field_id, 1) ∷ [])
    else if ltb tag 0b10000
    then ok ((schema.longest_field_id, 2) ∷ [])
    else ok []

-- A pointer of three bytes, read as four.
unfoldable pub embedded_fields_3 : FieldSchema → ℕ → Run (List (ℕ × ℕ))
embedded_fields_3 schema rank =
    let tag = rank % 2 ^ 24 / 2 ^ 19 in
    if schema.indexed_field_vec_len == 1
    then (if ltb tag 0b10000
        then ok []
        else if ltb tag 0b10100
        then ok ((0, 1) ∷ [])
        else if ltb tag 0b11000
        then ok ((0, 2) ∷ [])
        else if ltb tag 0b11100
        then ok ((0, 3) ∷ [])
        else ok ((0, 4) ∷ []))
    else if ltb tag 0b10000
    then ok []
    else if tag == 0b10000
    then one_field schema 19 rank 1
    else if tag == 0b10001
    then one_field schema 19 rank 2
    else if tag == 0b10010
    then one_field schema 19 rank 3
    else if tag == 0b10011
    then one_field schema 19 rank 4
    else if tag == 0b10100
    then two_fields schema 19 rank 1 1
    else if tag == 0b10101
    then two_fields schema 19 rank 1 2
    else if tag == 0b10110
    then two_fields schema 19 rank 2 1
    else if tag == 0b10111
    then three_fields schema 19 rank
    else if ltb tag 0b11010
    then ok ((schema.longest_field_id, 1) ∷ [])
    else if ltb tag 0b11100
    then ok ((schema.longest_field_id, 2) ∷ [])
    else if ltb tag 0b11110
    then ok ((schema.longest_field_id, 3) ∷ [])
    else ok ((schema.longest_field_id, 4) ∷ [])

-- The lists of fields are new, as they are where a commit calls this.
unfoldable pub decode_positions_commit :
    ℕ → Bool → List ℕ → ℕ → Bool → FieldSchema → Run DecodedFields
decode_positions_commit posting_pointer_size embed_flag byte_array pointer is_bigram schema =
    if embed_flag
    then (do
      rank ←
          if posting_pointer_size == 2
          then read_u16 byte_array pointer
          else read_u32 byte_array pointer
      fields ←
          if posting_pointer_size == 2
          then embedded_fields_2 schema rank
          else embedded_fields_3 schema rank
      ok (record { field_vec = fields; field_vec_bigram1 = []; field_vec_bigram2 = [] }))
    else (do
      bigram1 ← if is_bigram then read pointer else ok ([], pointer)
      bigram2 ← if is_bigram then read bigram1.1 else ok ([], bigram1.1)
      fields ← read bigram2.1
      ok (record {
        field_vec = fields.0;
        field_vec_bigram1 = bigram1.0;
        field_vec_bigram2 = bigram2.0;
      }))
  where
    read : ℕ → Run (List (ℕ × ℕ) × ℕ)
    read =
        read_multifield_vec schema.indexed_field_vec_len schema.indexed_field_id_bits
          schema.indexed_field_id_mask schema.longest_field_id [] byte_array
