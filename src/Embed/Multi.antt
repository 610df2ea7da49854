-- ===== src/Embed/Multi.antt =====
-- src/seekstorm/add_result.rs, `decode_positions_multiterm_multifield`: the fields and the positions
-- of a posting in an index with several fields.
use seek_storm.Base.{
  ℕ, ◌+◌, ◌*◌, ◌/◌, ◌%◌, ◌^◌, List, [], ◌∷◌, Bool, true, false, not, Run, ok, panic, ◌>>=◌, ltb,
  ◌==◌, if◌then◌else◌,
}
use seek_storm.Fields.{read_multifield_vec}
use seek_storm.Fields.Embedded.{FieldSchema, embedded_fields_2, embedded_fields_3}
use seek_storm.Embed.Decode.{
  PostingListQuery, QueryFlags, speedup, difference, short_pointer, pointer_value, embedded_flag,
  read_rank, positions_1, positions_2, positions_3, positions_4, no_positions,
}

-- The positions behind `n` field ids, in what these leave of `width` bits.
abbrev pub behind_ids : FieldSchema → ℕ → ℕ → (ℕ → ℕ → List ℕ) → ℕ → Run (List ℕ)
behind_ids schema width n positions rank = do
  position_bits ← difference width (n * schema.indexed_field_id_bits)
  ok (positions rank position_bits)

unfoldable pub multi_positions_2 : FieldSchema → ℕ → Run (List ℕ)
multi_positions_2 schema rank =
    let tag = rank / 2 ^ 12 in
    if schema.indexed_field_vec_len == 1
    then ok (
        if ltb tag 0b1000
        then no_positions
        else if ltb tag 0b1100
        then positions_1 rank 14
        else if ltb tag 0b10000
        then positions_2 rank 14
        else no_positions)
    else if ltb tag 0b1000
    then ok no_positions
    else if tag == 0b1000
    then behind_ids schema 12 1 positions_1 rank
    else if tag == 0b1001
    then behind_ids schema 12 1 positions_2 rank
    else if tag == 0b1010
    then behind_ids schema 12 1 positions_3 rank
    else if tag == 0b1011
    then behind_ids schema 12 2 positions_2 rank
    else if ltb tag 0b1110
    then ok (positions_1 rank 13)
    else if ltb tag 0b10000
    then ok (positions_2 rank 13)
    else ok no_positions

unfoldable pub multi_positions_3 : FieldSchema → ℕ → Run (List ℕ)
multi_positions_3 schema rank =
    let tag = rank % 2 ^ 24 / 2 ^ 19 in
    if schema.indexed_field_vec_len == 1
    then ok (
        if ltb tag 0b10000
        then no_positions
        else if ltb tag 0b10100
        then positions_1 rank 21
        else if ltb tag 0b11000
        then positions_2 rank 21
        else if ltb tag 0b11100
        then positions_3 rank 21
        else positions_4 rank 21)
    else if ltb tag 0b10000
    then ok no_positions
    else if tag == 0b10000
    then behind_ids schema 19 1 positions_1 rank
    else if tag == 0b10001
    then behind_ids schema 19 1 positions_2 rank
    else if tag == 0b10010
    then behind_ids schema 19 1 positions_3 rank
    else if tag == 0b10011
    then behind_ids schema 19 1 positions_4 rank
    else if tag == 0b10100
    then behind_ids schema 19 2 positions_2 rank
    else if tag == 0b10101
    then behind_ids schema 19 2 positions_3 rank
    else if tag == 0b10110
    then behind_ids schema 19 2 positions_3 rank
    else if tag == 0b10111
    then behind_ids schema 19 3 positions_3 rank
    else if ltb tag 0b11010
    then ok (positions_1 rank 20)
    else if ltb tag 0b11100
    then ok (positions_2 rank 20)
    else if ltb tag 0b11110
    then ok (positions_3 rank 20)
    else ok (positions_4 rank 20)

-- `index.longest_field_id as u16`
abbrev pub with_u16_id : FieldSchema → FieldSchema
with_u16_id schema = record schema { longest_field_id = schema.longest_field_id % 65536 }

abbrev pub multi_positions : Bool → FieldSchema → ℕ → Run (List ℕ)
multi_positions short schema rank =
    if short
    then multi_positions_2 (with_u16_id schema) rank
    else multi_positions_3 (with_u16_id schema) rank

abbrev pub multi_fields : Bool → FieldSchema → ℕ → Run (List (ℕ × ℕ))
multi_fields short schema rank =
    if short
    then embedded_fields_2 (with_u16_id schema) rank
    else embedded_fields_3 (with_u16_id schema) rank

-- `field_vec[0].1`
abbrev pub count_of_first : List (ℕ × ℕ) → Run ℕ
count_of_first [] = panic
count_of_first (field ∷ fields) = ok field.1

-- `field_vec[0].1 < 10`
abbrev few : List (ℕ × ℕ) → Run Bool
few fields = do count ← count_of_first fields; ok (ltb count 10)

abbrev read_fields_at : FieldSchema → PostingListQuery → ℕ → Run (List (ℕ × ℕ) × ℕ)
read_fields_at schema plo pointer =
    read_multifield_vec schema.indexed_field_vec_len schema.indexed_field_id_bits
      schema.indexed_field_id_mask schema.longest_field_id [] plo.byte_array pointer

-- The fields of the two terms of a bigram come first.
unfoldable pub read_bigram_fields : FieldSchema → PostingListQuery → ℕ → Run (PostingListQuery × ℕ)
read_bigram_fields schema plo pointer =
    if plo.is_bigram
    then (do
      fields1 ← read_fields_at schema plo pointer
      fields2 ← read_fields_at schema plo fields1.1
      ok (record plo { field_vec_bigram1 = fields1.0; field_vec_bigram2 = fields2.0 }, fields2.1))
    else ok (plo, pointer)

abbrev finish : PostingListQuery → List (ℕ × ℕ) → ℕ → Run (PostingListQuery × Bool)
finish plo fields pointer = do
  count ← count_of_first fields
  ok (
    record plo { positions_pointer = pointer; positions_count = count; field_vec = fields },
    false,
  )

unfoldable pub decode_multifield :
    FieldSchema → PostingListQuery → QueryFlags → Run (PostingListQuery × Bool)
decode_multifield schema plo flags = do
  rank ← read_rank plo
  (if not (embedded_flag plo rank)
      then (do
        pointer ← difference plo.rank_position_pointer_range (pointer_value plo rank)
        bigram ← read_bigram_fields schema (record plo { is_embedded = false }) pointer
        fields ← read_fields_at schema plo bigram.1
        enough ← if speedup flags then few fields.0 else ok false
        (if enough then ok (bigram.0, true) else finish bigram.0 fields.0 fields.1))
      else if speedup flags
      then ok (record plo { is_embedded = true }, true)
      else (do
        sum ←
            if short_pointer plo
            then ok (plo.p_docid * 2)
            else difference (plo.p_docid * 3) plo.pointer_pivot_p_docid
        fields ← multi_fields (short_pointer plo) schema rank
        positions ←
            if flags.phrase_query
            then multi_positions (short_pointer plo) schema rank
            else ok plo.embedded_positions
        finish (record plo { is_embedded = true; embedded_positions = positions }) fields
            (plo.rank_position_pointer_range + sum)))
