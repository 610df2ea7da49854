-- ===== src/Embed/Tests.antt =====
-- Embedded postings at concrete values.
use seek_storm.Base.{ℕ, List, [], ◌∷◌, true, false, ok, ◌≡◌, refl, arith}
use seek_storm.Fields.{bit_length}
use seek_storm.Fields.Embedded.{FieldSchema}
use seek_storm.Embed.{
  fits, embed_single, embed_longest, embed_fields, single_bytes, longest_bytes, fields_bytes,
  fields_tag, pack_ids, pack_positions,
}
use seek_storm.Embed.Decode.{PostingListQuery, QueryFlags, decode_singlefield}
use seek_storm.Embed.FieldShapes.{nothing, field, with_counts}
use seek_storm.Embed.Longest.{found_fields, decode_multifield-longest_bytes}
use seek_storm.Embed.Multi.{decode_multifield}
use seek_storm.Embed.RoundTrip.{found, decode_singlefield-single_bytes}
use seek_storm.Embed.Several.{decode_multifield-fields_bytes}

-- The first posting of a list whose rank pointers begin at 1.
abbrev query : ℕ → List ℕ → PostingListQuery
query pivot bytes = record {
  byte_array = 0 ∷ bytes;
  p_docid = 0;
  pointer_pivot_p_docid = pivot;
  rank_position_pointer_range = 1;
  is_bigram = false;
  is_embedded = false;
  embedded_positions = [];
  positions_pointer = 0;
  positions_count = 0;
  tf_bigram1 = 0;
  tf_bigram2 = 0;
  field_vec = [];
  field_vec_bigram1 = [];
  field_vec_bigram2 = [];
}

abbrev phrase : QueryFlags
phrase = record { facet_filtered = false; phrase_query = true; all_terms_frequent = true }

-- Four fields, with two bits for an id.
abbrev four_fields : FieldSchema
four_fields = record {
  indexed_field_vec_len = 4;
  indexed_field_id_bits = 2;
  indexed_field_id_mask = 3;
  longest_field_id = 2;
}

abbrev two_positions : List ℕ
two_positions = 5 ∷ 9 ∷ []

abbrev single_query : PostingListQuery
single_query = query 1 (0x89 ∷ 0xc2 ∷ 7 ∷ [])

decode_singlefield-single_bytes_example :
    decode_singlefield single_query phrase ≡ ok (found single_query phrase two_positions, false)
unfolding embed_single fits bit_length single_bytes pack_positions
decode_singlefield-single_bytes_example =
    decode_singlefield-single_bytes single_query phrase two_positions 7
      (omega arith, (omega arith, tt)) refl (refl, (refl, (refl, tt))) refl

abbrev longest_query : PostingListQuery
longest_query = query 1 (0x89 ∷ 0xe2 ∷ 7 ∷ [])

decode_multifield-longest_bytes_example :
    decode_multifield four_fields longest_query phrase
    ≡ ok (found_fields longest_query phrase two_positions (2, 2) [], false)
unfolding embed_longest fits bit_length longest_bytes pack_positions
decode_multifield-longest_bytes_example =
    decode_multifield-longest_bytes four_fields refl two_positions longest_query phrase 7
      (omega arith) (omega arith, (omega arith, tt)) refl (refl, (refl, (refl, tt))) refl

-- Field 1 with one position and field 3 with two.
abbrev three_positions : List ℕ
three_positions = 5 ∷ 9 ∷ 3 ∷ []

abbrev fields_query : PostingListQuery
fields_query = query 0 (0x23 ∷ 0x95 ∷ 0xab ∷ 7 ∷ [])

decode_multifield-fields_bytes_example :
    decode_multifield four_fields fields_query phrase
    ≡ ok (found_fields fields_query phrase three_positions (1, 1) ((3, 2) ∷ []), false)
unfolding embed_fields fits bit_length fields_bytes fields_tag pack_ids pack_positions with_counts
decode_multifield-fields_bytes_example =
    decode_multifield-fields_bytes four_fields refl refl fields_query phrase 1 1 (3 ∷ []) (2 ∷ [])
      three_positions 7
      (field 1 1 3 (3 ∷ []) (2 ∷ []) (omega arith) (omega arith)
        (field 3 2 2 [] [] (omega arith) (omega arith) (nothing 0 refl)))
      ((omega arith, omega arith), ((omega arith, omega arith), tt))
      (omega arith, (omega arith, (omega arith, tt))) refl refl (refl, (refl, (refl, (refl, tt))))
