-- ===== src/Embed/Several.antt =====
-- In an index with several fields, a search finds the fields and the positions of an embedded posting.
use seek_storm.Base.{
  ℕ, ◌+◌, ◌-◌, ◌*◌, ◌^◌, List, [], ◌∷◌, ◌++◌, true, false, ok, length, ◌==◌, ◌≡◌, refl, arith,
  Bool-cases, inl, inr, At,
}
use seek_storm.Positions.Encode.{AllU16}
use seek_storm.Fields.Embedded.{FieldSchema}
use seek_storm.Embed.{embed_fields, fields_bytes}
use seek_storm.Embed.Choice.{embed_fields-Embedded}
use seek_storm.Embed.Decode.{PostingListQuery, QueryFlags, speedup, short_pointer}
use seek_storm.Embed.FieldIds.{AllIds}
use seek_storm.Embed.LongFields.{reads_long}
use seek_storm.Embed.ShortFields.{reads_short}
use seek_storm.Embed.FieldRanks.{short, long}
use seek_storm.Embed.FieldShapes.{Shared, with_counts}
use seek_storm.Embed.Longest.{found_fields, decode_embedded_fields}
use seek_storm.Embed.Multi.{with_u16_id, decode_multifield}
use seek_storm.Embed.RoundTrip.{pointer_size, rank_start, read_rank-short, read_rank-long}

module _ (schema : FieldSchema) (several : (schema.indexed_field_vec_len == 1) ≡ false)
    (mask : schema.indexed_field_id_mask + 1 ≡ 2 ^ schema.indexed_field_id_bits)
    (plo : PostingListQuery) (flags : QueryFlags) (id count : ℕ) (ids counts positions : List ℕ)
    (next : ℕ) (shared : Shared (id ∷ ids) (count ∷ counts) (length positions))
    (all : AllIds schema.indexed_field_id_bits (id ∷ ids)) (u16 : AllU16 positions)
    (slow : speedup flags ≡ false) where
  abbrev pub Decoded : Type 0
  Decoded =
      decode_multifield schema plo flags
      ≡ ok (found_fields plo flags positions (id, count) (with_counts ids counts), false)

  decode_short :
      short_pointer plo ≡ true
      → embed_fields 2 (length (id ∷ ids)) schema.indexed_field_id_bits positions ≡ true
      → At plo.byte_array (rank_start plo) (
          fields_bytes 2 schema.indexed_field_id_bits (id ∷ ids) (count ∷ counts) positions
          ++ next ∷ [])
      → Decoded
  unfolding fields_bytes with_counts
  decode_short short embed written =
      let embedded =
        (embed_fields-Embedded positions u16 (length (id ∷ ids)) schema.indexed_field_id_bits).0
          embed in
      let reads =
        reads_short (with_u16_id schema) several mask
          (12 - length (id ∷ ids) * schema.indexed_field_id_bits) positions (id ∷ ids)
          (count ∷ counts) shared all embedded.1 (omega (arith, embedded.0)) in
      decode_embedded_fields schema plo flags positions _ (id, count) (with_counts ids counts) true
        short slow (read_rank-short plo _ _ next short written) reads.0 reads.1.0 reads.1.1

  decode_long :
      short_pointer plo ≡ false
      → embed_fields 3 (length (id ∷ ids)) schema.indexed_field_id_bits positions ≡ true
      → At plo.byte_array (rank_start plo) (
          fields_bytes 3 schema.indexed_field_id_bits (id ∷ ids) (count ∷ counts) positions
          ++ next ∷ [])
      → Decoded
  unfolding fields_bytes with_counts
  decode_long long embed written =
      let embedded =
        (embed_fields-Embedded positions u16 (length (id ∷ ids)) schema.indexed_field_id_bits).1
          embed in
      let reads =
        reads_long (with_u16_id schema) several mask
          (19 - length (id ∷ ids) * schema.indexed_field_id_bits) next positions (id ∷ ids)
          (count ∷ counts) shared all embedded.1 (omega (arith, embedded.0)) in
      decode_embedded_fields schema plo flags positions _ (id, count) (with_counts ids counts) false
        long slow (read_rank-long plo _ _ _ next long written) reads.0 reads.1.0 reads.1.1

  -- In an index with several fields, whose mask is that of the bits of a field id, a posting of one to
  -- three fields that is embedded with their ids, whose counts are not zero and add up to the number
  -- of positions, and whose bytes a further byte follows, is decoded without a panic: where the query
  -- does not speed up, the fields are those ids with those counts, and the positions of a phrase
  -- query are those that were embedded, filled up to four with zeros.
  pub decode_multifield-fields_bytes :
      embed_fields (pointer_size plo) (length (id ∷ ids)) schema.indexed_field_id_bits positions
        ≡ true
      → At plo.byte_array (rank_start plo) (
          fields_bytes
            (pointer_size plo)
            schema.indexed_field_id_bits
            (id ∷ ids)
            (count ∷ counts)
            positions
          ++ next ∷ [])
      → decode_multifield schema plo flags
        ≡ ok (found_fields plo flags positions (id, count) (with_counts ids counts), false)
  decode_multifield-fields_bytes embed written = elim (Bool-cases (short_pointer plo)) [
    | inl short ↦
        let size : pointer_size plo ≡ 2 = rw short refl in
        decode_short short (rw size at embed) (rw size at written)
    | inr long ↦
        let size : pointer_size plo ≡ 3 = rw long refl in
        decode_long long (rw size at embed) (rw size at written)
  ]
