-- ===== src/Embed/FieldRanks.antt =====
-- What a rank pointer with field ids shows: its flag, its tag, the ids and the positions.
use seek_storm.Base.{
  ℕ, ◌+◌, ◌*◌, ◌/◌, ◌%◌, ◌^◌, ◌≤◌, ◌<◌, List, true, false, length, ◌==◌, ◌≡◌, ◌∙◌, arith,
}
use seek_storm.Fields.{has_bit}
use seek_storm.Fields.Embedded.{FieldSchema}
use seek_storm.Embed.{pack_ids, pack_positions}
use seek_storm.Embed.Choice.{Embedded}
use seek_storm.Embed.FieldIds.{AllIds, with_ids, Above}
use seek_storm.Embed.FieldValue.{field_value}
use seek_storm.Embed.Pack.{packed, packed-lt}
use seek_storm.Embed.Places.{four, places, places-packed}
use seek_storm.Embed.RoundTrip.{embedded-short, embedded-long}

module _ (schema : FieldSchema) (several : (schema.indexed_field_vec_len == 1) ≡ false)
    (mask : schema.indexed_field_id_mask + 1 ≡ 2 ^ schema.indexed_field_id_bits) (r : ℕ)
    (positions : List ℕ) where
  -- What holds of a rank pointer of two bytes with a tag above the ids and the positions.
  abbrev Short : ℕ → ℕ → List ℕ → Type 0
  Short rank tag ids =
      (has_bit rank 0x8000 ≡ true)
      × (rank / 2 ^ 12 ≡ tag)
      × Above r rank (with_ids schema.indexed_field_id_bits tag ids)
      × (places (length positions) rank r ≡ four positions)

  pub short :
      (rank tag most : ℕ) (ids : List ℕ)
      → length ids * schema.indexed_field_id_bits + r ≡ 12
      → AllIds schema.indexed_field_id_bits ids
      → most ≤ 4
      → Embedded r most positions
      → 8 ≤ tag
      → tag < 16
      → rank
        ≡ pack_positions r (pack_ids schema.indexed_field_id_bits 0 ids) positions + tag * 2 ^ 12
      → Short rank tag ids
  short rank tag most ids sum all le embedded h g e =
      let b : ℕ = schema.indexed_field_id_bits in
      let value = field_value 12 b r most ids positions (omega arith) sum all embedded in
      let whole : rank ≡ with_ids b tag ids * 2 ^ r + packed r positions = e ∙ value.1 tag in
      (
        embedded-short rank (omega (arith, value.0)) (omega (arith, value.0)),
        omega (arith, value.0),
        (packed r positions, packed-lt r positions embedded.2, whole),
        places-packed r (with_ids b tag ids) rank positions
            (embedded.0, omega (arith, embedded.1), embedded.2) whole,
      )

  abbrev Long : ℕ → ℕ → ℕ → List ℕ → Type 0
  Long rank tag next ids =
      (has_bit rank 0x800000 ≡ true)
      × (rank % 2 ^ 24 / 2 ^ 19 ≡ tag)
      × Above r rank (with_ids schema.indexed_field_id_bits (tag + next * 32) ids)
      × (places (length positions) rank r ≡ four positions)

  pub long :
      (rank tag next most : ℕ) (ids : List ℕ)
      → length ids * schema.indexed_field_id_bits + r ≡ 19
      → AllIds schema.indexed_field_id_bits ids
      → most ≤ 4
      → Embedded r most positions
      → 16 ≤ tag
      → tag < 32
      → rank
        ≡ pack_positions r (pack_ids schema.indexed_field_id_bits 0 ids) positions
          + tag * 2 ^ 19
          + next * 2 ^ 24
      → Long rank tag next ids
  long rank tag next most ids sum all le embedded h g e =
      let b : ℕ = schema.indexed_field_id_bits in
      let value = field_value 19 b r most ids positions (omega arith) sum all embedded in
      let low : ℕ = pack_positions r (pack_ids b 0 ids) positions + tag * 2 ^ 19 in
      let whole : rank ≡ with_ids b (tag + next * 32) ids * 2 ^ r + packed r positions =
        omega (arith, value.1 (tag + next * 32)) in
      (
        embedded-long rank low next e (omega arith) (omega (arith, value.0)),
        omega (arith, value.0),
        (packed r positions, packed-lt r positions embedded.2, whole),
        places-packed r (with_ids b (tag + next * 32) ids) rank positions
            (embedded.0, omega (arith, embedded.1), embedded.2) whole,
      )
