-- ===== src/Embed/ShortFields.antt =====
-- In an index with several fields, a search reads the fields and the positions of two bytes.
use seek_storm.Base.{
  ℕ, ◌+◌, ◌-◌, ◌*◌, ◌^◌, List, [], ◌∷◌, true, false, ok, length, ◌==◌, if◌then◌else◌, ◌≡◌, refl,
  sym, ap, ◌∙◌, arith,
}
use seek_storm.Utils.{from_le_bytes}
use seek_storm.Fields.{has_bit}
use seek_storm.Fields.Embedded.{FieldSchema}
use seek_storm.Embed.{fields_bytes, pack_ids, pack_positions}
use seek_storm.Embed.Choice.{Embedded}
use seek_storm.Embed.FieldIds.{AllIds}
use seek_storm.Embed.FieldRanks.{short}
use seek_storm.Embed.FieldShapes.{Shared, nothing, field, with_counts, ids_1, ids_2}
use seek_storm.Embed.FieldTags.{Reads2, one_field_2, two_fields_2}
use seek_storm.Embed.FieldValue.{field_value, one_rank_2, several_rank_2}
use seek_storm.Embed.Places.{four, places}

-- The most positions that are embedded in two bytes.
abbrev pub most_2 : List ℕ → ℕ
most_2 ids = if length ids == 1 then 3 else 2

module _ (schema : FieldSchema) (several : (schema.indexed_field_vec_len == 1) ≡ false)
    (mask : schema.indexed_field_id_mask + 1 ≡ 2 ^ schema.indexed_field_id_bits) (r : ℕ)
    (positions : List ℕ) where
  abbrev pub ReadsFields2 : List ℕ → List ℕ → ℕ → Type 0
  ReadsFields2 ids counts rank =
      (has_bit rank 0x8000 ≡ true)
      × Reads2 schema several rank (with_counts ids counts) (four positions)

  abbrev pub rank_2 : List ℕ → List ℕ → ℕ
  rank_2 ids counts =
      from_le_bytes (fields_bytes 2 schema.indexed_field_id_bits ids counts positions)

  one_short :
      (i c : ℕ)
      → c ≡ length positions
      → AllIds schema.indexed_field_id_bits (i ∷ [])
      → Embedded r 3 positions
      → 1 * schema.indexed_field_id_bits + r ≡ 12
      → ReadsFields2 (i ∷ []) (c ∷ []) (rank_2 (i ∷ []) (c ∷ []))
  unfolding fields_bytes with_counts
  one_short i c count all embedded sum =
      let b : ℕ = schema.indexed_field_id_bits in
      let n : ℕ = length positions in
      let rest : 16 - (4 + 1 * b) ≡ r = omega arith in
      let value = field_value 12 b r 3 (i ∷ []) positions (omega arith) sum all embedded in
      let rank : ℕ = rank_2 (i ∷ []) (c ∷ []) in
      let made : rank ≡ pack_positions r (pack_ids b 0 (i ∷ [])) positions + (n - 1 + 8) * 2 ^ 12 =
        rw rest (one_rank_2 _ (n - 1) value.0 (omega (arith, embedded.1))) in
      let parts =
        short schema several mask r positions rank (n - 1 + 8) 3 (i ∷ []) sum all (omega arith)
          embedded (omega arith) (omega (arith, embedded.1)) made in
      let reads =
        one_field_2 schema several rank r n embedded.0 embedded.1 sum
          (omega (arith, parts.1, embedded.0)) in
      let id = ids_1 schema mask rank r (n - 1 + 8) i all parts.2 in
      (parts.0, (reads.0 ∙ rw (id, count) refl, reads.1 ∙ ap ok parts.3))

  two_short :
      (i j c d : ℕ)
      → c ≡ 1
      → d ≡ 1
      → length positions ≡ 2
      → AllIds schema.indexed_field_id_bits (i ∷ j ∷ [])
      → Embedded r 2 positions
      → 2 * schema.indexed_field_id_bits + r ≡ 12
      → ReadsFields2 (i ∷ j ∷ []) (c ∷ d ∷ []) (rank_2 (i ∷ j ∷ []) (c ∷ d ∷ []))
  unfolding fields_bytes with_counts
  two_short i j c d first second count all embedded sum =
      let b : ℕ = schema.indexed_field_id_bits in
      let rest : 16 - (4 + 2 * b) ≡ r = omega arith in
      let value = field_value 12 b r 2 (i ∷ j ∷ []) positions (omega arith) sum all embedded in
      let rank : ℕ = rank_2 (i ∷ j ∷ []) (c ∷ d ∷ []) in
      let made : rank ≡ pack_positions r (pack_ids b 0 (i ∷ j ∷ [])) positions + 11 * 2 ^ 12 =
        rw rest (several_rank_2 _ value.0) in
      let parts =
        short schema several mask r positions rank 11 2 (i ∷ j ∷ []) sum all (omega arith) embedded
          (omega arith) (omega arith) made in
      let reads = two_fields_2 schema several rank r sum parts.1 in
      let id = ids_2 schema mask rank r 11 i j all parts.2 in
      (
        parts.0,
        (
          reads.0 ∙ rw (id.0, id.1, first, second) refl,
          reads.1 ∙ ap ok (ap (λ k. places k rank r) (sym count) ∙ parts.3),
        ),
      )

  -- All numbers of fields.
  pub reads_short :
      (ids counts : List ℕ)
      → Shared ids counts (length positions)
      → AllIds schema.indexed_field_id_bits ids
      → Embedded r (most_2 ids) positions
      → length ids * schema.indexed_field_id_bits + r ≡ 12
      → ReadsFields2 ids counts (rank_2 ids counts)
  reads_short _ _ (nothing n e) all embedded sum = absurd (omega (arith, embedded.0))
  reads_short _ _ (field i c n _ _ h g (nothing m e)) all embedded sum =
      one_short i c (omega arith) all embedded sum
  reads_short _ _ (field i c n _ _ h g (field j d m _ _ h1 g1 (nothing l e))) all embedded sum =
      two_short i j c d (omega (arith, embedded.1)) (omega (arith, embedded.1))
        (omega (arith, embedded.1)) all embedded sum
  reads_short _ _ (field i c n _ _ h g (field j d m _ _ h1 g1 (field k e l ids counts h2 g2 rest)))
        all embedded sum =
      let most : most_2 (i ∷ j ∷ k ∷ ids) ≡ 2 = ground arith in absurd (omega (arith, embedded.1))
