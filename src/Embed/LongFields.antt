-- ===== src/Embed/LongFields.antt =====
-- In an index with several fields, a search reads the fields and the positions of three bytes.
use seek_storm.Base.{
  ℕ, zero, suc, ◌+◌, ◌-◌, ◌*◌, ◌%◌, ◌^◌, ◌≤◌, List, [], ◌∷◌, ◌++◌, true, false, ok, length, ◌==◌,
  if◌then◌else◌, ◌≡◌, refl, sym, ap, ◌∙◌, arith, ◌⊎◌, inl, inr,
}
use seek_storm.Utils.{from_le_bytes}
use seek_storm.Fields.{has_bit}
use seek_storm.Fields.Embedded.{FieldSchema}
use seek_storm.Embed.{fields_bytes, fields_tag, pack_ids, pack_positions}
use seek_storm.Embed.Choice.{Embedded}
use seek_storm.Embed.FieldIds.{AllIds}
use seek_storm.Embed.FieldRanks.{long}
use seek_storm.Embed.FieldShapes.{Shared, nothing, field, with_counts, ids_1, ids_2, ids_3}
use seek_storm.Embed.FieldTags.{Reads3, one_field_3, two_fields_3, three_fields_3}
use seek_storm.Embed.FieldValue.{field_value, rank_3}
use seek_storm.Embed.Places.{four, places}

-- The most positions that are embedded in three bytes.
abbrev pub most_3 : List ℕ → ℕ
most_3 ids = if length ids == 1 then 4 else 3

-- The part of the tag of two fields that their counts make up.
abbrev Counted : ℕ → ℕ → ℕ → Type 0
Counted c d t =
    ((c ≡ 1) × (d ≡ 1) × (t ≡ 4)) ⊎ (((c ≡ 1) × (d ≡ 2) × (t ≡ 5)) ⊎ ((c ≡ 2) × (d ≡ 1) × (t ≡ 6)))

two_tag : (c d t n : ℕ) → Counted c d t → fields_tag (c ∷ d ∷ []) n ≡ t * 2 ^ 3
unfolding fields_tag
two_tag c d t n (inl e) = rw (e.0, e.1, e.2) refl
two_tag c d t n (inr (inl e)) = rw (e.0, e.1, e.2) refl
two_tag c d t n (inr (inr e)) = rw (e.0, e.2) refl

counted : (c d : ℕ) → 1 ≤ c → 1 ≤ d → c + d ≤ 3 → (t : ℕ) × (t ≤ 7) × Counted c d t
counted zero d h g le = absurd (omega arith)
counted (suc zero) zero h g le = absurd (omega arith)
counted (suc zero) (suc zero) h g le = (4, omega arith, inl (refl, refl, refl))
counted (suc zero) (suc (suc zero)) h g le = (5, omega arith, inr (inl (refl, refl, refl)))
counted (suc zero) (suc (suc (suc d))) h g le = absurd (omega arith)
counted (suc (suc zero)) zero h g le = absurd (omega arith)
counted (suc (suc zero)) (suc zero) h g le = (6, omega arith, inr (inr (refl, refl, refl)))
counted (suc (suc zero)) (suc (suc d)) h g le = absurd (omega arith)
counted (suc (suc (suc c))) d h g le = absurd (omega arith)

which :
    (c d t : ℕ)
    → Counted c d t
    → ((c ≡ 1) × (d ≡ 1) × (t + 16 ≡ 20))
      ⊎ (((c ≡ 1) × (d ≡ 2) × (t + 16 ≡ 21)) ⊎ ((c ≡ 2) × (d ≡ 1) × (t + 16 ≡ 22)))
which c d t (inl e) = inl (e.0, e.1, omega (arith, e.2))
which c d t (inr (inl e)) = inr (inl (e.0, e.1, omega (arith, e.2)))
which c d t (inr (inr e)) = inr (inr (e.0, e.1, omega (arith, e.2)))

module _ (schema : FieldSchema) (several : (schema.indexed_field_vec_len == 1) ≡ false)
    (mask : schema.indexed_field_id_mask + 1 ≡ 2 ^ schema.indexed_field_id_bits) (r next : ℕ)
    (positions : List ℕ) where
  abbrev pub ReadsFields3 : List ℕ → List ℕ → ℕ → Type 0
  ReadsFields3 ids counts rank =
      (has_bit rank 0x800000 ≡ true)
      × Reads3 schema several rank (with_counts ids counts) (four positions)

  abbrev pub rank_of_3 : List ℕ → List ℕ → ℕ
  rank_of_3 ids counts =
      from_le_bytes (fields_bytes 3 schema.indexed_field_id_bits ids counts positions ++ next ∷ [])

  one_long :
      (i c : ℕ)
      → c ≡ length positions
      → AllIds schema.indexed_field_id_bits (i ∷ [])
      → Embedded r 4 positions
      → 1 * schema.indexed_field_id_bits + r ≡ 19
      → ReadsFields3 (i ∷ []) (c ∷ []) (rank_of_3 (i ∷ []) (c ∷ []))
  unfolding fields_bytes with_counts fields_tag
  one_long i c count all embedded sum =
      let b : ℕ = schema.indexed_field_id_bits in
      let n : ℕ = length positions in
      let rest : 23 - (4 + 1 * b) ≡ r = omega arith in
      let value = field_value 19 b r 4 (i ∷ []) positions (omega arith) sum all embedded in
      let rank : ℕ = rank_of_3 (i ∷ []) (c ∷ []) in
      let made : rank
          ≡ pack_positions r (pack_ids b 0 (i ∷ [])) positions
            + (n - 1 + 16) * 2 ^ 19
            + next * 2 ^ 24 =
        rw rest (
          rank_3 _ ((n - 1) * 2 ^ 3 % 256) (n - 1) next value.0 (omega (arith, embedded.1))
            (omega (arith, embedded.1))) in
      let parts =
        long schema several mask r positions rank (n - 1 + 16) next 4 (i ∷ []) sum all (omega arith)
          embedded (omega arith) (omega (arith, embedded.1)) made in
      let reads =
        one_field_3 schema several rank r n embedded.0 embedded.1 sum
          (omega (arith, parts.1, embedded.0)) in
      let id = ids_1 schema mask rank r (n - 1 + 16 + next * 32) i all parts.2 in
      (parts.0, (reads.0 ∙ rw (id, count) refl, reads.1 ∙ ap ok parts.3))

  two_long :
      (i j c d t : ℕ)
      → t ≤ 7
      → Counted c d t
      → length positions ≡ c + d
      → AllIds schema.indexed_field_id_bits (i ∷ j ∷ [])
      → Embedded r 3 positions
      → 2 * schema.indexed_field_id_bits + r ≡ 19
      → ReadsFields3 (i ∷ j ∷ []) (c ∷ d ∷ []) (rank_of_3 (i ∷ j ∷ []) (c ∷ d ∷ []))
  unfolding fields_bytes with_counts
  two_long i j c d t small tagged count all embedded sum =
      let b : ℕ = schema.indexed_field_id_bits in
      let n : ℕ = length positions in
      let rest : 23 - (4 + 2 * b) ≡ r = omega arith in
      let value = field_value 19 b r 3 (i ∷ j ∷ []) positions (omega arith) sum all embedded in
      let rank : ℕ = rank_of_3 (i ∷ j ∷ []) (c ∷ d ∷ []) in
      let made : rank
          ≡ pack_positions r (pack_ids b 0 (i ∷ j ∷ [])) positions
            + (t + 16) * 2 ^ 19
            + next * 2 ^ 24 =
        rw rest (
          rank_3 _ (fields_tag (c ∷ d ∷ []) (n - 1)) t next value.0 small
            (two_tag c d t (n - 1) tagged)) in
      let parts =
        long schema several mask r positions rank (t + 16) next 3 (i ∷ j ∷ []) sum all (omega arith)
          embedded (omega arith) (omega arith) made in
      let reads =
        two_fields_3 schema several rank r c d (t + 16) (which c d t tagged) sum parts.1 in
      let id = ids_2 schema mask rank r (t + 16 + next * 32) i j all parts.2 in
      (
        parts.0,
        (
          reads.0 ∙ rw (id.0, id.1) refl,
          reads.1 ∙ ap ok (ap (λ k. places k rank r) (sym count) ∙ parts.3),
        ),
      )

  three_long :
      (i j k c d e : ℕ)
      → c ≡ 1
      → d ≡ 1
      → e ≡ 1
      → length positions ≡ 3
      → AllIds schema.indexed_field_id_bits (i ∷ j ∷ k ∷ [])
      → Embedded r 3 positions
      → 3 * schema.indexed_field_id_bits + r ≡ 19
      → ReadsFields3 (i ∷ j ∷ k ∷ []) (c ∷ d ∷ e ∷ []) (rank_of_3 (i ∷ j ∷ k ∷ []) (c ∷ d ∷ e ∷ []))
  unfolding fields_bytes with_counts fields_tag
  three_long i j k c d e first second third count all embedded sum =
      let b : ℕ = schema.indexed_field_id_bits in
      let rest : 23 - (4 + 3 * b) ≡ r = omega arith in
      let value = field_value 19 b r 3 (i ∷ j ∷ k ∷ []) positions (omega arith) sum all embedded in
      let rank : ℕ = rank_of_3 (i ∷ j ∷ k ∷ []) (c ∷ d ∷ e ∷ []) in
      let made : rank
          ≡ pack_positions r (pack_ids b 0 (i ∷ j ∷ k ∷ [])) positions
            + (7 + 16) * 2 ^ 19
            + next * 2 ^ 24 =
        rw rest (rank_3 _ 0x38 7 next value.0 (omega arith) refl) in
      let parts =
        long schema several mask r positions rank (7 + 16) next 3 (i ∷ j ∷ k ∷ []) sum all
          (omega arith) embedded (omega arith) (omega arith) made in
      let reads = three_fields_3 schema several rank r sum parts.1 in
      let id = ids_3 schema mask rank r (7 + 16 + next * 32) i j k all parts.2 in
      (
        parts.0,
        (
          reads.0 ∙ rw (id.0, id.1, id.2, first, second, third) refl,
          reads.1 ∙ ap ok (ap (λ k. places k rank r) (sym count) ∙ parts.3),
        ),
      )

  -- All numbers of fields.
  pub reads_long :
      (ids counts : List ℕ)
      → Shared ids counts (length positions)
      → AllIds schema.indexed_field_id_bits ids
      → Embedded r (most_3 ids) positions
      → length ids * schema.indexed_field_id_bits + r ≡ 19
      → ReadsFields3 ids counts (rank_of_3 ids counts)
  reads_long _ _ (nothing n e) all embedded sum = absurd (omega (arith, embedded.0))
  reads_long _ _ (field i c n _ _ h g (nothing m e)) all embedded sum =
      one_long i c (omega arith) all embedded sum
  reads_long _ _ (field i c n _ _ h g (field j d m _ _ h1 g1 (nothing l e))) all embedded sum =
      let t = counted c d h h1 (omega (arith, embedded.1)) in
      two_long i j c d t.0 t.1 t.2 (omega arith) all embedded sum
  reads_long _ _ (field i c n _ _ h g (field j d m _ _ h1 g1 (field k e l _ _ h2 g2 (nothing q f))))
        all embedded sum =
      let most : most_3 (i ∷ j ∷ k ∷ []) ≡ 3 = refl in
      three_long i j k c d e (omega (arith, embedded.1)) (omega (arith, embedded.1))
        (omega (arith, embedded.1)) (omega (arith, embedded.1)) all embedded sum
  reads_long _ _
        (field i c n _ _ h g
          (field j d m _ _ h1 g1 (field k e l _ _ h2 g2 (field v f q ids counts h3 g3 rest))))
        all embedded sum =
      let most : most_3 (i ∷ j ∷ k ∷ v ∷ ids) ≡ 3 = ground arith in
      absurd (omega (arith, embedded.1))
