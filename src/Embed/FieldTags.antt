-- ===== src/Embed/FieldTags.antt =====
-- The tag of an embedded posting with field ids selects the counts of its fields and its positions.
use seek_storm.Base.{
  ℕ, zero, suc, ◌+◌, ◌-◌, ◌*◌, ◌/◌, ◌%◌, ◌^◌, ◌≤◌, List, [], ◌∷◌, true, false, ok, leb, ◌==◌, ◌≡◌,
  refl, ◌∙◌, ◌⊎◌, inl, inr, arith,
}
use seek_storm.Fields.Embedded.{FieldSchema, embedded_fields_2, embedded_fields_3, id_at}
use seek_storm.Embed.Multi.{multi_positions_2, multi_positions_3}
use seek_storm.Embed.Places.{places}

module _ (schema : FieldSchema) (several : (schema.indexed_field_vec_len == 1) ≡ false)
    (rank : ℕ) where
  abbrev pub Reads2 : List (ℕ × ℕ) → List ℕ → Type 0
  Reads2 fields positions =
      (embedded_fields_2 schema rank ≡ ok fields) × (multi_positions_2 schema rank ≡ ok positions)

  abbrev pub Reads3 : List (ℕ × ℕ) → List ℕ → Type 0
  Reads3 fields positions =
      (embedded_fields_3 schema rank ≡ ok fields) × (multi_positions_3 schema rank ≡ ok positions)

  module _ (r : ℕ) where
    pub one_field_2 :
        (count : ℕ)
        → 1 ≤ count
        → count ≤ 3
        → 1 * schema.indexed_field_id_bits + r ≡ 12
        → rank / 2 ^ 12 ≡ count + 7
        → Reads2 ((id_at schema rank r, count) ∷ []) (places count rank r)
    unfolding embedded_fields_2 multi_positions_2
    one_field_2 count h g sum tag =
        let rest : 12 - schema.indexed_field_id_bits ≡ r = omega arith in
        let rest_1 : 12 - 1 * schema.indexed_field_id_bits ≡ r = omega arith in
        (ground (arith, several, rest), ground (arith, several, rest_1))

    pub two_fields_2 :
        2 * schema.indexed_field_id_bits + r ≡ 12
        → rank / 2 ^ 12 ≡ 11
        → Reads2
            ((id_at schema rank (r + schema.indexed_field_id_bits), 1)
              ∷ (id_at schema rank r, 1)
              ∷ [])
            (places 2 rank r)
    unfolding embedded_fields_2 multi_positions_2
    two_fields_2 sum tag =
        let rest : 12 - 2 * schema.indexed_field_id_bits ≡ r = omega arith in
        (ground (arith, several, rest), ground (arith, several, rest))

    -- What the ids leave of the 19 bits.
    room :
        (n : ℕ)
        → n * schema.indexed_field_id_bits + r ≡ 19
        → (leb (n * schema.indexed_field_id_bits) 19 ≡ true)
          × (19 - n * schema.indexed_field_id_bits ≡ r)
    room n sum = (ground arith, omega arith)

    room_1 :
        1 * schema.indexed_field_id_bits + r ≡ 19
        → (leb schema.indexed_field_id_bits 19 ≡ true) × (19 - schema.indexed_field_id_bits ≡ r)
    room_1 sum = (ground arith, omega arith)

    pub one_field_3 :
        (count : ℕ)
        → 1 ≤ count
        → count ≤ 4
        → 1 * schema.indexed_field_id_bits + r ≡ 19
        → rank % 2 ^ 24 / 2 ^ 19 ≡ count + 15
        → Reads3 ((id_at schema rank r, count) ∷ []) (places count rank r)
    unfolding embedded_fields_3 multi_positions_3
    one_field_3 zero h g sum tag = absurd (omega arith)
    one_field_3 (suc zero) h g sum tag = (
      rw (several, tag, (room_1 sum).0, (room_1 sum).1) refl,
      rw (several, tag, (room 1 sum).0, (room 1 sum).1) refl,
    )
    one_field_3 (suc (suc zero)) h g sum tag = (
      rw (several, tag, (room_1 sum).0, (room_1 sum).1) refl,
      rw (several, tag, (room 1 sum).0, (room 1 sum).1) refl,
    )
    one_field_3 (suc (suc (suc zero))) h g sum tag = (
      rw (several, tag, (room_1 sum).0, (room_1 sum).1) refl,
      rw (several, tag, (room 1 sum).0, (room 1 sum).1) refl,
    )
    one_field_3 (suc (suc (suc (suc zero)))) h g sum tag = (
      rw (several, tag, (room_1 sum).0, (room_1 sum).1) refl,
      rw (several, tag, (room 1 sum).0, (room 1 sum).1) refl,
    )
    one_field_3 (suc (suc (suc (suc (suc count))))) h g sum tag = absurd (omega arith)

    pub two_fields_3 :
        (count count2 tag : ℕ)
        → ((count ≡ 1) × (count2 ≡ 1) × (tag ≡ 20))
          ⊎ (((count ≡ 1) × (count2 ≡ 2) × (tag ≡ 21)) ⊎ ((count ≡ 2) × (count2 ≡ 1) × (tag ≡ 22)))
        → 2 * schema.indexed_field_id_bits + r ≡ 19
        → rank % 2 ^ 24 / 2 ^ 19 ≡ tag
        → Reads3
            ((id_at schema rank (r + schema.indexed_field_id_bits), count)
              ∷ (id_at schema rank r, count2)
              ∷ [])
            (places (count + count2) rank r)
    unfolding embedded_fields_3 multi_positions_3
    two_fields_3 count count2 tag (inl e) sum tagged =
        let left = room 2 sum in
        let at = tagged ∙ e.2 in
        (
          rw (e.0, e.1, several, at, left.0, left.1) refl,
          rw (e.0, e.1, several, at, left.0, left.1) refl,
        )
    two_fields_3 count count2 tag (inr (inl e)) sum tagged =
        let left = room 2 sum in
        let at = tagged ∙ e.2 in
        (
          rw (e.0, e.1, several, at, left.0, left.1) refl,
          rw (e.0, e.1, several, at, left.0, left.1) refl,
        )
    two_fields_3 count count2 tag (inr (inr e)) sum tagged =
        let left = room 2 sum in
        let at = tagged ∙ e.2 in
        (
          rw (e.0, e.1, several, at, left.0, left.1) refl,
          rw (e.0, e.1, several, at, left.0, left.1) refl,
        )

    pub three_fields_3 :
        3 * schema.indexed_field_id_bits + r ≡ 19
        → rank % 2 ^ 24 / 2 ^ 19 ≡ 23
        → Reads3
            ((
              id_at schema rank (r + schema.indexed_field_id_bits + schema.indexed_field_id_bits),
              1,
            )
              ∷ (id_at schema rank (r + schema.indexed_field_id_bits), 1)
              ∷ (id_at schema rank r, 1)
              ∷ [])
            (places 3 rank r)
    unfolding embedded_fields_3 multi_positions_3
    three_fields_3 sum tag =
        let left = room 3 sum in
        (rw (several, tag, left.0, left.1) refl, rw (several, tag, left.0, left.1) refl)
