-- ===== src/Embed/FieldShapes.antt =====
-- One, two or three fields with their counts and positions.
use seek_storm.Base.{ℕ, ◌+◌, ◌-◌, ◌*◌, ◌^◌, ◌≤◌, List, [], ◌∷◌, ◌≡◌}
use seek_storm.Fields.Embedded.{FieldSchema, id_at}
use seek_storm.Embed.FieldIds.{AllIds, with_ids, Above, Above-up, id_at-Above}

-- As many counts as ids, none of them zero, and in all the number of the positions.
pub data Shared : List ℕ → List ℕ → ℕ → Type 0 where
  nothing : (n : ℕ) → n ≡ 0 → Shared [] [] n
  field :
      (id c n : ℕ) (ids counts : List ℕ)
      → 1 ≤ c
      → c ≤ n
      → Shared ids counts (n - c)
      → Shared (id ∷ ids) (c ∷ counts) n

-- The fields with their counts.
unfoldable pub with_counts : List ℕ → List ℕ → List (ℕ × ℕ)
with_counts [] counts = []
with_counts (id ∷ ids) [] = []
with_counts (id ∷ ids) (c ∷ counts) = (id, c) ∷ with_counts ids counts

module _ (schema : FieldSchema)
    (mask : schema.indexed_field_id_mask + 1 ≡ 2 ^ schema.indexed_field_id_bits)
    (rank r y : ℕ) where
  -- The ids of one, two or three fields.
  pub ids_1 :
      (i : ℕ)
      → AllIds schema.indexed_field_id_bits (i ∷ [])
      → Above r rank (with_ids schema.indexed_field_id_bits y (i ∷ []))
      → id_at schema rank r ≡ i
  unfolding with_ids
  ids_1 i all above = id_at-Above schema r rank y i mask all.0 above

  pub ids_2 :
      (i j : ℕ)
      → AllIds schema.indexed_field_id_bits (i ∷ j ∷ [])
      → Above r rank (with_ids schema.indexed_field_id_bits y (i ∷ j ∷ []))
      → (id_at schema rank (r + schema.indexed_field_id_bits) ≡ i) × (id_at schema rank r ≡ j)
  unfolding with_ids
  ids_2 i j all above =
      let b : ℕ = schema.indexed_field_id_bits in
      let first = Above-up r b rank (y * 2 ^ b + i) j all.1.0.0 above in
      (
        id_at-Above schema (r + b) rank y i mask all.0 first,
        id_at-Above schema r rank (y * 2 ^ b + i) j mask all.1.0 above,
      )

  pub ids_3 :
      (i j k : ℕ)
      → AllIds schema.indexed_field_id_bits (i ∷ j ∷ k ∷ [])
      → Above r rank (with_ids schema.indexed_field_id_bits y (i ∷ j ∷ k ∷ []))
      → (id_at schema rank (r + schema.indexed_field_id_bits + schema.indexed_field_id_bits) ≡ i)
        × (id_at schema rank (r + schema.indexed_field_id_bits) ≡ j)
        × (id_at schema rank r ≡ k)
  unfolding with_ids
  ids_3 i j k all above =
      let b : ℕ = schema.indexed_field_id_bits in
      let y1 : ℕ = y * 2 ^ b + i in
      let y2 : ℕ = y1 * 2 ^ b + j in
      let second = Above-up r b rank y2 k all.1.1.0.0 above in
      let first = Above-up (r + b) b rank y1 j all.1.0.0 second in
      (
        id_at-Above schema (r + b + b) rank y i mask all.0 first,
        id_at-Above schema (r + b) rank y1 j mask all.1.0 second,
        id_at-Above schema r rank y2 k mask all.1.1.0 above,
      )
