-- ===== src/Embed/FieldValue.antt =====
-- The number of an embedded posting with field ids, and the bytes that it is written as.
use native.Mathlib.Nat.{one-le-pow, mul-le-mul_left, mul-le-mul_right}
use seek_storm.Base.{
  ℕ, ◌+◌, ◌*◌, ◌/◌, ◌%◌, ◌^◌, ◌≤◌, ◌<◌, List, [], ◌∷◌, length, bit_and, bit_or, ◌≡◌, refl, sym, ap,
  ◌∙◌, arith,
}
use seek_storm.Base.Bits.{check_below, bit_or-shifted}
use seek_storm.Utils.{from_le_bytes}
use seek_storm.Embed.{pack_ids, pack_positions}
use seek_storm.Embed.Bytes.{two_bytes, three_bytes}
use seek_storm.Embed.Choice.{Embedded}
use seek_storm.Embed.FieldIds.{AllIds, with_ids, with_ids-above, pack_ids-with_ids}
use seek_storm.Embed.Pack.{packed, packed-lt, pack_positions-packed, pow_add, shifted_sum}

-- The product of the two powers, and what stays below it.
scaled :
    (i u v p : ℕ)
    → 1 ≤ u
    → i + 1 ≤ v
    → p < u
    → (i * u + p < v * u) × ((i + 1) * u ≤ v * u) × (v ≤ v * u)
scaled i u v p hu hi hp =
    let next : (i + 1) * u ≤ v * u = mul-le-mul_right u hi in
    (omega (arith, next), next, omega (arith, mul-le-mul_left v hu))

pub field_value :
    (width b r most : ℕ) (ids positions : List ℕ)
    → 2 ^ width ≤ 2 ^ 32
    → length ids * b + r ≡ width
    → AllIds b ids
    → Embedded r most positions
    → (pack_positions r (pack_ids b 0 ids) positions < 2 ^ width)
      × ((tag : ℕ)
          → pack_positions r (pack_ids b 0 ids) positions + tag * 2 ^ width
            ≡ with_ids b tag ids * 2 ^ r + packed r positions)
field_value width b r most ids positions small sum all embedded =
    let v : ℕ = 2 ^ (length ids * b) in
    let u : ℕ = 2 ^ r in
    let split : 2 ^ width ≡ v * u = ap (λ k. 2 ^ k) (sym sum) ∙ pow_add (length ids * b) r in
    let one : 1 ≤ u = one-le-pow r 2 (omega arith) in
    let below : packed r positions < u = packed-lt r positions embedded.2 in
    let room : (0 + 1) * v ≤ 2 ^ 32 = omega (arith, small, split, mul-le-mul_left v one) in
    let ids_value = pack_ids-with_ids b 0 ids all room in
    let i : ℕ = with_ids b 0 ids in
    let bounds = scaled i u v (packed r positions) one (omega (arith, ids_value.1)) below in
    let value : pack_positions r (pack_ids b 0 ids) positions ≡ i * u + packed r positions =
      ap (λ k. pack_positions r k positions) ids_value.0
      ∙ pack_positions-packed r i positions embedded.2 (omega (arith, bounds.1, split)) in
    (
      rw (value, split) bounds.0,
      λ tag.
          rw (value, split, with_ids-above b tag ids)
            (omega (arith, shifted_sum tag i u v (packed r positions))),
    )

-- The bytes of a value below a tag.
bit_or_nothing : (x y : ℕ) → y ≡ 0 → bit_or x y ≡ x
bit_or_nothing x y e = rw e (bit_or-shifted 0 x x 0 (omega arith) (omega arith) ∙ omega arith)

module _ (value : ℕ) where
  pub one_rank_2 :
      (c : ℕ)
      → value < 2 ^ 12
      → c ≤ 2
      → from_le_bytes
          (bit_and value 255 ∷ bit_or (bit_or (value / 2 ^ 8 % 256) 0x80) (c * 2 ^ 4 % 256) ∷ [])
        ≡ value + (c + 8) * 2 ^ 12
  unfolding check_below
  one_rank_2 c below h =
      two_bytes 4 128 64 c value refl (omega arith) (omega arith) (omega arith) ∙ omega arith

  pub several_rank_2 :
      value < 2 ^ 12
      → from_le_bytes (bit_and value 255 ∷ bit_or (value / 2 ^ 8 % 256) 0xb0 ∷ [])
        ≡ value + 11 * 2 ^ 12
  unfolding check_below
  several_rank_2 below =
      ap (λ x. from_le_bytes (bit_and value 255 ∷ x ∷ []))
        (sym (bit_or_nothing (bit_or (value / 2 ^ 8 % 256) 0xb0) (0 * 2 ^ 4 % 256) (omega arith)))
      ∙ two_bytes 4 0xb0 16 0 value refl (omega arith) (omega arith) (omega arith)
      ∙ omega arith

  pub rank_3 :
      (tag t next : ℕ)
      → value < 2 ^ 19
      → t ≤ 7
      → tag ≡ t * 2 ^ 3
      → from_le_bytes (
          bit_and value 255
          ∷ bit_and (value / 2 ^ 8) 255
          ∷ bit_or (bit_or (value / 2 ^ 16 % 256) 0x80) tag
          ∷ next
          ∷ [])
        ≡ value + (t + 16) * 2 ^ 19 + next * 2 ^ 24
  unfolding check_below
  rank_3 tag t next below h e =
      let byte : tag ≡ t * 2 ^ 3 % 256 = omega arith in
      rw byte (
        three_bytes 3 128 64 t value refl (omega arith) next (omega arith) (omega arith)
        ∙ omega arith)
