-- ===== src/Embed/FieldIds.antt =====
-- The field ids above the positions of an embedded posting are read as they were packed.
use native.Mathlib.Nat.{one-le-pow, mul_assoc, mul-le-mul_right, mul-add-div_right, div-eq_of_lt}
use seek_storm.Base.{
  ℕ, suc, ◌+◌, ◌*◌, ◌/◌, ◌^◌, ◌≤◌, ◌<◌, List, [], ◌∷◌, length, bit_and, ◌≡◌, refl, ap, ◌∙◌, arith,
}
use seek_storm.Base.Bits.{bit_and-low}
use seek_storm.Fields.Embedded.{FieldSchema, id_at}
use seek_storm.Embed.{pack_ids, push_bits}
use seek_storm.Embed.Pack.{pow_add, push_bits-add, shifted_room, shifted_sum, shifted-lt}

-- Field ids that take `bits` bits, and are u16.
abbrev pub AllIds : ℕ → List ℕ → Type 0
AllIds bits [] = Unit
AllIds bits (id ∷ ids) = ((id < 2 ^ bits) × (id < 65536)) × AllIds bits ids

-- The ids below a number.
unfoldable pub with_ids : ℕ → ℕ → List ℕ → ℕ
with_ids bits a [] = a
with_ids bits a (id ∷ ids) = with_ids bits (a * 2 ^ bits + id) ids

suc_bits : (n bits : ℕ) → 2 ^ (suc n * bits) ≡ 2 ^ bits * 2 ^ (n * bits)
suc_bits n bits =
    let e : suc n * bits ≡ bits + n * bits = omega arith in
    ap (λ k. 2 ^ k) e ∙ pow_add bits (n * bits)

pub with_ids-above :
    (bits a : ℕ) (ids : List ℕ)
    → with_ids bits a ids ≡ a * 2 ^ (length ids * bits) + with_ids bits 0 ids
unfolding with_ids
with_ids-above bits a [] = let e : 0 * bits ≡ 0 = omega arith in rw e (omega arith)
with_ids-above bits a (id ∷ ids) =
    let u : ℕ = 2 ^ (length ids * bits) in
    let here = with_ids-above bits (a * 2 ^ bits + id) ids in
    let alone = with_ids-above bits (0 * 2 ^ bits + id) ids in
    here
    ∙ rw (suc_bits (length ids) bits, alone)
        (omega (arith, shifted_sum a id u (2 ^ bits) (with_ids bits 0 ids)))

pub pack_ids-with_ids :
    (bits a : ℕ) (ids : List ℕ)
    → AllIds bits ids
    → (a + 1) * 2 ^ (length ids * bits) ≤ 2 ^ 32
    → (pack_ids bits a ids ≡ with_ids bits a ids)
      × (with_ids bits a ids + 1 ≤ (a + 1) * 2 ^ (length ids * bits))
unfolding pack_ids with_ids
pack_ids-with_ids bits a [] small room =
    let e : 0 * bits ≡ 0 = omega arith in (refl, rw e (omega arith))
pack_ids-with_ids bits a (id ∷ ids) small room =
    let v : ℕ = 2 ^ bits in
    let u : ℕ = 2 ^ (length ids * bits) in
    let split : 2 ^ (suc (length ids) * bits) ≡ v * u = suc_bits (length ids) bits in
    let whole : (a + 1) * (v * u) ≤ 2 ^ 32 = rw (← split) room in
    let pushed : push_bits a bits id ≡ a * v + id = push_bits-add a bits id small.0.0 (
      shifted-lt a u v (2 ^ 32) (one-le-pow (length ids * bits) 2 (omega arith))
        (one-le-pow bits 2 (omega arith)) whole) in
    let rest =
      pack_ids-with_ids bits (a * v + id) ids small.1
        (shifted_room a id u v (2 ^ 32) small.0.0 whole) in
    let bound : (a * v + id + 1) * u ≤ (a + 1) * (v * u) =
      shifted_room a id u v ((a + 1) * (v * u)) small.0.0 (omega arith) in
    (ap (λ k. pack_ids bits k ids) pushed ∙ rest.0, rw split (omega (arith, rest.1, bound)))

-- `y` stands in `rank` above `s` bits.
abbrev pub Above : ℕ → ℕ → ℕ → Type 0
Above s rank y = (low : ℕ) × (low < 2 ^ s) × (rank ≡ y * 2 ^ s + low)

below_multiple : (q low u v : ℕ) → q < v → low < u → q * u + low < v * u
below_multiple q low u v h g =
    let next : (q + 1) * u ≤ v * u = mul-le-mul_right u (omega (arith, h)) in omega (arith, g, next)

pub Above-up :
    (s bits rank y id : ℕ)
    → id < 2 ^ bits
    → Above s rank (y * 2 ^ bits + id)
    → Above (s + bits) rank y
Above-up s bits rank y id h above =
    let v : ℕ = 2 ^ bits in
    let u : ℕ = 2 ^ s in
    let split : 2 ^ (s + bits) ≡ u * v = pow_add s bits in
    (
      id * u + above.0,
      rw split (omega (arith, above.1, below_multiple id above.0 u v h above.1)),
      rw split (above.2 ∙ omega (arith, mul_assoc y v u)),
    )

pub id_at-Above :
    (schema : FieldSchema) (s rank y id : ℕ)
    → schema.indexed_field_id_mask + 1 ≡ 2 ^ schema.indexed_field_id_bits
    → (id < 2 ^ schema.indexed_field_id_bits) × (id < 65536)
    → Above s rank (y * 2 ^ schema.indexed_field_id_bits + id)
    → id_at schema rank s ≡ id
id_at-Above schema s rank y id mask small above =
    let bits : ℕ = schema.indexed_field_id_bits in
    let quotient : rank / 2 ^ s ≡ y * 2 ^ bits + id =
      ap (λ k. k / 2 ^ s) above.2
      ∙ mul-add-div_right (omega (arith, above.1)) (y * 2 ^ bits + id) above.0
      ∙ omega (arith, div-eq_of_lt above.1) in
    let masked : bit_and (rank / 2 ^ s) schema.indexed_field_id_mask ≡ id =
      ap (λ k. bit_and k schema.indexed_field_id_mask) quotient
      ∙ bit_and-low bits y (y * 2 ^ bits) id schema.indexed_field_id_mask refl small.0 mask in
    omega (arith, masked, small.1)
