-- ===== src/Embed/Pack.antt =====
-- Positions that share out a number of bits are found again at their places.
use native.Mathlib.Nat.{
  pow-suc, one-le-pow, div-le_self, mul-le-mul_right, mul-le-mul_left, mul_assoc,
}
use seek_storm.Base.{
  ℕ, zero, suc, ◌+◌, ◌-◌, ◌*◌, ◌/◌, ◌%◌, ◌^◌, ◌≤◌, ◌<◌, List, [], ◌∷◌, length, ◌≡◌, refl, sym, ap,
  ◌∙◌, arith,
}
use seek_storm.Base.Bits.{bit_or-shifted}
use seek_storm.Fields.{bit_length}
use seek_storm.Embed.{push_bits, pack_positions}

pub pow_add : (a b : ℕ) → 2 ^ (a + b) ≡ 2 ^ a * 2 ^ b
pow_add a zero = let e : a + 0 ≡ a = omega arith in rw e (omega arith)
pow_add a (suc b) =
    let e : a + suc b ≡ suc (a + b) = omega arith in
    rw e (
      omega (
        arith,
        pow-suc 2 (a + b),
        pow-suc 2 b,
        ap (λ p. p * 2) (pow_add a b),
        ap (λ p. 2 ^ a * p) (pow-suc 2 b),
      ))

pub lt_of_bit_length : (bits v w : ℕ) → v < 2 ^ bits → bit_length bits v ≤ w → v < 2 ^ w
unfolding bit_length
lt_of_bit_length zero v w h le = omega (arith, one-le-pow w 2 (omega arith))
lt_of_bit_length (suc bits) zero w h le = omega (arith, one-le-pow w 2 (omega arith))
lt_of_bit_length (suc bits) (suc v) zero h le = absurd (ground arith)
lt_of_bit_length (suc bits) (suc v) (suc w) h le = omega (
  arith,
  pow-suc 2 w,
  lt_of_bit_length bits (suc v / 2) w (omega (arith, h, pow-suc 2 bits)) (ground arith),
)

-- The low part stays below the next multiple.
below_product : (p q v a b : ℕ) → p < a → v < b → p * b + v < a * b
below_product p q v a b h k = grind arith

-- The number of bits that the first of the positions takes.
abbrev pub first_bits : ℕ → ℕ → List ℕ → ℕ
first_bits r p positions = r / length (p ∷ positions)

abbrev pub Fits : ℕ → List ℕ → Type 0
Fits r [] = r ≡ 0
Fits r (p ∷ positions) =
    (p < 2 ^ first_bits r p positions) × Fits (r - first_bits r p positions) positions

-- The number that the positions make up.
unfoldable pub packed : ℕ → List ℕ → ℕ
packed r [] = 0
packed r (p ∷ positions) =
    p * 2 ^ (r - first_bits r p positions) + packed (r - first_bits r p positions) positions

pub first_bits-le : (r n : ℕ) → r / suc n ≤ r
first_bits-le r n = div-le_self r (suc n)

pub split_power : (r w : ℕ) → w ≤ r → 2 ^ w * 2 ^ (r - w) ≡ 2 ^ r
split_power r w h =
    let e : w + (r - w) ≡ r = omega arith in sym (pow_add w (r - w)) ∙ ap (λ k. 2 ^ k) e

pub packed-lt : (r : ℕ) (positions : List ℕ) → Fits r positions → packed r positions < 2 ^ r
unfolding packed
packed-lt r [] fit = omega (arith, one-le-pow r 2 (omega arith))
packed-lt r (p ∷ positions) fit =
    let w : ℕ = first_bits r p positions in
    rw (← split_power r w (first_bits-le r (length positions))) (
      below_product p 0 (packed (r - w) positions) (2 ^ w) (2 ^ (r - w)) fit.0
        (packed-lt (r - w) positions fit.1))

-- One step of packing, where the number stays below 2 ^ 32.
pub push_bits-add : (a w p : ℕ) → p < 2 ^ w → a * 2 ^ w < 2 ^ 32 → push_bits a w p ≡ a * 2 ^ w + p
push_bits-add a w p h small =
    let e : a * 2 ^ w % 2 ^ 32 ≡ a * 2 ^ w = omega arith in
    rw e (bit_or-shifted w a (a * 2 ^ w) p refl h)

-- A number a, shifted past p: u and v are the powers of 2.
pub shifted-lt : (a u v m : ℕ) → 1 ≤ u → 1 ≤ v → (a + 1) * (v * u) ≤ m → a * v < m
shifted-lt a u v m hu hv room =
    omega (arith, room, mul-le-mul_left ((a + 1) * v) hu, mul_assoc (a + 1) v u, hv)

pub shifted_room : (a p u v m : ℕ) → p < v → (a + 1) * (v * u) ≤ m → (a * v + p + 1) * u ≤ m
shifted_room a p u v m h room =
    let next : a * v + p + 1 ≤ (a + 1) * v = omega (arith, h) in
    omega (arith, room, mul-le-mul_right u next, mul_assoc (a + 1) v u)

pub shifted_sum : (a p u v x : ℕ) → (a * v + p) * u + x ≡ a * (v * u) + (p * u + x)
shifted_sum a p u v x = omega (arith, mul_assoc a v u)

pub pack_positions-packed :
    (r a : ℕ) (positions : List ℕ)
    → Fits r positions
    → (a + 1) * 2 ^ r ≤ 2 ^ 32
    → pack_positions r a positions ≡ a * 2 ^ r + packed r positions
unfolding pack_positions packed
pack_positions-packed r a [] fit room = rw fit (omega arith)
pack_positions-packed r a (p ∷ positions) fit room =
    let w : ℕ = first_bits r p positions in
    let s : ℕ = r - w in
    let le : w ≤ r = first_bits-le r (length positions) in
    let split : 2 ^ w * 2 ^ s ≡ 2 ^ r = split_power r w le in
    let room : (a + 1) * (2 ^ w * 2 ^ s) ≤ 2 ^ 32 = rw split room in
    let small : a * 2 ^ w < 2 ^ 32 =
      shifted-lt a (2 ^ s) (2 ^ w) (2 ^ 32) (one-le-pow s 2 (omega arith))
        (one-le-pow w 2 (omega arith)) room in
    let rest : pack_positions s (a * 2 ^ w + p) positions
        ≡ (a * 2 ^ w + p) * 2 ^ s + packed s positions =
      pack_positions-packed s (a * 2 ^ w + p) positions fit.1
        (shifted_room a p (2 ^ s) (2 ^ w) (2 ^ 32) fit.0 room) in
    rw (push_bits-add a w p fit.0 small) (
      rest
      ∙ shifted_sum a p (2 ^ s) (2 ^ w) (packed s positions)
      ∙ ap (λ q. a * q + packed r (p ∷ positions)) split)
