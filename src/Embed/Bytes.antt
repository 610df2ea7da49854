-- ===== src/Embed/Bytes.antt =====
-- The bytes of an embedded posting make up the number of its positions below a tag.
use native.Mathlib.Nat.{mul-add-div_right, mul-add-mod_self_right, div-eq_of_lt, mod-eq_of_lt}
use seek_storm.Base.{
  ℕ, suc, ◌+◌, ◌*◌, ◌/◌, ◌%◌, ◌^◌, ◌≤◌, ◌<◌, List, [], ◌∷◌, true, ok, length, ◌==◌, bit_and, bit_or,
  ◌≡◌, refl, ap, ◌∙◌, arith, At, slice_of_At, At-bound,
}
use seek_storm.Base.Bits.{bit_and-low, check_below, eq_below}
use seek_storm.Utils.{from_le_bytes, read_le, read_slice, to_array}

low_byte : (x : ℕ) → bit_and x 255 ≡ x % 256
low_byte x =
    let e : x ≡ x / 256 * 256 + x % 256 = omega arith in
    ap (λ k. bit_and k 255) e
    ∙ bit_and-low 8 (x / 256) (x / 256 * 256) (x % 256) 255 refl (omega arith) refl

-- A byte whose high bits are set one after the other.
abbrev tagged : ℕ → ℕ → ℕ → ℕ
tagged k flag x = bit_or (bit_or (x % 2 ^ k) flag) (x / 2 ^ k * 2 ^ k % 256)

abbrev pub TagTable : ℕ → ℕ → ℕ → Type 0
TagTable k flag bound = check_below (λ x. tagged k flag x == x + flag) bound ≡ true

or_flag :
    (k flag bound v c : ℕ)
    → TagTable k flag bound
    → v < 2 ^ k
    → v + c * 2 ^ k < bound
    → bit_or (bit_or v flag) (c * 2 ^ k % 256) ≡ v + c * 2 ^ k + flag
or_flag k flag bound v c table h small =
    let place : (c * 2 ^ k + v) / 2 ^ k ≡ c =
      mul-add-div_right (omega arith) c v ∙ ap (λ q. c + q) (div-eq_of_lt h) ∙ omega arith in
    let low : (c * 2 ^ k + v) % 2 ^ k ≡ v = mul-add-mod_self_right c (2 ^ k) v ∙ mod-eq_of_lt h in
    let found : tagged k flag (c * 2 ^ k + v) ≡ c * 2 ^ k + v + flag =
      eq_below bound (tagged k flag) (λ x. x + flag) (c * 2 ^ k + v) table (omega arith) in
    omega (arith, rw (place, low) at found)

module _ (k flag bound c value : ℕ) (table : TagTable k flag bound) (byte : bound ≤ 256) where
  fits : {v : ℕ} → v + c * 2 ^ k < bound → v % 256 ≡ v
  fits h = omega arith

  pub two_bytes :
      value < 2 ^ k * 256
      → value / 256 + c * 2 ^ k < bound
      → from_le_bytes
          (bit_and value 255 ∷ bit_or (bit_or (value / 2 ^ 8 % 256) flag) (c * 2 ^ k % 256) ∷ [])
        ≡ value + (flag + c * 2 ^ k) * 256
  unfolding from_le_bytes
  two_bytes h small = omega (
    arith,
    low_byte value,
    or_flag k flag bound (value / 256) c table (omega arith) small,
    ap (λ b. bit_or (bit_or b flag) (c * 2 ^ k % 256)) (fits small),
  )

  pub three_bytes :
      (next : ℕ)
      → value < 2 ^ k * 65536
      → value / 65536 + c * 2 ^ k < bound
      → from_le_bytes (
          bit_and value 255
          ∷ bit_and (value / 2 ^ 8) 255
          ∷ bit_or (bit_or (value / 2 ^ 16 % 256) flag) (c * 2 ^ k % 256)
          ∷ next
          ∷ [])
        ≡ value + (flag + c * 2 ^ k) * 65536 + next * 2 ^ 24
  unfolding from_le_bytes
  three_bytes next h small = omega (
    arith,
    low_byte value,
    low_byte (value / 256),
    or_flag k flag bound (value / 65536) c table (omega arith) small,
    ap (λ b. bit_or (bit_or b flag) (c * 2 ^ k % 256)) (fits small),
  )

-- A reader of as many bytes returns their number.
pub read_le-bytes :
    (vec8 : List ℕ) (pos b : ℕ) (bytes : List ℕ)
    → At vec8 pos (b ∷ bytes)
    → read_le vec8 pos (suc (length bytes)) ≡ ok (from_le_bytes (b ∷ bytes))
unfolding read_le read_slice to_array
read_le-bytes vec8 pos b bytes a =
    ground (arith, slice_of_At vec8 pos (b ∷ bytes) a, At-bound vec8 pos b bytes a)
