-- ===== src/Intersection/Bits.antt =====
-- What the masks and counts of the bits of a word do, as arithmetic.
use native.Mathlib.Nat.{pow-suc, one-le-pow, mul-add-mod_self_right}
use seek_storm.Base.{
  ℕ, zero, suc, ◌+◌, ◌-◌, ◌*◌, ◌/◌, ◌%◌, ◌^◌, ◌≤◌, ◌<◌, false, ◌==◌, bit_and, ◌≡◌, refl, sym, ap,
  ◌∙◌, arith,
}
use seek_storm.Base.Bits.{bit_and-low, bit_and-halves, bit_and-0}
use seek_storm.Embed.Pack.{pow_add}
use seek_storm.Intersection.{trailing_zeros, count_ones, clear_lowest, max_u64}

pub doubled : (k x : ℕ) → x * 2 ^ suc k ≡ x * 2 ^ k * 2
doubled k x = omega (arith, ap (λ p. x * p) (pow-suc 2 k))

halved : (k x a : ℕ) → (x * 2 ^ suc k + a) / 2 ≡ x * 2 ^ k + a / 2
halved k x a = omega (arith, doubled k x)

lowest : (k x a : ℕ) → (x * 2 ^ suc k + a) % 2 ≡ a % 2
lowest k x a = omega (arith, doubled k x)

half_below : (k a : ℕ) → a < 2 ^ suc k → a / 2 < 2 ^ k
half_below k a h = omega (arith, h, pow-suc 2 k)

-- The parts above and below a power of two meet only their like.
pub bit_and-split :
    (k x a y b : ℕ)
    → a < 2 ^ k
    → b < 2 ^ k
    → bit_and (x * 2 ^ k + a) (y * 2 ^ k + b) ≡ bit_and x y * 2 ^ k + bit_and a b
bit_and-split zero x a y b h g =
    let ea : a ≡ 0 = omega arith in
    let eb : b ≡ 0 = omega arith in
    let ex : x * 2 ^ 0 + a ≡ x = omega arith in
    let ey : y * 2 ^ 0 + b ≡ y = omega arith in
    ap (λ u. bit_and u (y * 2 ^ 0 + b)) ex
    ∙ ap (bit_and x) ey
    ∙ omega (arith, bit_and-0 0, ap (λ u. bit_and u b) ea, ap (bit_and 0) eb)
bit_and-split (suc k) x a y b h g =
    let hx : (x * 2 ^ suc k + a) / 2 ≡ x * 2 ^ k + a / 2 = halved k x a in
    let hy : (y * 2 ^ suc k + b) / 2 ≡ y * 2 ^ k + b / 2 = halved k y b in
    let rest = bit_and-split k x (a / 2) y (b / 2) (half_below k a h) (half_below k b g) in
    let upper : bit_and ((x * 2 ^ suc k + a) / 2) ((y * 2 ^ suc k + b) / 2)
        ≡ bit_and x y * 2 ^ k + bit_and (a / 2) (b / 2) =
      ap (λ u. bit_and u ((y * 2 ^ suc k + b) / 2)) hx
      ∙ ap (bit_and (x * 2 ^ k + a / 2)) hy
      ∙ rest in
    bit_and-halves (x * 2 ^ suc k + a) (y * 2 ^ suc k + b)
    ∙ rw (lowest k x a, lowest k y b)
        (omega (arith, upper, bit_and-halves a b, doubled k (bit_and x y)))

-- A zero or a one put above the bits of `a`.
pub count_ones-above :
    (bits k c a : ℕ)
    → a < 2 ^ k
    → c ≤ 1
    → k < bits
    → count_ones bits (c * 2 ^ k + a) ≡ c + count_ones bits a
unfolding count_ones
count_ones-above zero k c a h g le = absurd (omega arith)
count_ones-above (suc bits) zero c a h g le =
    let ea : a ≡ 0 = omega arith in
    let low : (c * 2 ^ 0 + a) % 2 ≡ c = omega arith in
    let rest : (c * 2 ^ 0 + a) / 2 ≡ a / 2 = omega arith in
    let none : a % 2 ≡ 0 = omega arith in rw (low, rest, none) (omega arith)
count_ones-above (suc bits) (suc k) c a h g le =
    rw (lowest k c a, halved k c a)
      (omega (arith, count_ones-above bits k c (a / 2) (half_below k a h) g (omega arith)))

pub trailing_zeros-odd : (bits k q : ℕ) → k < bits → trailing_zeros bits ((q * 2 + 1) * 2 ^ k) ≡ k
unfolding trailing_zeros
trailing_zeros-odd zero k q h = absurd (omega arith)
trailing_zeros-odd (suc bits) zero q h =
    let odd : (q * 2 + 1) * 2 ^ 0 % 2 ≡ 1 = omega arith in rw odd refl
trailing_zeros-odd (suc bits) (suc k) q h =
    let even : (q * 2 + 1) * 2 ^ suc k % 2 ≡ 0 = omega (arith, doubled k (q * 2 + 1)) in
    let half : (q * 2 + 1) * 2 ^ suc k / 2 ≡ (q * 2 + 1) * 2 ^ k =
      omega (arith, doubled k (q * 2 + 1)) in
    rw (even, half) (ap suc (trailing_zeros-odd bits k q (omega arith)))

pred_mul : (u p : ℕ) → 1 ≤ u → (u - 1) * p + p ≡ u * p
pred_mul zero p h = absurd (omega arith)
pred_mul (suc u) p h = let e : suc u - 1 ≡ u = omega arith in rw e (omega arith)

pred_mul_2 : (u p : ℕ) → 2 ≤ u → (u - 2) * p + p + p ≡ u * p
pred_mul_2 zero p h = absurd (omega arith)
pred_mul_2 (suc zero) p h = absurd (omega arith)
pred_mul_2 (suc (suc u)) p h = let e : suc (suc u) - 2 ≡ u = omega arith in rw e (omega arith)

pub nonzero : (p q : ℕ) → 1 ≤ p → ((q * 2 + 1) * p == 0) ≡ false
nonzero p q h = let positive : 1 ≤ (q * 2 + 1) * p = omega arith in ground arith

pub one_le_power : (k : ℕ) → 1 ≤ 2 ^ k
one_le_power k = one-le-pow k 2 (omega arith)

masked : (n w : ℕ) → w < 2 ^ n → bit_and w (2 ^ n - 1) ≡ w
masked n w h =
    let e : w ≡ 0 + w = omega arith in
    ap (λ x. bit_and x (2 ^ n - 1)) e
    ∙ bit_and-low n 0 0 w (2 ^ n - 1) (omega arith) h (omega (arith, one_le_power n))

-- An odd number without its lowest bit.
even_part : (n q : ℕ) → q < 2 ^ n → bit_and (q * 2 + 1) (2 ^ suc n - 2) ≡ q * 2
even_part n q h =
    let one : 1 ≤ 2 ^ n = one_le_power n in
    let power : 2 ^ suc n ≡ 2 ^ n * 2 = pow-suc 2 n in
    let half : (q * 2 + 1) / 2 ≡ q = omega arith in
    let mask : (2 ^ suc n - 2) / 2 ≡ 2 ^ n - 1 = omega arith in
    let even : (2 ^ suc n - 2) % 2 ≡ 0 = omega arith in
    bit_and-halves (q * 2 + 1) (2 ^ suc n - 2) ∙ rw (half, mask, even) (omega (arith, masked n q h))

-- The masks that a position makes.
module _ (k : ℕ) (h : k < 64) where
  split_64 : 2 ^ (64 - k) * 2 ^ k ≡ 2 ^ 64
  split_64 = sym (pow_add (64 - k) k) ∙ (let e : 64 - k + k ≡ 64 = omega arith in ap (λ e. 2 ^ e) e)

  pub high_mask : max_u64 * 2 ^ k % 2 ^ 64 ≡ (2 ^ (64 - k) - 1) * 2 ^ k
  high_mask =
      let p : ℕ = 2 ^ k in
      let u : ℕ = 2 ^ (64 - k) in
      let below : (u - 1) * p + p ≡ 2 ^ 64 = pred_mul u p (one_le_power (64 - k)) ∙ split_64 in
      let one : 1 ≤ p = one_le_power k in
      let e : max_u64 * p ≡ (p - 1) * 2 ^ 64 + (u - 1) * p = omega arith in
      ap (λ x. x % 2 ^ 64) e ∙ mul-add-mod_self_right (p - 1) (2 ^ 64) ((u - 1) * p) ∙ omega arith

  pub low_mask : max_u64 - max_u64 * 2 ^ k % 2 ^ 64 ≡ 2 ^ k - 1
  low_mask =
      let p : ℕ = 2 ^ k in
      let u : ℕ = 2 ^ (64 - k) in
      let below : (u - 1) * p + p ≡ 2 ^ 64 = pred_mul u p (one_le_power (64 - k)) ∙ split_64 in
      let one : 1 ≤ p = one_le_power k in omega (arith, high_mask)

  -- A word that ends with `a` below the position, split by the masks.
  pub low_part :
      (w a : ℕ) → a < 2 ^ k → bit_and (w * 2 ^ k + a) (max_u64 - max_u64 * 2 ^ k % 2 ^ 64) ≡ a
  low_part w a below =
      ap (bit_and (w * 2 ^ k + a)) low_mask
      ∙ bit_and-low k w (w * 2 ^ k) a (2 ^ k - 1) refl below (omega (arith, one_le_power k))

  pub high_part :
      (w a : ℕ)
      → a < 2 ^ k
      → w < 2 ^ (64 - k)
      → bit_and (w * 2 ^ k + a) (max_u64 * 2 ^ k % 2 ^ 64) ≡ w * 2 ^ k
  high_part w a below small =
      let one : 1 ≤ 2 ^ k = one_le_power k in
      let whole : bit_and w (2 ^ (64 - k) - 1) ≡ w = masked (64 - k) w small in
      let mask : max_u64 * 2 ^ k % 2 ^ 64 ≡ (2 ^ (64 - k) - 1) * 2 ^ k + 0 =
        omega (arith, high_mask) in
      ap (bit_and (w * 2 ^ k + a)) mask
      ∙ bit_and-split k w a (2 ^ (64 - k) - 1) 0 below (omega (arith, one))
      ∙ omega (arith, bit_and-0 a, ap (λ x. x * 2 ^ k) whole)

  -- The lowest bit of a word, cleared.
  pub clear_lowest-odd :
      (q : ℕ) → q * 2 + 1 < 2 ^ (64 - k) → clear_lowest ((q * 2 + 1) * 2 ^ k) ≡ q * 2 * 2 ^ k
  unfolding clear_lowest
  clear_lowest-odd q small =
      let one : 1 ≤ 2 ^ k = one_le_power k in
      let n : ℕ = 63 - k in
      let size : suc n ≡ 64 - k = omega arith in
      let power : 2 ^ suc n ≡ 2 ^ (64 - k) = ap (λ e. 2 ^ e) size in
      let word : (q * 2 + 1) * 2 ^ k ≡ (q * 2 + 1) * 2 ^ k + 0 = omega arith in
      let place : trailing_zeros 64 ((q * 2 + 1) * 2 ^ k) ≡ k = trailing_zeros-odd 64 k q h in
      let whole : (2 ^ suc n - 2) * 2 ^ k + 2 ^ k + 2 ^ k ≡ 2 ^ 64 =
        pred_mul_2 (2 ^ suc n) (2 ^ k) (omega (arith, pow-suc 2 n, one_le_power n))
        ∙ ap (λ x. x * 2 ^ k) power
        ∙ split_64 in
      let mask : max_u64 - 2 ^ k ≡ (2 ^ suc n - 2) * 2 ^ k + (2 ^ k - 1) = omega arith in
      let nonzero : ((q * 2 + 1) * 2 ^ k == 0) ≡ false = nonzero (2 ^ k) q one in
      let nothing : bit_and 0 (2 ^ k - 1) ≡ 0 = masked k 0 (omega arith) in
      rw (nonzero, place)
        (ap (bit_and ((q * 2 + 1) * 2 ^ k)) mask
          ∙ ap (λ x. bit_and x ((2 ^ suc n - 2) * 2 ^ k + (2 ^ k - 1))) word
          ∙ bit_and-split k (q * 2 + 1) 0 (2 ^ suc n - 2) (2 ^ k - 1) (omega arith) (omega arith)
          ∙ omega (
            arith,
            nothing,
            ap (λ x. x * 2 ^ k) (even_part n q (omega (arith, small, pow-suc 2 n))),
          ))

-- `n` bounds the number.
and_nothing : (n y : ℕ) → y ≤ n → bit_and 0 y ≡ 0
and_nothing n zero h = bit_and-0 0
and_nothing zero (suc y) h = absurd (omega arith)
and_nothing (suc n) (suc y) h =
    bit_and-halves 0 (suc y) ∙ omega (arith, and_nothing n (suc y / 2) (omega arith))

pub bit_and-below : (n x y : ℕ) → x < 2 ^ n → bit_and x y < 2 ^ n
bit_and-below zero x y h =
    let e : x ≡ 0 = omega arith in
    omega (arith, and_nothing y y (omega arith), ap (λ k. bit_and k y) e)
bit_and-below (suc n) x y h =
    omega
      (arith, bit_and-halves x y, pow-suc 2 n, bit_and-below n (x / 2) (y / 2) (half_below n x h))

pub count_ones-power : (k : ℕ) → k < 64 → count_ones 64 (1 * 2 ^ k + 0) ≡ 1
unfolding count_ones
count_ones-power k h = count_ones-above 64 k 1 0 (one_le_power k) (omega arith) h
