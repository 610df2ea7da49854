-- ===== src/Base/Bits.antt =====
-- Masks and shifts as arithmetic. Facts about one byte are tables checked by evaluation.
use Prim.Native.Nat.{
  ℕ, zero, suc, ◌+◌, ◌*◌, ◌/◌, ◌%◌, ◌^◌, ◌<◌, ◌≤◌, max, min, digits, bit_and, bit_or,
  bit_or-bitwise, bit_and-bitwise,
}
use native.Mathlib.Nat.{pow-suc, div-div-eq-div-mul}
use mathlib.Core.Path.{◌≡◌, refl, ap, ap₂, ◌∙◌}
use mathlib.Core.Bool.{Bool, true, ◌&&◌}
use native.Mathlib.Omega.{arith}
use seek_storm.Base.Tests.{◌==◌, ==_iff}

-- Whether `p` holds from 0 up to the number below `bound`.
unfoldable pub check_below : (ℕ → Bool) → ℕ → Bool
check_below p zero = true
check_below p (suc bound) = check_below p bound && p bound

check_below→true :
    (p : ℕ → Bool) (bound i : ℕ) → check_below p bound ≡ true → i < bound → p i ≡ true
unfolding check_below
check_below→true p zero i checked below = absurd (omega arith)
check_below→true p (suc bound) i checked below = ground (arith, check_below→true p bound i)

-- Two functions that agree at each number below `n`, by evaluation.
pub eq_below :
    (n : ℕ) (f g : ℕ → ℕ) (x : ℕ) → check_below (λ i. f i == g i) n ≡ true → x < n → f x ≡ g x
eq_below n f g x table h = (==_iff _ _).0 (check_below→true (λ i. f i == g i) n x table h)

pub bit_and-0x7f : (b : ℕ) → b < 256 → bit_and b 0x7f ≡ b % 128
unfolding check_below
bit_and-0x7f b h = eq_below 256 (λ b. bit_and b 0x7f) (λ b. b % 128) b refl h

pub bit_and-0x80 : (b : ℕ) → b < 256 → bit_and b 0x80 ≡ b / 128 * 128
unfolding check_below
bit_and-0x80 b h = eq_below 256 (λ b. bit_and b 0x80) (λ b. b / 128 * 128) b refl h

pub bit_or-0x80 : (b : ℕ) → b < 128 → bit_or b 0x80 ≡ b + 128
unfolding check_below
bit_or-0x80 b h = eq_below 128 (λ b. bit_or b 0x80) (λ b. b + 128) b refl h

digits_enough :
    (z : ℕ → ℕ) (f : ℕ → ℕ → ℕ) (n m a b : ℕ) → a ≤ n → a ≤ m → digits z f n a b ≡ digits z f m a b
digits_enough z f zero zero a b hn hm = refl
digits_enough z f zero (suc m) zero b hn hm = refl
digits_enough z f (suc n) zero zero b hn hm = refl
digits_enough z f (suc n) (suc m) zero b hn hm = refl
digits_enough z f zero m (suc a) b hn hm = absurd (omega arith)
digits_enough z f (suc n) zero (suc a) b hn hm = absurd (omega arith)
digits_enough z f (suc n) (suc m) (suc a) b hn hm =
    ap (λ d. d * 2 + f (suc a % 2) (b % 2))
      (digits_enough z f n m (suc a / 2) (b / 2) (omega arith) (omega arith))

-- The lowest digit, and the rest of them.
digits_halves :
    (z : ℕ → ℕ) (f : ℕ → ℕ → ℕ) (a b : ℕ)
    → digits z f (suc a) (suc a) b
      ≡ digits z f (suc a / 2) (suc a / 2) (b / 2) * 2 + f (suc a % 2) (b % 2)
digits_halves z f a b =
    ap (λ d. d * 2 + f (suc a % 2) (b % 2))
      (digits_enough z f a (suc a / 2) (suc a / 2) (b / 2) (omega arith) (omega arith))

bit_or-halves : (a b : ℕ) → bit_or a b ≡ bit_or (a / 2) (b / 2) * 2 + max (a % 2) (b % 2)
bit_or-halves zero b =
    let whole : bit_or 0 b ≡ b = bit_or-bitwise 0 b in
    let half : bit_or 0 (b / 2) ≡ b / 2 = bit_or-bitwise 0 (b / 2) in omega (arith, whole, half)
bit_or-halves (suc a) b = omega (
  arith,
  bit_or-bitwise (suc a) b,
  digits_halves (λ b. b) max a b,
  bit_or-bitwise (suc a / 2) (b / 2),
)

pub bit_and-halves : (a b : ℕ) → bit_and a b ≡ bit_and (a / 2) (b / 2) * 2 + min (a % 2) (b % 2)
bit_and-halves zero b =
    let whole : bit_and 0 b ≡ 0 = bit_and-bitwise 0 b in
    let half : bit_and 0 (b / 2) ≡ 0 = bit_and-bitwise 0 (b / 2) in omega (arith, whole, half)
bit_and-halves (suc a) b = omega (
  arith,
  bit_and-bitwise (suc a) b,
  digits_halves (λ b. 0) min a b,
  bit_and-bitwise (suc a / 2) (b / 2),
)

digits_and-0 : (n a : ℕ) → digits (λ b. 0) min n a 0 ≡ 0
digits_and-0 zero a = refl
digits_and-0 (suc n) zero = refl
digits_and-0 (suc n) (suc a) = omega (arith, digits_and-0 n (suc a / 2))

pub bit_and-0 : (a : ℕ) → bit_and a 0 ≡ 0
bit_and-0 a = bit_and-bitwise a 0 ∙ digits_and-0 a a

-- A mask of ones, one digit at a time.
pub bit_and-mask : (a m : ℕ) → bit_and a (m * 2 + 1) ≡ bit_and (a / 2) m * 2 + a % 2
bit_and-mask a m =
    let half : (m * 2 + 1) / 2 ≡ m = omega arith in
    omega (arith, bit_and-halves a (m * 2 + 1), ap (bit_and (a / 2)) half)

-- `a & 0b01111111` on a number of any width.
pub low_7 : (a : ℕ) → bit_and a 0x7f ≡ a % 128
low_7 a = omega (
  arith,
  bit_and-mask a 63,
  bit_and-mask (a / 2) 31,
  bit_and-mask (a / 2 / 2) 15,
  bit_and-mask (a / 2 / 2 / 2) 7,
  bit_and-mask (a / 2 / 2 / 2 / 2) 3,
  bit_and-mask (a / 2 / 2 / 2 / 2 / 2) 1,
  bit_and-mask (a / 2 / 2 / 2 / 2 / 2 / 2) 0,
  bit_and-0 (a / 2 / 2 / 2 / 2 / 2 / 2 / 2),
)

digits-0 : (n a : ℕ) → a ≤ n → digits (λ b. b) max n a 0 ≡ a
digits-0 zero a h = omega arith
digits-0 (suc n) zero h = refl
digits-0 (suc n) (suc a) h = omega (arith, digits-0 n (suc a / 2) (omega arith))

doubled : (k a x : ℕ) → x ≡ a * 2 ^ suc k → x ≡ a * 2 ^ k * 2
doubled k a x e = omega (arith, e, ap (λ p. a * p) (pow-suc 2 k))

halved : (k a x : ℕ) → x ≡ a * 2 ^ suc k → x / 2 ≡ a * 2 ^ k
halved k a x e = omega (arith, doubled k a x e)

-- `(a << k) | b` is a sum where `b` has `k` bits.
pub bit_or-shifted : (k a x b : ℕ) → x ≡ a * 2 ^ k → b < 2 ^ k → bit_or x b ≡ x + b
bit_or-shifted zero a x zero e h = omega (arith, bit_or-bitwise x 0, digits-0 x x (omega arith))
bit_or-shifted zero a x (suc b) e h = absurd (omega arith)
bit_or-shifted (suc k) a x b e h = omega (
  arith,
  doubled k a x e,
  bit_or-halves x b,
  bit_or-shifted k a (x / 2) (b / 2) (halved k a x e) (omega (arith, pow-suc 2 k)),
)

-- `(a << k) | (b << k)` is `(a | b) << k`.
pub bit_or-shift : (k a b x y : ℕ) → x ≡ a * 2 ^ k → y ≡ b * 2 ^ k → bit_or x y ≡ bit_or a b * 2 ^ k
bit_or-shift zero a b x y e e' =
    let ea : x ≡ a = omega arith in let eb : y ≡ b = omega arith in omega (arith, ap₂ bit_or ea eb)
bit_or-shift (suc k) a b x y e e' = omega (
  arith,
  doubled k a x e,
  doubled k b y e',
  ap (λ p. bit_or a b * p) (pow-suc 2 k),
  bit_or-halves x y,
  bit_or-shift k a b (x / 2) (y / 2) (halved k a x e) (halved k b y e'),
)

bit_or_nothing : (x : ℕ) → bit_or 0 x ≡ x
bit_or_nothing x = bit_or-bitwise 0 x

-- The same with the shifted number on the right.
pub bit_or-low : (k a x b : ℕ) → x ≡ a * 2 ^ k → b < 2 ^ k → bit_or b x ≡ x + b
bit_or-low zero a x zero e h = omega (arith, bit_or_nothing x)
bit_or-low zero a x (suc b) e h = absurd (omega arith)
bit_or-low (suc k) a x b e h = omega (
  arith,
  doubled k a x e,
  bit_or-halves b x,
  bit_or-low k a (x / 2) (b / 2) (halved k a x e) (omega (arith, pow-suc 2 k)),
)

-- A mask of `k` ones keeps the `k` bits of `b`.
pub bit_and-low :
    (k a x b m : ℕ) → x ≡ a * 2 ^ k → b < 2 ^ k → m + 1 ≡ 2 ^ k → bit_and (x + b) m ≡ b
bit_and-low zero a x b zero e h s = omega (arith, bit_and-0 (x + b))
bit_and-low zero a x b (suc m) e h s = absurd (omega arith)
bit_and-low (suc k) a x b m e h s =
    let half : (x + b) / 2 ≡ x / 2 + b / 2 = omega (arith, doubled k a x e) in
    omega (
      arith,
      doubled k a x e,
      bit_and-halves (x + b) m,
      ap (λ y. bit_and y (m / 2)) half,
      pow-suc 2 k,
      bit_and-low k a (x / 2) (b / 2) (m / 2) (halved k a x e) (omega (arith, pow-suc 2 k))
          (omega (arith, s, pow-suc 2 k)),
    )

-- A mask of a single bit.
pub bit_and-power : (k x m : ℕ) → m ≡ 2 ^ k → bit_and x m ≡ x / 2 ^ k % 2 * 2 ^ k
bit_and-power zero x m e =
    omega (arith, bit_and-halves x m, bit_and-0 (x / 2), ap (bit_and (x / 2)) (half_of m e))
  where
    half_of : (m : ℕ) → m ≡ 1 → m / 2 ≡ 0
    half_of m e = omega arith
bit_and-power (suc k) x m e =
    let power : m / 2 ≡ 2 ^ k = omega (arith, pow-suc 2 k) in
    let quotient : x / 2 / 2 ^ k ≡ x / 2 ^ suc k =
      div-div-eq-div-mul x 2 (2 ^ k) ∙ ap (λ d. x / d) (omega (arith, pow-suc 2 k)) in
    let rest : bit_and (x / 2) (m / 2) ≡ x / 2 ^ suc k % 2 * 2 ^ k =
      bit_and-power k (x / 2) (m / 2) power ∙ ap (λ d. d % 2 * 2 ^ k) quotient in
    bit_and-halves x m
    ∙ omega (arith, rest, pow-suc 2 k, ap (λ d. x / 2 ^ suc k % 2 * d) (pow-suc 2 k))
