-- ===== src/Embed/Unpack.antt =====
-- Positions that were packed are taken out of a number again, whatever stands above them.
use native.Mathlib.Nat.{one-le-pow, div-one, mul-add-div_right, div-eq_of_lt}
use seek_storm.Base.{
  ℕ, zero, suc, ◌+◌, ◌-◌, ◌*◌, ◌/◌, ◌^◌, ◌<◌, List, [], ◌∷◌, length, bit_and, ◌≡◌, refl, sym, ap,
  ◌∙◌, arith,
}
use seek_storm.Base.Bits.{bit_and-low}
use seek_storm.Embed.Pack.{
  Fits, packed, packed-lt, first_bits, first_bits-le, split_power, shifted_sum,
}

-- `n` values of `r` bits in all.
unfoldable pub unpack : ℕ → ℕ → ℕ → List ℕ
unpack r zero rank = []
unpack r (suc zero) rank = bit_and rank (2 ^ r - 1) ∷ []
unpack r (suc (suc n)) rank =
    let w = r / suc (suc n) in
    bit_and (rank / 2 ^ (r - w)) (2 ^ w - 1) ∷ unpack (r - w) (suc n) rank

low_bits : (w x p : ℕ) → p < 2 ^ w → bit_and (x * 2 ^ w + p) (2 ^ w - 1) ≡ p
low_bits w x p h =
    bit_and-low w x (x * 2 ^ w) p (2 ^ w - 1) refl h (omega (arith, one-le-pow w 2 (omega arith)))

quotient : (x y u : ℕ) → y < u → (x * u + y) / u ≡ x
quotient x y u h = mul-add-div_right (omega arith) x y ∙ omega (arith, div-eq_of_lt h)

head_tail : {p q : ℕ} {ps qs : List ℕ} → p ≡ q → ps ≡ qs → p ∷ ps ≡ q ∷ qs
head_tail e f = rw (e, f) refl

pub unpack-packed :
    (r x : ℕ) (positions : List ℕ)
    → Fits r positions
    → unpack r (length positions) (x * 2 ^ r + packed r positions) ≡ positions
unfolding unpack packed
unpack-packed r x [] fit = refl
unpack-packed r x (p ∷ []) fit =
    let whole : r / 1 ≡ r = div-one r in
    let nothing : r - r / 1 ≡ 0 = omega arith in
    let below : p < 2 ^ r = rw (← whole) fit.0 in
    let value : x * 2 ^ r + (p * 2 ^ (r - r / 1) + 0) ≡ x * 2 ^ r + p = rw nothing (omega arith) in
    head_tail (ap (λ k. bit_and k (2 ^ r - 1)) value ∙ low_bits r x p below) refl
unpack-packed r x (p ∷ q ∷ positions) fit =
    let w : ℕ = first_bits r p (q ∷ positions) in
    let s : ℕ = r - w in
    let rank : x * 2 ^ r + packed r (p ∷ q ∷ positions)
        ≡ (x * 2 ^ w + p) * 2 ^ s + packed s (q ∷ positions) =
      ap (λ k. x * k + packed r (p ∷ q ∷ positions))
        (sym (split_power r w (first_bits-le r (suc (length positions)))))
      ∙ sym (shifted_sum x p (2 ^ s) (2 ^ w) (packed s (q ∷ positions))) in
    rw rank (
      head_tail
        (ap (λ k. bit_and k (2 ^ w - 1))
            (quotient (x * 2 ^ w + p) (packed s (q ∷ positions)) (2 ^ s)
              (packed-lt s (q ∷ positions) fit.1))
          ∙ low_bits w x p fit.0)
        (unpack-packed s (x * 2 ^ w + p) (q ∷ positions) fit.1))
