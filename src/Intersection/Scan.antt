-- ===== src/Intersection/Scan.antt =====
-- The loop over the common bits of two words is a walk over their 64 places.
use native.Mathlib.Nat.{pow-suc, mul-le-mul_right}
use seek_storm.Base.{
  ℕ, zero, suc, ◌+◌, ◌-◌, ◌*◌, ◌/◌, ◌%◌, ◌^◌, ◌≤◌, ◌<◌, true, ◌&&◌, Run, ok, panic, out_of_fuel,
  ◌>>=◌, ltb, ◌==◌, if◌then◌else◌, bit_and, min, ◌≡◌, refl, sym, ap, ◌∙◌, arith, inl, inr,
  Bool-cases,
}
use seek_storm.Base.Bits.{bit_and-halves, bit_and-0}
use seek_storm.Intersection.{Progress, while_bits, count_ones}
use seek_storm.Intersection.Bits.{
  count_ones-above, trailing_zeros-odd, low_part, high_part, clear_lowest-odd, nonzero,
  one_le_power, doubled, bit_and-below, count_ones-power,
}

pub bind_same {ℓ} :
    {A : Type ℓ} {B : Type ℓ} (m : Run A) {f g : A → Run B}
    → ((a : A) → f a ≡ g a)
    → m >>= f ≡ m >>= g
bind_same (ok a) e = e a
bind_same panic e = refl
bind_same out_of_fuel e = refl

module _ {ℓ} {S : Type ℓ} where
  -- The ranks, further by the postings passed.
  abbrev pub advance : ℕ → ℕ → Progress S → Progress S
  advance c0 c1 progress = record progress {
    p_docid_0 = progress.p_docid_0 + c0;
    p_docid_1 = progress.p_docid_1 + c1;
  }

  advance-advance :
      (c0 c1 d0 d1 : ℕ) (progress : Progress S)
      → advance d0 d1 (advance c0 c1 progress) ≡ advance (d0 + c0) (d1 + c1) progress
  advance-advance c0 c1 d0 d1 progress =
      rw (sum progress.p_docid_0 c0 d0, sum progress.p_docid_1 c1 d1) refl
    where
      sum : (p c d : ℕ) → p + c + d ≡ p + (d + c)
      sum p c d = omega arith

  pub advance_nothing : (progress : Progress S) → advance 0 0 progress ≡ progress
  advance_nothing progress = rw (none progress.p_docid_0, none progress.p_docid_1) refl
    where
      none : (p : ℕ) → p + 0 ≡ p
      none p = omega arith

  module _ (add_result : ℕ → Progress S → Run (Progress S)) where
    -- `n` places from the document `doc_id` on: a document whose bit is set in both words is added,
    -- with the ranks of its postings, and a bit that is set moves the rank of its list.
    unfoldable pub scan : ℕ → ℕ → ℕ → ℕ → Progress S → Run (Progress S)
    scan zero doc_id w0 w1 progress = ok progress
    scan (suc n) doc_id w0 w1 progress = do
      added ← if w0 % 2 == 1 && w1 % 2 == 1 then add_result doc_id progress else ok progress
      scan n (suc doc_id) (w0 / 2) (w1 / 2) (advance (w0 % 2) (w1 % 2) added)

    last_turn :
        (fuel base x y i : ℕ) (progress : Progress S)
        → i ≡ 0
        → while_bits add_result (suc fuel) base x y i progress
          ≡ ok (advance (count_ones 64 x) (count_ones 64 y) progress)
    unfolding while_bits
    last_turn fuel base x y i progress e = rw e refl

    -- One turn of the loop, at the lowest common bit.
    turn :
        (fuel base k q w0 w1 a0 a1 : ℕ) (progress : Progress S)
        → k < 64
        → w0 < 2 ^ (64 - k)
        → w1 < 2 ^ (64 - k)
        → q * 2 + 1 < 2 ^ (64 - k)
        → a0 < 2 ^ k
        → a1 < 2 ^ k
        → while_bits add_result
            (suc fuel)
            base
            (w0 * 2 ^ k + a0)
            (w1 * 2 ^ k + a1)
            ((q * 2 + 1) * 2 ^ k)
            progress
          ≡ (do
            added ← add_result (base + k) (advance (count_ones 64 a0) (count_ones 64 a1) progress)
            while_bits add_result fuel base (w0 * 2 ^ k) (w1 * 2 ^ k) (q * 2 * 2 ^ k) added)
    unfolding while_bits count_ones
    turn fuel base zero q w0 w1 a0 a1 progress h s0 s1 sq b0 b1 =
        let e0 : a0 ≡ 0 = omega arith in
        let e1 : a1 ≡ 0 = omega arith in
        let same : (w : ℕ) → w * 2 ^ 0 + 0 ≡ w * 2 ^ 0 = λ w. omega arith in
        rw
          (
            nonzero (2 ^ 0) q (omega arith),
            clear_lowest-odd 0 h q sq,
            trailing_zeros-odd 64 0 q h,
            e0,
            e1,
            same w0,
            same w1,
          )
          (ap
            (λ p. add_result (base + 0) p >>= λ added.
              while_bits add_result fuel base (w0 * 2 ^ 0) (w1 * 2 ^ 0) (q * 2 * 2 ^ 0) added)
            (sym (advance_nothing progress)))
    turn fuel base (suc k) q w0 w1 a0 a1 progress h s0 s1 sq b0 b1 =
        let positive : ltb 0 (suc k) ≡ true = ground arith in
        rw
          (
            nonzero (2 ^ suc k) q (one_le_power (suc k)),
            clear_lowest-odd (suc k) h q sq,
            trailing_zeros-odd 64 (suc k) q h,
            positive,
            low_part (suc k) h w0 a0 b0,
            low_part (suc k) h w1 a1 b1,
            high_part (suc k) h w0 a0 b0 s0,
            high_part (suc k) h w1 a1 b1 s1,
          )
          refl

    -- The lowest bit joins the bits below it.
    regroup : (k w a : ℕ) → w * 2 ^ k + a ≡ w / 2 * 2 ^ suc k + (w % 2 * 2 ^ k + a)
    regroup k w a =
        let e : w ≡ w / 2 * 2 + w % 2 = omega arith in
        omega (arith, doubled k (w / 2), ap (λ x. x * 2 ^ k) e)

    doubled_at : (k q : ℕ) → q * 2 ^ suc k ≡ q * 2 * 2 ^ k
    doubled_at k q = omega (arith, doubled k q)

    grown : (k c a : ℕ) → c ≤ 1 → a < 2 ^ k → c * 2 ^ k + a < 2 ^ suc k
    grown k c a h g = omega (arith, pow-suc 2 k, mul-le-mul_right (2 ^ k) h)

    regroup_odd : (k w : ℕ) → w % 2 ≡ 1 → w * 2 ^ k ≡ w / 2 * 2 ^ suc k + (1 * 2 ^ k + 0)
    regroup_odd k w odd = omega (arith, regroup k w 0, ap (λ c. c * 2 ^ k) odd)

    pub while_bits-scan :
        (n k w0 w1 a0 a1 fuel base : ℕ) (progress : Progress S)
        → n + k ≡ 64
        → w0 < 2 ^ n
        → w1 < 2 ^ n
        → a0 < 2 ^ k
        → a1 < 2 ^ k
        → n < fuel
        → while_bits add_result fuel base
            (w0 * 2 ^ k + a0)
            (w1 * 2 ^ k + a1)
            (bit_and w0 w1 * 2 ^ k)
            progress
          ≡ scan n (base + k) w0 w1 (advance (count_ones 64 a0) (count_ones 64 a1) progress)
    unfolding scan
    while_bits-scan n k w0 w1 a0 a1 zero base progress sum s0 s1 b0 b1 more = absurd (omega arith)
    while_bits-scan zero k w0 w1 a0 a1 (suc fuel) base progress sum s0 s1 b0 b1 more =
        let e : (w a : ℕ) → w < 1 → w * 2 ^ k + a ≡ a =
          λ w a h. let z : w ≡ 0 = omega arith in rw z (omega arith) in
        let z : w0 ≡ 0 = omega arith in
        let z1 : w1 ≡ 0 = omega arith in
        let i : bit_and w0 w1 * 2 ^ k ≡ 0 =
          rw (z, z1) (ap (λ x. x * 2 ^ k) (bit_and-0 0) ∙ omega arith) in
        rw (e w0 a0 s0, e w1 a1 s1) (last_turn fuel base a0 a1 (bit_and w0 w1 * 2 ^ k) progress i)
    while_bits-scan (suc n) k w0 w1 a0 a1 (suc fuel) base progress sum s0 s1 b0 b1 more =
        elim (Bool-cases (w0 % 2 == 1 && w1 % 2 == 1)) [
          | inl both ↦
              let low : min (w0 % 2) (w1 % 2) ≡ 1 = ground arith in
              let odd0 : w0 % 2 ≡ 1 = ground arith in
              let odd1 : w1 % 2 ≡ 1 = ground arith in
              let q : ℕ = bit_and (w0 / 2) (w1 / 2) in
              let common : bit_and w0 w1 ≡ q * 2 + 1 = omega (arith, bit_and-halves w0 w1) in
              let found : Run (Progress S) =
                add_result (base + k) (advance (count_ones 64 a0) (count_ones 64 a1) progress) in
              let size : 64 - k ≡ suc n = omega arith in
              let below : q * 2 + 1 < 2 ^ suc n = omega (
                arith,
                pow-suc 2 n,
                bit_and-below n (w0 / 2) (w1 / 2) (omega (arith, s0, pow-suc 2 n)),
              ) in
              let here =
                turn fuel base k q w0 w1 a0 a1 progress (omega arith) (rw size s0) (rw size s1)
                  (rw size below) b0 b1 in
              let rest = λ (added : Progress S).
                while_bits-scan n (suc k) (w0 / 2) (w1 / 2) (1 * 2 ^ k + 0) (1 * 2 ^ k + 0) fuel
                  base added (omega arith) (omega (arith, s0, pow-suc 2 n))
                  (omega (arith, s1, pow-suc 2 n)) (grown k 1 0 (omega arith) (one_le_power k))
                  (grown k 1 0 (omega arith) (one_le_power k)) (omega arith) in
              let one : count_ones 64 (1 * 2 ^ k + 0) ≡ 1 = count_ones-power k (omega arith) in
              let place : base + suc k ≡ suc (base + k) = omega arith in
              let entry : (added : Progress S)
                  → while_bits add_result fuel base (w0 * 2 ^ k) (w1 * 2 ^ k) (q * 2 * 2 ^ k) added
                    ≡ scan n (suc (base + k)) (w0 / 2) (w1 / 2) (advance 1 1 added) =
                λ added.
                  rw (regroup_odd k w0 odd0, regroup_odd k w1 odd1, ← doubled_at k q)
                    (rw (one, place) at (rest added)) in
              rw (both, odd0, odd1)
                (ap
                    (λ i.
                      while_bits add_result (suc fuel) base (w0 * 2 ^ k + a0) (w1 * 2 ^ k + a1) i
                        progress)
                    (ap (λ x. x * 2 ^ k) common)
                  ∙ here
                  ∙ bind_same found entry)
          | inr other ↦
              let low : min (w0 % 2) (w1 % 2) ≡ 0 = ground arith in
              let common : bit_and w0 w1 * 2 ^ k ≡ bit_and (w0 / 2) (w1 / 2) * 2 ^ suc k =
                ap (λ x. x * 2 ^ k) (bit_and-halves w0 w1)
                ∙ rw low (omega (arith, doubled k (bit_and (w0 / 2) (w1 / 2)))) in
              let rest =
                while_bits-scan n (suc k) (w0 / 2) (w1 / 2) (w0 % 2 * 2 ^ k + a0)
                  (w1 % 2 * 2 ^ k + a1) (suc fuel) base progress (omega arith)
                  (omega (arith, s0, pow-suc 2 n)) (omega (arith, s1, pow-suc 2 n))
                  (grown k (w0 % 2) a0 (omega arith) b0) (grown k (w1 % 2) a1 (omega arith) b1)
                  (omega arith) in
              let place : base + suc k ≡ suc (base + k) = omega arith in
              rw (other, regroup k w0 a0, regroup k w1 a1, common)
                (rest
                  ∙ rw
                      (
                        place,
                        count_ones-above 64 k (w0 % 2) a0 b0 (omega arith) (omega arith),
                        count_ones-above 64 k (w1 % 2) a1 b1 (omega arith) (omega arith),
                      )
                      (ap (λ p. scan n (suc (base + k)) (w0 / 2) (w1 / 2) p)
                        (sym (
                          advance-advance (count_ones 64 a0) (count_ones 64 a1) (w0 % 2) (w1 % 2)
                            progress))))
        ]
