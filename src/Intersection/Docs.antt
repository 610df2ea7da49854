-- ===== src/Intersection/Docs.antt =====
-- The documents of a bitmap, bit by bit of its bytes, and what a word of 64 bits has of them.
use native.Mathlib.Nat.{zero-div, div-div-eq-div-mul, pow-suc}
use seek_storm.Base.{
  ℕ, zero, suc, ◌+◌, ◌-◌, ◌*◌, ◌/◌, ◌%◌, ◌^◌, ◌≤◌, ◌<◌, List, [], ◌∷◌, length, take, drop, ◌==◌,
  ltb, bit_and, min, ◌≡◌, refl, sym, ap, ◌∙◌, arith, Bool-cases, inl, inr,
}
use seek_storm.Base.Array.{at}
use seek_storm.Base.Bits.{bit_and-halves, bit_and-0}
use seek_storm.Utils.{from_le_bytes}
use seek_storm.Embed.Pack.{pow_add}
use seek_storm.Intersection.{Bitmap, count_ones}

-- 1 where a bitmap has a document, and 0 else.
unfoldable pub has_doc : Bitmap → ℕ → ℕ
has_doc bitmap doc_id =
    at 0 bitmap.byte_array (bitmap.compressed_doc_id_range + doc_id / 8) / 2 ^ (doc_id % 8) % 2

-- The documents that a bitmap has, and those that two have, of the `n` from `doc_id` on.
unfoldable pub count_docs : Bitmap → ℕ → ℕ → ℕ
count_docs bitmap zero doc_id = 0
count_docs bitmap (suc n) doc_id = has_doc bitmap doc_id + count_docs bitmap n (suc doc_id)

unfoldable pub common_docs : Bitmap → Bitmap → ℕ → ℕ → ℕ
common_docs bitmap0 bitmap1 zero doc_id = 0
common_docs bitmap0 bitmap1 (suc n) doc_id =
    min (has_doc bitmap0 doc_id) (has_doc bitmap1 doc_id)
    + common_docs bitmap0 bitmap1 n (suc doc_id)

abbrev pub AllBytes : List ℕ → Type 0
AllBytes [] = Unit
AllBytes (b ∷ bytes) = (b < 256) × AllBytes bytes

pub AllBytes-take : (n : ℕ) (bytes : List ℕ) → AllBytes bytes → AllBytes (take n bytes)
AllBytes-take zero bytes all = tt
AllBytes-take (suc n) [] all = tt
AllBytes-take (suc n) (b ∷ bytes) all = (all.0, AllBytes-take n bytes all.1)

pub AllBytes-drop : (n : ℕ) (bytes : List ℕ) → AllBytes bytes → AllBytes (drop n bytes)
AllBytes-drop zero bytes all = all
AllBytes-drop (suc n) [] all = tt
AllBytes-drop (suc n) (b ∷ bytes) all = AllBytes-drop n bytes all.1

pub at-AllBytes : (bytes : List ℕ) (i : ℕ) → AllBytes bytes → at 0 bytes i < 256
unfolding at
at-AllBytes [] i all = omega arith
at-AllBytes (b ∷ bytes) zero all = all.0
at-AllBytes (b ∷ bytes) (suc i) all = at-AllBytes bytes i all.1

-- A bitmap of 8192 bytes stands in the buffer of its list.
abbrev pub HasBitmap : Bitmap → Type 0
HasBitmap bitmap =
    AllBytes bitmap.byte_array × (bitmap.compressed_doc_id_range + 8192 ≤ length bitmap.byte_array)

pub at-drop : (n : ℕ) (bytes : List ℕ) (i : ℕ) → at 0 (drop n bytes) i ≡ at 0 bytes (n + i)
unfolding at
at-drop zero bytes i = let e : 0 + i ≡ i = omega arith in rw e refl
at-drop (suc n) [] i = refl
at-drop (suc n) (b ∷ bytes) i =
    let e : suc n + i ≡ suc (n + i) = omega arith in rw e (at-drop n bytes i)

no_bits : (i : ℕ) → 0 / 2 ^ i % 2 ≡ 0
no_bits i = omega (arith, zero-div (2 ^ i))

low_byte : (b rest i : ℕ) → i < 8 → (b + 256 * rest) / 2 ^ i % 2 ≡ b / 2 ^ i % 2
low_byte b rest zero h = omega arith
low_byte b rest (suc zero) h = omega arith
low_byte b rest (suc (suc zero)) h = omega arith
low_byte b rest (suc (suc (suc zero))) h = omega arith
low_byte b rest (suc (suc (suc (suc zero)))) h = omega arith
low_byte b rest (suc (suc (suc (suc (suc zero))))) h = omega arith
low_byte b rest (suc (suc (suc (suc (suc (suc zero)))))) h = omega arith
low_byte b rest (suc (suc (suc (suc (suc (suc (suc zero))))))) h = omega arith
low_byte b rest (suc (suc (suc (suc (suc (suc (suc (suc i)))))))) h = absurd (omega arith)

high_byte : (b rest j : ℕ) → b < 256 → (b + 256 * rest) / 2 ^ (8 + j) ≡ rest / 2 ^ j
high_byte b rest j h =
    let whole : (b + 256 * rest) / 256 ≡ rest = omega arith in
    ap (λ p. (b + 256 * rest) / p) (pow_add 8 j)
    ∙ sym (div-div-eq-div-mul (b + 256 * rest) 256 (2 ^ j))
    ∙ ap (λ x. x / 2 ^ j) whole

-- The bits of a little-endian number are those of its bytes.
pub from_le_bytes-bit :
    (n : ℕ) (bytes : List ℕ) (i : ℕ)
    → AllBytes bytes
    → i < 8 * n
    → from_le_bytes (take n bytes) / 2 ^ i % 2 ≡ at 0 bytes (i / 8) / 2 ^ (i % 8) % 2
unfolding from_le_bytes at
from_le_bytes-bit zero bytes i all h = absurd (omega arith)
from_le_bytes-bit (suc n) [] i all h = no_bits i ∙ sym (no_bits (i % 8))
from_le_bytes-bit (suc n) (b ∷ bytes) i all h = elim (Bool-cases (ltb i 8)) [
  | inl low ↦
      let first : i / 8 ≡ 0 = ground arith in
      let place : i % 8 ≡ i = ground arith in
      rw (first, place) (low_byte b (from_le_bytes (take n bytes)) i (ground arith))
  | inr high ↦
      let j : ℕ = i - 8 in
      let split : i ≡ 8 + j = ground arith in
      let further : (8 + j) / 8 ≡ suc (j / 8) = omega arith in
      let place : (8 + j) % 8 ≡ j % 8 = omega arith in
      rw (split, further, place)
        (ap (λ x. x % 2) (high_byte b (from_le_bytes (take n bytes)) j all.0)
          ∙ from_le_bytes-bit n bytes j all.1 (ground arith))
]

-- The first `n` bits of a word are the documents from `doc_id` on.
abbrev pub Shows : Bitmap → ℕ → ℕ → ℕ → Type 0
Shows bitmap n doc_id w = (i : ℕ) → i < n → w / 2 ^ i % 2 ≡ has_doc bitmap (doc_id + i)

module _ (bitmap : Bitmap) where
  pub Shows-first : (n doc_id w : ℕ) → Shows bitmap (suc n) doc_id w → w % 2 ≡ has_doc bitmap doc_id
  Shows-first n doc_id w shows =
      let start : doc_id + 0 ≡ doc_id = omega arith in
      let whole : w / 2 ^ 0 ≡ w = omega arith in
      sym (ap (λ x. x % 2) whole) ∙ shows 0 (omega arith) ∙ ap (has_doc bitmap) start

  pub Shows-rest :
      (n doc_id w : ℕ) → Shows bitmap (suc n) doc_id w → Shows bitmap n (suc doc_id) (w / 2)
  Shows-rest n doc_id w shows i h =
      let place : doc_id + suc i ≡ suc doc_id + i = omega arith in
      let power : 2 ^ suc i ≡ 2 * 2 ^ i = omega (arith, pow-suc 2 i) in
      ap (λ x. x % 2) (div-div-eq-div-mul w 2 (2 ^ i) ∙ ap (λ p. w / p) (sym power))
      ∙ shows (suc i) (omega arith)
      ∙ ap (has_doc bitmap) place

  pub count_ones-count_docs :
      (n doc_id w : ℕ) → Shows bitmap n doc_id w → count_ones n w ≡ count_docs bitmap n doc_id
  unfolding count_ones count_docs
  count_ones-count_docs zero doc_id w shows = refl
  count_ones-count_docs (suc n) doc_id w shows = omega (
    arith,
    Shows-first n doc_id w shows,
    count_ones-count_docs n (suc doc_id) (w / 2) (Shows-rest n doc_id w shows),
  )

  pub count_docs-add :
      (m n doc_id : ℕ)
      → count_docs bitmap (m + n) doc_id
        ≡ count_docs bitmap m doc_id + count_docs bitmap n (doc_id + m)
  unfolding count_docs
  count_docs-add zero n doc_id =
      let e : 0 + n ≡ n = omega arith in
      let f : doc_id + 0 ≡ doc_id = omega arith in rw (e, f) (omega arith)
  count_docs-add (suc m) n doc_id =
      let e : suc m + n ≡ suc (m + n) = omega arith in
      let f : doc_id + suc m ≡ suc doc_id + m = omega arith in
      rw (e, f) (omega (arith, count_docs-add m n (suc doc_id)))

  -- The word at a place of a bitmap has the 64 documents from there on.
  pub word-Shows :
      (bytes : List ℕ) (k : ℕ)
      → AllBytes bytes
      → ((i : ℕ)
          → i < 8
          → at 0 bytes i ≡ at 0 bitmap.byte_array (bitmap.compressed_doc_id_range + (k * 8 + i)))
      → Shows bitmap 64 (k * 64) (from_le_bytes (take 8 bytes))
  unfolding has_doc
  word-Shows bytes k all same i h =
      let byte : (k * 64 + i) / 8 ≡ k * 8 + i / 8 = omega arith in
      let place : (k * 64 + i) % 8 ≡ i % 8 = omega arith in
      rw (byte, place, ← same (i / 8) (omega arith)) (from_le_bytes-bit 8 bytes i all (omega arith))

pub common_docs-lem :
    (bitmap0 bitmap1 : Bitmap) (n doc_id w0 w1 : ℕ)
    → Shows bitmap0 n doc_id w0
    → Shows bitmap1 n doc_id w1
    → count_ones n (bit_and w0 w1) ≡ common_docs bitmap0 bitmap1 n doc_id
unfolding count_ones common_docs
common_docs-lem bitmap0 bitmap1 zero doc_id w0 w1 shows0 shows1 = refl
common_docs-lem bitmap0 bitmap1 (suc n) doc_id w0 w1 shows0 shows1 =
    let low : bit_and w0 w1 % 2 ≡ min (w0 % 2) (w1 % 2) = omega (arith, bit_and-halves w0 w1) in
    let half : bit_and w0 w1 / 2 ≡ bit_and (w0 / 2) (w1 / 2) =
      omega (arith, bit_and-halves w0 w1) in
    rw
      (
        low,
        half,
        Shows-first bitmap0 n doc_id w0 shows0,
        Shows-first bitmap1 n doc_id w1 shows1,
        common_docs-lem bitmap0 bitmap1 n (suc doc_id) (w0 / 2) (w1 / 2)
            (Shows-rest bitmap0 n doc_id w0 shows0) (Shows-rest bitmap1 n doc_id w1 shows1),
      )
      refl

-- A mask of one bit picks it.
bit_and-power : (k x : ℕ) → bit_and x (2 ^ k) ≡ x / 2 ^ k % 2 * 2 ^ k
bit_and-power zero x = omega (arith, bit_and-halves x 1, bit_and-0 (x / 2))
bit_and-power (suc k) x =
    let even : 2 ^ suc k % 2 ≡ 0 = omega (arith, pow-suc 2 k) in
    let half : 2 ^ suc k / 2 ≡ 2 ^ k = omega (arith, pow-suc 2 k) in
    let power : 2 ^ suc k ≡ 2 * 2 ^ k = omega (arith, pow-suc 2 k) in
    let deeper : x / 2 ^ suc k ≡ x / 2 / 2 ^ k =
      ap (λ p. x / p) power ∙ sym (div-div-eq-div-mul x 2 (2 ^ k)) in
    let bit : ℕ = x / 2 / 2 ^ k % 2 in
    let above : bit_and (x / 2) (2 ^ suc k / 2) ≡ bit * 2 ^ k =
      ap (bit_and (x / 2)) half ∙ bit_and-power k (x / 2) in
    let moved : bit * 2 ^ suc k ≡ bit * 2 ^ k * 2 =
      omega (arith, ap (λ p. bit * p) (pow-suc 2 k)) in
    bit_and-halves x (2 ^ suc k) ∙ rw (even, deeper) (omega (arith, above, moved))

pub bit_and-power_is_0 : (k x : ℕ) → 1 ≤ 2 ^ k → (bit_and x (2 ^ k) == 0) ≡ (x / 2 ^ k % 2 == 0)
bit_and-power_is_0 k x positive =
    let bit : ℕ = x / 2 ^ k % 2 in
    elim (Bool-cases (bit == 0)) [
      | inl clear ↦
          let zero_bit : bit ≡ 0 = ground arith in
          let none : bit_and x (2 ^ k) ≡ 0 =
            bit_and-power k x ∙ ap (λ b. b * 2 ^ k) zero_bit ∙ omega arith in
          rw none (rw zero_bit refl)
      | inr isset ↦
          let one_bit : bit ≡ 1 = ground arith in
          let some_bit : bit_and x (2 ^ k) ≡ 2 ^ k =
            bit_and-power k x ∙ ap (λ b. b * 2 ^ k) one_bit ∙ omega arith in
          rw (some_bit, one_bit) (ground arith)
    ]
