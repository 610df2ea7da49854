-- ===== src/Intersection/Bitmaps.antt =====
-- The documents that two bitmaps have in common.
use native.Mathlib.Nat.{pow-suc, one-le-pow}
use seek_storm.Base.{
  ℕ, zero, suc, ◌+◌, ◌*◌, ◌/◌, ◌^◌, ◌<◌, List, [], ◌∷◌, Bool, true, false, not, ◌&&◌, ok, Run,
  ◌>>=◌, length, leb, ◌==◌, if◌then◌else◌, take, drop, slice, bit_and, ◌≡◌, refl, sym, ap, ◌∙◌,
  arith,
}
use seek_storm.Base.Array.{at, at-take}
use seek_storm.Utils.{read_slice, from_le_bytes}
use seek_storm.Intersection.{
  Progress, BlockSearch, ResultType, is_count, is_topk, is_skipped, count_ones, while_bits,
  word_step, for_words, cast_byte_ulong_slice, Bitmap, bitmap_words, intersection_bitmap_2,
}
use seek_storm.Intersection.Docs.{
  has_doc, common_docs, AllBytes, AllBytes-take, AllBytes-drop, HasBitmap, at-drop, Shows,
  Shows-first, Shows-rest, word-Shows, common_docs-lem,
}
use seek_storm.Intersection.Scan.{advance, advance_nothing, scan, while_bits-scan, bind_same}

from_le_bytes-take :
    (n : ℕ) (bytes : List ℕ) → AllBytes bytes → from_le_bytes (take n bytes) < 256 ^ n
unfolding from_le_bytes
from_le_bytes-take zero bytes all = omega arith
from_le_bytes-take (suc n) [] all = omega (arith, one-le-pow (suc n) 256 (omega arith))
from_le_bytes-take (suc n) (b ∷ bytes) all =
    omega (arith, pow-suc 256 n, all.0, from_le_bytes-take n bytes all.1)

-- The bytes of `n` words of a bitmap, from the word `k` on.
abbrev Holds : Bitmap → ℕ → ℕ → List ℕ → Type 0
Holds bitmap n k bytes =
    AllBytes bytes
    × ((i : ℕ)
        → i < n * 8
        → at 0 bytes i ≡ at 0 bitmap.byte_array (bitmap.compressed_doc_id_range + (k * 8 + i)))

Holds-word :
    (bitmap : Bitmap) (n k : ℕ) (bytes : List ℕ)
    → Holds bitmap (suc n) k bytes
    → Shows bitmap 64 (k * 64) (from_le_bytes (take 8 bytes))
Holds-word bitmap n k bytes held = word-Shows bitmap bytes k held.0 (λ i h. held.1 i (omega arith))

Holds-rest :
    (bitmap : Bitmap) (n k : ℕ) (bytes : List ℕ)
    → Holds bitmap (suc n) k bytes
    → Holds bitmap n (suc k) (drop 8 bytes)
Holds-rest bitmap n k bytes held = (
  AllBytes-drop 8 bytes held.0,
  λ i h.
      let place : k * 8 + (8 + i) ≡ suc k * 8 + i = omega arith in
      at-drop 8 bytes i
      ∙ held.1 (8 + i) (omega arith)
      ∙ ap (λ j. at 0 bitmap.byte_array (bitmap.compressed_doc_id_range + j)) place,
)

abbrev bytes_of : Bitmap → List ℕ
bytes_of bitmap = slice bitmap.byte_array bitmap.compressed_doc_id_range 8192

bitmap_words-ok :
    (bitmap : Bitmap)
    → HasBitmap bitmap
    → (bitmap_words bitmap ≡ ok (cast_byte_ulong_slice 1024 (bytes_of bitmap)))
      × Holds bitmap 1024 0 (bytes_of bitmap)
unfolding read_slice
bitmap_words-ok bitmap has =
    let room : leb (bitmap.compressed_doc_id_range + 8192) (length bitmap.byte_array) ≡ true =
      ground (arith, has.1) in
    (
      rw room refl,
      (
        AllBytes-take 8192 (drop bitmap.compressed_doc_id_range bitmap.byte_array)
            (AllBytes-drop bitmap.compressed_doc_id_range bitmap.byte_array has.0),
        λ i h.
            let place : 0 * 8 + i ≡ i = omega arith in
            at-take 0 8192 (drop bitmap.compressed_doc_id_range bitmap.byte_array) i (omega arith)
            ∙ at-drop bitmap.compressed_doc_id_range bitmap.byte_array i
            ∙ ap (λ j. at 0 bitmap.byte_array (bitmap.compressed_doc_id_range + j)) (sym place),
      ),
    )

common_docs-add :
    (bitmap0 bitmap1 : Bitmap) (m n doc_id : ℕ)
    → common_docs bitmap0 bitmap1 (m + n) doc_id
      ≡ common_docs bitmap0 bitmap1 m doc_id + common_docs bitmap0 bitmap1 n (doc_id + m)
unfolding common_docs
common_docs-add bitmap0 bitmap1 zero n doc_id =
    let e : 0 + n ≡ n = omega arith in
    let f : doc_id + 0 ≡ doc_id = omega arith in rw (e, f) (omega arith)
common_docs-add bitmap0 bitmap1 (suc m) n doc_id =
    let e : suc m + n ≡ suc (m + n) = omega arith in
    let f : doc_id + suc m ≡ suc doc_id + m = omega arith in
    rw (e, f) (omega (arith, common_docs-add bitmap0 bitmap1 m n (suc doc_id)))

module _ {ℓ} {S : Type ℓ} (add_result : ℕ → Progress S → Run (Progress S))
    (bitmap0 bitmap1 : Bitmap) where
  -- The `n` documents from `doc_id` on, one by one: a document that both bitmaps have is added, with
  -- the ranks of its postings, and each document moves the rank of a list that has it.
  unfoldable pub walk : ℕ → ℕ → Progress S → Run (Progress S)
  walk zero doc_id progress = ok progress
  walk (suc n) doc_id progress = do
    added ←
        if has_doc bitmap0 doc_id == 1 && has_doc bitmap1 doc_id == 1
        then add_result doc_id progress
        else ok progress
    walk n (suc doc_id) (advance (has_doc bitmap0 doc_id) (has_doc bitmap1 doc_id) added)

  scan-walk :
      (n doc_id w0 w1 : ℕ) (progress : Progress S)
      → Shows bitmap0 n doc_id w0
      → Shows bitmap1 n doc_id w1
      → scan add_result n doc_id w0 w1 progress ≡ walk n doc_id progress
  unfolding scan walk
  scan-walk zero doc_id w0 w1 progress shows0 shows1 = refl
  scan-walk (suc n) doc_id w0 w1 progress shows0 shows1 =
      rw (Shows-first bitmap0 n doc_id w0 shows0, Shows-first bitmap1 n doc_id w1 shows1)
        (bind_same _ (λ added.
          scan-walk n (suc doc_id) (w0 / 2) (w1 / 2) _ (Shows-rest bitmap0 n doc_id w0 shows0)
            (Shows-rest bitmap1 n doc_id w1 shows1)))

  while_word :
      (base w0 w1 : ℕ) (progress : Progress S)
      → w0 < 2 ^ 64
      → w1 < 2 ^ 64
      → while_bits add_result 65 base w0 w1 (bit_and w0 w1) progress
        ≡ scan add_result 64 base w0 w1 progress
  unfolding count_ones
  while_word base w0 w1 progress h g =
      let same : (w : ℕ) → w ≡ w * 2 ^ 0 + 0 = λ w. omega arith in
      let common : bit_and w0 w1 ≡ bit_and w0 w1 * 2 ^ 0 = omega arith in
      let start : base + 0 ≡ base = omega arith in
      ap (λ i. while_bits add_result 65 base w0 w1 i progress) common
      ∙ ap (λ w. while_bits add_result 65 base w w1 (bit_and w0 w1 * 2 ^ 0) progress) (same w0)
      ∙ ap (λ w. while_bits add_result 65 base (w0 * 2 ^ 0 + 0) w (bit_and w0 w1 * 2 ^ 0) progress)
          (same w1)
      ∙ while_bits-scan add_result 64 0 w0 w1 0 0 65 base progress refl h g (omega arith)
          (omega arith) (omega arith)
      ∙ ap (λ b. scan add_result 64 b w0 w1 (advance (count_ones 64 0) (count_ones 64 0) progress))
          start
      ∙ ap (λ p. scan add_result 64 base w0 w1 p) (advance_nothing progress)

  module _ {F : Type 0} (search : BlockSearch S F) (result_type : ResultType)
      (filtered : Bool) where
    abbrev counted : ℕ → Progress S → Progress S
    counted k progress = record progress {
      result_count = progress.result_count + common_docs bitmap0 bitmap1 64 (k * 64);
    }

    -- The 64 documents of the word `k`: they are counted only, passed over, or walked over.
    unfoldable pub word_docs : ℕ → Progress S → Run (Progress S)
    word_docs k progress =
        if not filtered && is_count result_type then ok (counted k progress) else (do
          skipped ← is_skipped add_result search result_type filtered progress.search_result
          (if skipped
              then ok (if is_topk result_type then progress else counted k progress)
              else walk 64 (k * 64) progress))

    -- `n` words from the word `k` on.
    unfoldable pub all_docs : ℕ → ℕ → Progress S → Run (Progress S)
    all_docs zero k progress = ok progress
    all_docs (suc n) k progress = do next ← word_docs k progress; all_docs n (suc k) next

    word_step-word_docs :
        (k w0 w1 : ℕ) (progress : Progress S)
        → Shows bitmap0 64 (k * 64) w0
        → Shows bitmap1 64 (k * 64) w1
        → w0 < 2 ^ 64
        → w1 < 2 ^ 64
        → word_step add_result search result_type filtered (k * 64) w0 w1 progress
          ≡ word_docs k progress
    unfolding word_step word_docs
    word_step-word_docs k w0 w1 progress shows0 shows1 h g =
        rw
          (
            common_docs-lem bitmap0 bitmap1 64 (k * 64) w0 w1 shows0 shows1,
            while_word (k * 64) w0 w1 progress h g,
            scan-walk 64 (k * 64) w0 w1 progress shows0 shows1,
          )
          refl

    for_words-all_docs :
        (n k : ℕ) (bytes0 bytes1 : List ℕ) (progress : Progress S)
        → Holds bitmap0 n k bytes0
        → Holds bitmap1 n k bytes1
        → for_words add_result search result_type filtered
            (k * 64)
            (cast_byte_ulong_slice n bytes0)
            (cast_byte_ulong_slice n bytes1)
            progress
          ≡ all_docs n k progress
    unfolding for_words all_docs cast_byte_ulong_slice
    for_words-all_docs zero k bytes0 bytes1 progress held0 held1 = refl
    for_words-all_docs (suc n) k bytes0 bytes1 progress held0 held1 =
        let next : k * 64 + 64 ≡ suc k * 64 = omega arith in
        rw
          (
            word_step-word_docs k (from_le_bytes (take 8 bytes0)) (from_le_bytes (take 8 bytes1))
                progress (Holds-word bitmap0 n k bytes0 held0) (Holds-word bitmap1 n k bytes1 held1)
                (from_le_bytes-take 8 bytes0 held0.0) (from_le_bytes-take 8 bytes1 held1.0),
            next,
          )
          (bind_same (word_docs k progress) (λ p.
            for_words-all_docs n (suc k) (drop 8 bytes0) (drop 8 bytes1) p
              (Holds-rest bitmap0 n k bytes0 held0) (Holds-rest bitmap1 n k bytes1 held1)))

    pub intersection_bitmap_2-all_docs :
        (progress : Progress S)
        → HasBitmap bitmap0
        → HasBitmap bitmap1
        → intersection_bitmap_2 add_result search result_type filtered bitmap0 bitmap1 progress
          ≡ all_docs 1024 0 progress
    unfolding intersection_bitmap_2
    intersection_bitmap_2-all_docs progress has0 has1 =
        let ready0 = bitmap_words-ok bitmap0 has0 in
        let ready1 = bitmap_words-ok bitmap1 has1 in
        rw (ready0.0, ready1.0)
          (for_words-all_docs 1024 0 (bytes_of bitmap0) (bytes_of bitmap1) progress ready0.1
            ready1.1)

  none : (n : ℕ) → n + 0 ≡ n
  none n = omega arith

  sum : (a b c : ℕ) → a + b + c ≡ a + (b + c)
  sum a b c = omega arith

  module _ {F : Type 0} (search : BlockSearch S F) where
    all_docs-count :
        (n k : ℕ) (progress : Progress S)
        → all_docs search ResultType.count false n k progress
          ≡ ok (record progress {
            result_count = progress.result_count + common_docs bitmap0 bitmap1 (n * 64) (k * 64);
          })
    unfolding all_docs word_docs common_docs
    all_docs-count zero k progress = rw (none progress.result_count) refl
    all_docs-count (suc n) k progress =
        let split : suc n * 64 ≡ 64 + n * 64 = omega arith in
        let next : suc k * 64 ≡ k * 64 + 64 = omega arith in
        all_docs-count n (suc k) (counted search ResultType.count false k progress)
        ∙ ap (λ c. ok (record progress { result_count = c }))
            (sum progress.result_count _ _
              ∙ ap (λ c. progress.result_count + c)
                  (ap
                      (λ d.
                        common_docs bitmap0 bitmap1 64 (k * 64)
                        + common_docs bitmap0 bitmap1 (n * 64) d)
                      next
                    ∙ sym (common_docs-add bitmap0 bitmap1 64 (n * 64) (k * 64))
                    ∙ ap (λ m. common_docs bitmap0 bitmap1 m (k * 64)) (sym split)))

    -- Two bitmaps of 8192 bytes in the buffers of their lists, where the query only counts and is not
    -- filtered: the intersection returns, the masked words add to the count the number of those of
    -- the 65536 documents that both bitmaps have, bit by bit of their bytes, and nothing else changes.
    pub intersection_bitmap_2-count :
        (progress : Progress S)
        → HasBitmap bitmap0
        → HasBitmap bitmap1
        → intersection_bitmap_2 add_result search ResultType.count false bitmap0 bitmap1 progress
          ≡ ok (record progress {
            result_count = progress.result_count + common_docs bitmap0 bitmap1 65536 0;
          })
    intersection_bitmap_2-count progress has0 has1 =
        intersection_bitmap_2-all_docs search ResultType.count false progress has0 has1
        ∙ all_docs-count 1024 0 progress
