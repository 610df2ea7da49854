-- ===== src/Intersection/Ranks.antt =====
-- The ranks that the intersection of an array and a bitmap goes on from are those of the documents.
use native.Mathlib.Nat.{pow-suc, mod-lt, div-add-mod', mul-add-mod_self_right, mul-le-mul_right}
use seek_storm.Base.{
  ℕ, zero, suc, ◌+◌, ◌-◌, ◌*◌, ◌/◌, ◌%◌, ◌^◌, ◌≤◌, ◌<◌, List, [], ◌∷◌, Run, ok, panic, out_of_fuel,
  ◌>>=◌, load, ◌==◌, if◌then◌else◌, leb, length, take, drop, length-take, length-drop, ◌≡◌, refl,
  sym, ap, ◌∙◌, arith, true, false, Bool-cases, inl, inr,
}
use seek_storm.Base.Array.{at, get_elem?-at}
use seek_storm.Utils.{read_slice, to_array, read_le, read_u64, from_le_bytes}
use seek_storm.Intersection.{Progress, Bitmap, count_ones}
use seek_storm.Intersection.ArrayBitmap.{sum_words, add_low_bits, RunProgress, array_step, for_docs}
use seek_storm.Intersection.Bits.{one_le_power, doubled}
use seek_storm.Intersection.Docs.{
  has_doc, count_docs, HasBitmap, AllBytes-drop, at-drop, Shows, word-Shows, count_ones-count_docs,
  count_docs-add, bit_and-power_is_0,
}
use seek_storm.Embed.Pack.{pow_add, shifted_sum}

-- Each document of the array that the bitmap has, with its place in the array and the number of the
-- documents below it that the bitmap has.
module _ {ℓ} {S : Type ℓ} (add_result : ℕ → Progress S → Run (Progress S)) (bitmap : Bitmap) where
  unfoldable pub ranked_docs : ℕ → List ℕ → Progress S → Run (Progress S)
  ranked_docs p_docid [] progress = ok progress
  ranked_docs p_docid (doc_id ∷ docs) progress =
      if has_doc bitmap doc_id == 0 then ranked_docs (suc p_docid) docs progress else (do
        added ←
            add_result doc_id
              (record progress { p_docid_0 = p_docid; p_docid_1 = count_docs bitmap doc_id 0 })
        ranked_docs (suc p_docid) docs added)

-- The documents of a block in ascending order, from `bound` on.
abbrev pub AscendingFrom : ℕ → List ℕ → Type 0
AscendingFrom bound [] = Unit
AscendingFrom bound (doc_id ∷ docs) =
    (bound ≤ doc_id) × (doc_id < 65536) × AscendingFrom doc_id docs

-- The bits below a position, moved to the top of a word.
count_ones-shift : (bits k x : ℕ) → count_ones (bits + k) (x * 2 ^ k) ≡ count_ones bits x
unfolding count_ones
count_ones-shift bits zero x =
    let e : bits + 0 ≡ bits = omega arith in let f : x * 1 ≡ x = omega arith in rw (e, f) refl
count_ones-shift bits (suc k) x =
    let e : bits + suc k ≡ suc (bits + k) = omega arith in
    let even : x * 2 ^ suc k % 2 ≡ 0 = omega (arith, doubled k x) in
    let half : x * 2 ^ suc k / 2 ≡ x * 2 ^ k = omega (arith, doubled k x) in
    rw (e, even, half) (omega (arith, count_ones-shift bits k x))

count_ones-0 : (bits : ℕ) → count_ones bits 0 ≡ 0
unfolding count_ones
count_ones-0 zero = refl
count_ones-0 (suc bits) = omega (arith, count_ones-0 bits)

count_ones-wider : (bits k x : ℕ) → x < 2 ^ bits → count_ones (bits + k) x ≡ count_ones bits x
unfolding count_ones
count_ones-wider zero k x h =
    let e : x ≡ 0 = omega arith in ap (count_ones (0 + k)) e ∙ count_ones-0 (0 + k)
count_ones-wider (suc bits) k x h =
    let e : suc bits + k ≡ suc (bits + k) = omega arith in
    rw e (ap (λ n. x % 2 + n) (count_ones-wider bits k (x / 2) (omega (arith, h, pow-suc 2 bits))))

low_bits :
    (b word : ℕ)
    → 1 ≤ b
    → b < 64
    → count_ones 64 (word * 2 ^ (64 - b) % 2 ^ 64) ≡ count_ones 64 (word % 2 ^ b)
low_bits b word h g =
    let k : ℕ = 64 - b in
    let size : b + k ≡ 64 = omega arith in
    let split : 2 ^ b * 2 ^ k ≡ 2 ^ 64 = sym (pow_add b k) ∙ ap (λ e. 2 ^ e) size in
    let below : word % 2 ^ b < 2 ^ b = mod-lt word (one_le_power b) in
    let value : word * 2 ^ k % 2 ^ 64 ≡ word % 2 ^ b * 2 ^ k =
      let u : ℕ = 2 ^ k in
      let v : ℕ = 2 ^ b in
      let q : ℕ = word / v in
      let r : ℕ = word % v in
      let whole : word * u ≡ q * 2 ^ 64 + r * u =
        ap (λ w. w * u) (sym (div-add-mod' word v))
        ∙ omega (arith, shifted_sum q r u v 0, ap (λ x. q * x) split) in
      let small : (r + 1) * u ≤ v * u = mul-le-mul_right u (omega (arith, below)) in
      let one : 1 ≤ u = one_le_power k in
      ap (λ x. x % 2 ^ 64) whole
      ∙ mul-add-mod_self_right q (2 ^ 64) (r * u)
      ∙ omega (arith, small, split) in
    ap (count_ones 64) value
    ∙ ap (λ n. count_ones n (word % 2 ^ b * 2 ^ k)) (sym size)
    ∙ count_ones-shift b k (word % 2 ^ b)
    ∙ sym (count_ones-wider b k (word % 2 ^ b) below)
    ∙ ap (λ n. count_ones n (word % 2 ^ b)) size

count_ones-low : (b q r : ℕ) → count_ones b (q * 2 ^ b + r) ≡ count_ones b r
unfolding count_ones
count_ones-low zero q r = refl
count_ones-low (suc b) q r =
    let low : (q * 2 ^ suc b + r) % 2 ≡ r % 2 = omega (arith, doubled b q) in
    let half : (q * 2 ^ suc b + r) / 2 ≡ q * 2 ^ b + r / 2 = omega (arith, doubled b q) in
    rw (low, half) (omega (arith, count_ones-low b q (r / 2)))

-- The bits that the mask leaves are the lowest `b`.
masked_bits :
    (b word : ℕ) → 1 ≤ b → b < 64 → count_ones 64 (word * 2 ^ (64 - b) % 2 ^ 64) ≡ count_ones b word
masked_bits b word h g =
    let size : b + (64 - b) ≡ 64 = omega arith in
    low_bits b word h g
    ∙ ap (λ n. count_ones n (word % 2 ^ b)) (sym size)
    ∙ count_ones-wider b (64 - b) (word % 2 ^ b) (mod-lt word (one_le_power b))
    ∙ sym (count_ones-low b (word / 2 ^ b) (word % 2 ^ b))
    ∙ ap (count_ones b) (div-add-mod' word (2 ^ b))

weaken : (a b : ℕ) (docs : List ℕ) → a ≤ b → AscendingFrom b docs → AscendingFrom a docs
weaken a b [] h asc = tt
weaken a b (doc_id ∷ docs) h asc = (omega (arith, h, asc.0), asc.1, asc.2)

module _ (bitmap : Bitmap) (has : HasBitmap bitmap) where
  read_word :
      (k : ℕ)
      → k < 1024
      → (w : ℕ) × (read_u64 bitmap.byte_array (bitmap.compressed_doc_id_range + k * 8) ≡ ok w)
        × Shows bitmap 64 (k * 64) w
  unfolding read_u64 read_le read_slice to_array
  read_word k h =
      let start : ℕ = bitmap.compressed_doc_id_range + k * 8 in
      let rest : List ℕ = drop start bitmap.byte_array in
      let inside : leb (start + 8) (length bitmap.byte_array) ≡ true = ground (arith, has.1, h) in
      let eight : length (take 8 rest) ≡ 8 =
        omega (arith, length-take 8 rest, length-drop start bitmap.byte_array, has.1, h) in
      (
        from_le_bytes (take 8 rest),
        rw (inside, eight) refl,
        word-Shows bitmap rest k (AllBytes-drop start bitmap.byte_array has.0) (λ i g.
            let place : start + i ≡ bitmap.compressed_doc_id_range + (k * 8 + i) = omega arith in
            at-drop start bitmap.byte_array i ∙ ap (at 0 bitmap.byte_array) place),
      )

  sum_words-count_docs :
      (n k s : ℕ)
      → k + n ≤ 1024
      → sum_words bitmap n (k * 8) s ≡ ok (s + count_docs bitmap (n * 64) (k * 64))
  unfolding sum_words count_docs
  sum_words-count_docs zero k s h = let e : s + 0 ≡ s = omega arith in rw e refl
  sum_words-count_docs (suc n) k s h =
      let read = read_word k (omega arith) in
      let place : k * 8 + 8 ≡ suc k * 8 = omega arith in
      let counted = count_ones-count_docs bitmap 64 (k * 64) read.0 read.2 in
      let split : suc n * 64 ≡ 64 + n * 64 = omega arith in
      let next : suc k * 64 ≡ k * 64 + 64 = omega arith in
      rw (read.1, place, sum_words-count_docs n (suc k) (s + count_ones 64 read.0) (omega arith))
        (ap ok (
          omega (
            arith,
            counted,
            ap (λ m. count_docs bitmap m (k * 64)) split,
            count_docs-add bitmap 64 (n * 64) (k * 64),
            ap (count_docs bitmap (n * 64)) next,
          )))

  low_rank :
      (doc_id : ℕ)
      → doc_id < 65536
      → add_low_bits bitmap (doc_id / 64 * 8) (doc_id % 64) (count_docs bitmap (doc_id / 64 * 64) 0)
        ≡ ok (count_docs bitmap doc_id 0)
  unfolding add_low_bits
  low_rank doc_id h =
      let k : ℕ = doc_id / 64 in
      let b : ℕ = doc_id % 64 in
      let whole : k * 64 + b ≡ doc_id = omega arith in
      let start : 0 + k * 64 ≡ k * 64 = omega arith in
      let split : count_docs bitmap doc_id 0
          ≡ count_docs bitmap (k * 64) 0 + count_docs bitmap b (k * 64) =
        ap (λ d. count_docs bitmap d 0) (sym whole)
        ∙ count_docs-add bitmap (k * 64) b 0
        ∙ ap (λ d. count_docs bitmap (k * 64) 0 + count_docs bitmap b d) start in
      elim (Bool-cases (b == 0)) [
        | inl none ↦
            let e : k * 64 ≡ doc_id = ground arith in
            rw none (ap (λ d. ok (count_docs bitmap d 0)) e)
        | inr part ↦
            let read = read_word k (omega arith) in
            let counted =
              masked_bits b read.0 (ground arith) (omega arith)
              ∙ count_ones-count_docs bitmap b (k * 64) read.0 (λ i g. read.2 i (omega arith)) in
            rw (part, read.1) (ap ok (omega (arith, counted, split)))
      ]

  rank :
      (p_run doc_id : ℕ)
      → p_run * 64 ≤ doc_id
      → doc_id < 65536
      → sum_words bitmap (doc_id / 64 - p_run) (p_run * 8) (count_docs bitmap (p_run * 64) 0)
        ≡ ok (count_docs bitmap (doc_id / 64 * 64) 0)
  rank p_run doc_id h g =
      let n : ℕ = doc_id / 64 - p_run in
      let split : doc_id / 64 * 64 ≡ p_run * 64 + n * 64 = omega arith in
      let start : 0 + p_run * 64 ≡ p_run * 64 = omega arith in
      sum_words-count_docs n p_run (count_docs bitmap (p_run * 64) 0) (omega arith)
      ∙ ap ok (
          sym (
            ap (λ m. count_docs bitmap m 0) split
            ∙ count_docs-add bitmap (p_run * 64) (n * 64) 0
            ∙ ap (λ d. count_docs bitmap (p_run * 64) 0 + count_docs bitmap (n * 64) d) start))

  read_byte :
      (doc_id : ℕ)
      → doc_id < 65536
      → load bitmap.byte_array (bitmap.compressed_doc_id_range + doc_id / 8)
        ≡ ok (at 0 bitmap.byte_array (bitmap.compressed_doc_id_range + doc_id / 8))
  read_byte doc_id h =
      rw
        (get_elem?-at 0 bitmap.byte_array (bitmap.compressed_doc_id_range + doc_id / 8)
          (omega (arith, has.1)))
        refl

module _ {ℓ} {S : Type ℓ} (add_result : ℕ → Progress S → Run (Progress S)) (bitmap : Bitmap)
    (has : HasBitmap bitmap) where
  abbrev finished : Run (RunProgress S) → Run (Progress S)
  finished m = do run ← m; ok run.progress

  -- The words summed up so far are those of the run.
  abbrev Counts : RunProgress S → Type 0
  Counts run = run.p_run_sum ≡ count_docs bitmap (run.p_run * 64) 0

  array_step-clear :
      (p_docid doc_id : ℕ) (run : RunProgress S)
      → doc_id < 65536
      → (has_doc bitmap doc_id == 0) ≡ true
      → array_step add_result bitmap p_docid doc_id run ≡ ok run
  unfolding array_step has_doc
  array_step-clear p_docid doc_id run h clear =
      let byte : ℕ = at 0 bitmap.byte_array (bitmap.compressed_doc_id_range + doc_id / 8) in
      rw
        (
          read_byte bitmap has doc_id h,
          bit_and-power_is_0 (doc_id % 8) byte (one_le_power (doc_id % 8)),
          clear,
        )
        refl

  array_step-isset :
      (p_docid doc_id : ℕ) (run : RunProgress S)
      → doc_id < 65536
      → run.p_run * 64 ≤ doc_id
      → Counts run
      → (has_doc bitmap doc_id == 0) ≡ false
      → array_step add_result bitmap p_docid doc_id run ≡ (do
        added ←
            add_result doc_id
              (record run.progress { p_docid_0 = p_docid; p_docid_1 = count_docs bitmap doc_id 0 })
        ok (record {
          p_run = doc_id / 64;
          p_run_sum = count_docs bitmap (doc_id / 64 * 64) 0;
          progress = added;
        }))
  unfolding array_step has_doc
  array_step-isset p_docid doc_id run h below counts isset =
      let byte : ℕ = at 0 bitmap.byte_array (bitmap.compressed_doc_id_range + doc_id / 8) in
      rw
        (
          read_byte bitmap has doc_id h,
          bit_and-power_is_0 (doc_id % 8) byte (one_le_power (doc_id % 8)),
          isset,
          counts,
          rank bitmap has run.p_run doc_id below h,
          low_rank bitmap has doc_id h,
        )
        refl

  for_docs-from :
      (p_docid : ℕ) (docs : List ℕ) (run : RunProgress S)
      → AscendingFrom (run.p_run * 64) docs
      → Counts run
      → finished (for_docs add_result bitmap p_docid docs run)
        ≡ ranked_docs add_result bitmap p_docid docs run.progress
  unfolding for_docs ranked_docs
  for_docs-from p_docid [] run asc e = refl
  for_docs-from p_docid (doc_id ∷ docs) run asc e = elim (Bool-cases (has_doc bitmap doc_id == 0)) [
    | inl clear ↦
        rw (array_step-clear p_docid doc_id run asc.1 clear, clear)
          (for_docs-from (suc p_docid) docs run (weaken (run.p_run * 64) doc_id docs asc.0 asc.2) e)
    | inr isset ↦
        rw (array_step-isset p_docid doc_id run asc.1 asc.0 e isset, isset)
          (after
            (add_result doc_id
              (record run.progress { p_docid_0 = p_docid; p_docid_1 = count_docs bitmap doc_id 0 }))
            (λ added. record {
              p_run = doc_id / 64;
              p_run_sum = count_docs bitmap (doc_id / 64 * 64) 0;
              progress = added;
            })
            (λ next. for_docs add_result bitmap (suc p_docid) docs next)
            (λ added. ranked_docs add_result bitmap (suc p_docid) docs added)
            (λ added.
              for_docs-from (suc p_docid) docs
                (record {
                  p_run = doc_id / 64;
                  p_run_sum = count_docs bitmap (doc_id / 64 * 64) 0;
                  progress = added;
                })
                (weaken (doc_id / 64 * 64) doc_id docs (omega arith) asc.2) refl))
  ]
    where
      after :
          (m : Run (Progress S)) (f : Progress S → RunProgress S)
          (g : RunProgress S → Run (RunProgress S)) (h : Progress S → Run (Progress S))
          → ((p : Progress S) → finished (g (f p)) ≡ h p)
          → finished (do next ← (do added ← m; ok (f added)); g next) ≡ m >>= h
      after (ok p) f g h e = e p
      after panic f g h e = refl
      after out_of_fuel f g h e = refl

  -- Where the bitmap of 8192 bytes stands in the buffer of its list, and the documents of the array are
  -- u16 and do not descend: the loop over them, which sums up each word of the bitmap once, adds
  -- those that the bitmap has, in their order, each with its place in the array and, as its rank, the
  -- number of the documents below it that the bitmap has, bit by bit of its bytes. It panics where
  -- adding a document does.
  pub for_docs-ranked_docs :
      (p_docid : ℕ) (docs : List ℕ) (progress : Progress S)
      → AscendingFrom 0 docs
      → (do
        run ←
            for_docs add_result bitmap p_docid docs
              (record { p_run = 0; p_run_sum = 0; progress = progress })
        ok run.progress)
        ≡ ranked_docs add_result bitmap p_docid docs progress
  unfolding count_docs
  for_docs-ranked_docs p_docid docs progress asc =
      for_docs-from p_docid docs (record { p_run = 0; p_run_sum = 0; progress = progress }) asc refl
