-- ===== src/Postings/Score.antt =====
-- src/seekstorm/compress_postinglist.rs and src/seekstorm/add_result.rs: the score of a posting in
-- `docid_iterator`, and the best score of the block that it updates.
use seek_storm.Base.{ℕ, ◌%◌, List, [], ◌∷◌, Run, ok, ◌>>=◌, load, if◌then◌else◌, ◌||◌, not}
use seek_storm.Fields.Embedded.{DecodedFields}
use seek_storm.Postings.{ScoreOps, PostingListObject0, Index}

-- DOCUMENT_LENGTH_COMPRESSION
abbrev pub document_length_compression : List ℕ
document_length_compression =
    0x0 ∷ 0x1 ∷ 0x2 ∷ 0x3 ∷ 0x4 ∷ 0x5 ∷ 0x6 ∷ 0x7 ∷ 0x8 ∷ 0x9 ∷ 0xa ∷ 0xb ∷ 0xc ∷ 0xd ∷ 0xe ∷ 0xf
    ∷ 0x10 ∷ 0x11 ∷ 0x12 ∷ 0x13 ∷ 0x14 ∷ 0x15 ∷ 0x16 ∷ 0x17 ∷ 0x18 ∷ 0x19 ∷ 0x1a ∷ 0x1b ∷ 0x1c
    ∷ 0x1d ∷ 0x1e ∷ 0x1f ∷ 0x20 ∷ 0x21 ∷ 0x22 ∷ 0x23 ∷ 0x24 ∷ 0x25 ∷ 0x26 ∷ 0x27 ∷ 0x28 ∷ 0x2a
    ∷ 0x2c ∷ 0x2e ∷ 0x30 ∷ 0x32 ∷ 0x34 ∷ 0x36 ∷ 0x38 ∷ 0x3c ∷ 0x40 ∷ 0x44 ∷ 0x48 ∷ 0x4c ∷ 0x50
    ∷ 0x54 ∷ 0x58 ∷ 0x60 ∷ 0x68 ∷ 0x70 ∷ 0x78 ∷ 0x80 ∷ 0x88 ∷ 0x90 ∷ 0x98 ∷ 0xa8 ∷ 0xb8 ∷ 0xc8
    ∷ 0xd8 ∷ 0xe8 ∷ 0xf8 ∷ 0x108 ∷ 0x118 ∷ 0x138 ∷ 0x158 ∷ 0x178 ∷ 0x198 ∷ 0x1b8 ∷ 0x1d8 ∷ 0x1f8
    ∷ 0x218 ∷ 0x258 ∷ 0x298 ∷ 0x2d8 ∷ 0x318 ∷ 0x358 ∷ 0x398 ∷ 0x3d8 ∷ 0x418 ∷ 0x498 ∷ 0x518 ∷ 0x598
    ∷ 0x618 ∷ 0x698 ∷ 0x718 ∷ 0x798 ∷ 0x818 ∷ 0x918 ∷ 0xa18 ∷ 0xb18 ∷ 0xc18 ∷ 0xd18 ∷ 0xe18 ∷ 0xf18
    ∷ 0x1018 ∷ 0x1218 ∷ 0x1418 ∷ 0x1618 ∷ 0x1818 ∷ 0x1a18 ∷ 0x1c18 ∷ 0x1e18 ∷ 0x2018 ∷ 0x2418
    ∷ 0x2818 ∷ 0x2c18 ∷ 0x3018 ∷ 0x3418 ∷ 0x3818 ∷ 0x3c18 ∷ 0x4018 ∷ 0x4818 ∷ 0x5018 ∷ 0x5818
    ∷ 0x6018 ∷ 0x6818 ∷ 0x7018 ∷ 0x7818 ∷ 0x8018 ∷ 0x9018 ∷ 0xa018 ∷ 0xb018 ∷ 0xc018 ∷ 0xd018
    ∷ 0xe018 ∷ 0xf018 ∷ 0x10018 ∷ 0x12018 ∷ 0x14018 ∷ 0x16018 ∷ 0x18018 ∷ 0x1a018 ∷ 0x1c018
    ∷ 0x1e018 ∷ 0x20018 ∷ 0x24018 ∷ 0x28018 ∷ 0x2c018 ∷ 0x30018 ∷ 0x34018 ∷ 0x38018 ∷ 0x3c018
    ∷ 0x40018 ∷ 0x48018 ∷ 0x50018 ∷ 0x58018 ∷ 0x60018 ∷ 0x68018 ∷ 0x70018 ∷ 0x78018 ∷ 0x80018
    ∷ 0x90018 ∷ 0xa0018 ∷ 0xb0018 ∷ 0xc0018 ∷ 0xd0018 ∷ 0xe0018 ∷ 0xf0018 ∷ 0x100018 ∷ 0x120018
    ∷ 0x140018 ∷ 0x160018 ∷ 0x180018 ∷ 0x1a0018 ∷ 0x1c0018 ∷ 0x1e0018 ∷ 0x200018 ∷ 0x240018
    ∷ 0x280018 ∷ 0x2c0018 ∷ 0x300018 ∷ 0x340018 ∷ 0x380018 ∷ 0x3c0018 ∷ 0x400018 ∷ 0x480018
    ∷ 0x500018 ∷ 0x580018 ∷ 0x600018 ∷ 0x680018 ∷ 0x700018 ∷ 0x780018 ∷ 0x800018 ∷ 0x900018
    ∷ 0xa00018 ∷ 0xb00018 ∷ 0xc00018 ∷ 0xd00018 ∷ 0xe00018 ∷ 0xf00018 ∷ 0x1000018 ∷ 0x1200018
    ∷ 0x1400018 ∷ 0x1600018 ∷ 0x1800018 ∷ 0x1a00018 ∷ 0x1c00018 ∷ 0x1e00018 ∷ 0x2000018 ∷ 0x2400018
    ∷ 0x2800018 ∷ 0x2c00018 ∷ 0x3000018 ∷ 0x3400018 ∷ 0x3800018 ∷ 0x3c00018 ∷ 0x4000018 ∷ 0x4800018
    ∷ 0x5000018 ∷ 0x5800018 ∷ 0x6000018 ∷ 0x6800018 ∷ 0x7000018 ∷ 0x7800018 ∷ 0x8000018 ∷ 0x9000018
    ∷ 0xa000018 ∷ 0xb000018 ∷ 0xc000018 ∷ 0xd000018 ∷ 0xe000018 ∷ 0xf000018 ∷ 0x10000018
    ∷ 0x12000018 ∷ 0x14000018 ∷ 0x16000018 ∷ 0x18000018 ∷ 0x1a000018 ∷ 0x1c000018 ∷ 0x1e000018
    ∷ 0x20000018 ∷ 0x24000018 ∷ 0x28000018 ∷ 0x2c000018 ∷ 0x30000018 ∷ 0x34000018 ∷ 0x38000018
    ∷ 0x3c000018 ∷ 0x40000018 ∷ 0x48000018 ∷ 0x50000018 ∷ 0x58000018 ∷ 0x60000018 ∷ 0x68000018
    ∷ 0x70000018 ∷ 0x78000018 ∷ []

module _ (ops : ScoreOps) where
  abbrev one : ops.F32
  one = ops.of_count 1

  -- The score of one field, behind its factors.
  unfoldable pub field_score : Index ops → ℕ → ℕ × ℕ → Run (ops.F32 × ops.F32)
  field_score index doc_id field = do
    lengths ← load index.document_length_compressed_array field.0
    compressed ← load lengths doc_id
    normalized ← load document_length_compression compressed
    weight ← load index.boosts field.0
    (let quotient = ops.div (ops.of_count normalized) index.document_length_normalized_average in
        let tf = ops.of_count field.1 in
        let norm = ops.add (ops.sub one ops.b) (ops.mul ops.b quotient) in
        let numerator = ops.mul tf (ops.add ops.k one) in
        let ratio = ops.div numerator (ops.add tf (ops.mul ops.k norm)) in
        ok (weight, ops.add ratio ops.sigma))

  -- The loop over the fields, with what the weight is multiplied by.
  unfoldable pub fields_score :
      Index ops → ℕ → (ops.F32 → ops.F32) → ops.F32 → List (ℕ × ℕ) → Run ops.F32
  fields_score index doc_id factor posting_score [] = ok posting_score
  fields_score index doc_id factor posting_score (field ∷ fields) = do
    score ← field_score index doc_id field
    fields_score index doc_id factor (ops.add posting_score (ops.mul (factor score.0) score.1))
        fields

  unfoldable pub idf : ℕ → ℕ → ops.F32
  idf doc_count posting_count =
      let postings = ops.of_count posting_count in
      let rest = ops.add (ops.sub (ops.of_count doc_count) postings) ops.half in
      ops.ln (ops.add (ops.div rest (ops.add postings ops.half)) one)

  unfoldable pub posting_score : Index ops → ℕ → DecodedFields → Run ops.F32
  posting_score index doc_id fields =
      let zero_score = ops.of_count 0 in
      if not index.plo.is_bigram || index.is_bm25f_proximity
      then fields_score index doc_id (λ w. w) zero_score fields.field_vec
      else (do
        let idf1 = idf index.indexed_doc_count index.plo.posting_count_bigram1
        let idf2 = idf index.indexed_doc_count index.plo.posting_count_bigram2
        score1 ← fields_score index doc_id (λ w. ops.mul w idf1) zero_score fields.field_vec_bigram1
        fields_score index doc_id (λ w. ops.mul w idf2) score1 fields.field_vec_bigram2)

  unfoldable pub update_max : ops.F32 → ℕ → ℕ → PostingListObject0 ops → PostingListObject0 ops
  update_max score doc_id p_docid plo =
      if ops.above score plo.max_block_score
      then record plo { max_block_score = score; max_docid = doc_id; max_p_docid = p_docid % 65536 }
      else plo
