-- ===== src/Embed/Longest.antt =====
-- In an index with several fields, a search finds the positions of a term that occurs in the
-- longest field only.
use seek_storm.Base.{
  ℕ, ◌+◌, ◌-◌, ◌*◌, ◌/◌, ◌%◌, ◌^◌, ◌≤◌, ◌<◌, List, [], ◌∷◌, ◌++◌, Bool, true, false, Run, ok,
  length, ◌==◌, if◌then◌else◌, ◌≡◌, refl, ap, ◌∙◌, arith, Bool-cases, inl, inr, At,
}
use seek_storm.Base.Bits.{check_below}
use seek_storm.Utils.{from_le_bytes}
use seek_storm.Positions.Encode.{AllU16}
use seek_storm.Fields.{has_bit}
use seek_storm.Fields.Embedded.{FieldSchema, embedded_fields_2, embedded_fields_3}
use seek_storm.Embed.{embed_longest, longest_bytes}
use seek_storm.Embed.Bytes.{two_bytes, three_bytes}
use seek_storm.Embed.Choice.{Embedded, embed_longest-Embedded}
use seek_storm.Embed.Decode.{PostingListQuery, QueryFlags, speedup, short_pointer, read_rank}
use seek_storm.Embed.Multi.{
  with_u16_id, multi_positions_2, multi_positions_3, multi_positions, multi_fields,
  decode_multifield,
}
use seek_storm.Embed.Pack.{packed, packed-lt}
use seek_storm.Embed.Places.{four, places, places-packed}
use seek_storm.Embed.RoundTrip.{
  pointer_size, rank_start, packed_alone, embedded-short, embedded-long, read_rank-short,
  read_rank-long, offset_long,
}

-- What a search leaves behind on an embedded posting.
abbrev pub found_fields :
    PostingListQuery → QueryFlags → List ℕ → ℕ × ℕ → List (ℕ × ℕ) → PostingListQuery
found_fields plo flags positions field fields = record plo {
  is_embedded = true;
  embedded_positions = if flags.phrase_query then four positions else plo.embedded_positions;
  positions_pointer = rank_start plo;
  positions_count = field.1;
  field_vec = field ∷ fields;
}

if_phrase :
    (phrase : Bool) (old : List ℕ) {m : Run (List ℕ)} {v : List ℕ}
    → m ≡ ok v
    → (if phrase then m else ok old) ≡ ok (if phrase then v else old)
if_phrase true old e = e
if_phrase false old e = refl

module _ (schema : FieldSchema) (plo : PostingListQuery) (flags : QueryFlags)
    (positions : List ℕ) where
  pub decode_embedded_fields :
      (rank : ℕ) (field : ℕ × ℕ) (fields : List (ℕ × ℕ)) (short : Bool)
      → short_pointer plo ≡ short
      → speedup flags ≡ false
      → read_rank plo ≡ ok rank
      → has_bit rank (if short then 0x8000 else 0x800000) ≡ true
      → multi_fields short schema rank ≡ ok (field ∷ fields)
      → multi_positions short schema rank ≡ ok (four positions)
      → decode_multifield schema plo flags
        ≡ ok (found_fields plo flags positions field fields, false)
  unfolding decode_multifield
  decode_embedded_fields rank field fields true short slow read flag fs ps =
      rw (read, short, flag, slow, fs, if_phrase flags.phrase_query plo.embedded_positions ps) refl
  decode_embedded_fields rank field fields false long slow read flag fs ps =
      rw
        (
          read,
          long,
          flag,
          slow,
          fs,
          offset_long plo long,
          if_phrase flags.phrase_query plo.embedded_positions ps,
        )
        refl

-- A tag selects the field and the positions.
module _ (schema : FieldSchema) (several : (schema.indexed_field_vec_len == 1) ≡ false)
    (rank count : ℕ) where
  short_tag :
      1 ≤ count
      → count ≤ 2
      → rank / 2 ^ 13 ≡ count + 5
      → (embedded_fields_2 schema rank ≡ ok ((schema.longest_field_id, count) ∷ []))
        × (multi_positions_2 schema rank ≡ ok (places count rank 13))
  unfolding embedded_fields_2 multi_positions_2
  short_tag h g tag = (ground (arith, several), ground (arith, several))

  long_tag :
      1 ≤ count
      → count ≤ 4
      → rank % 2 ^ 24 / 2 ^ 20 ≡ count + 11
      → (embedded_fields_3 schema rank ≡ ok ((schema.longest_field_id, count) ∷ []))
        × (multi_positions_3 schema rank ≡ ok (places count rank 20))
  unfolding embedded_fields_3 multi_positions_3
  long_tag h g tag = (ground (arith, several), ground (arith, several))

module _ (schema : FieldSchema) (several : (schema.indexed_field_vec_len == 1) ≡ false)
    (positions : List ℕ) where
  short_facts :
      (rank : ℕ)
      → Embedded 13 2 positions
      → rank ≡ packed 13 positions + (length positions + 5) * 2 ^ 13
      → (has_bit rank 0x8000 ≡ true)
        × (embedded_fields_2 schema rank ≡ ok ((schema.longest_field_id, length positions) ∷ []))
        × (multi_positions_2 schema rank ≡ ok (four positions))
  short_facts rank embedded e =
      let below : packed 13 positions < 2 ^ 13 = packed-lt 13 positions embedded.2 in
      let chosen =
        short_tag schema several rank (length positions) embedded.0 embedded.1
          (omega (arith, embedded.1)) in
      (
        embedded-short rank (omega (arith, embedded.0)) (omega (arith, embedded.1)),
        chosen.0,
        chosen.1
            ∙ ap ok (
                places-packed 13 (length positions + 5) rank positions
                  (embedded.0, omega (arith, embedded.1), embedded.2) (omega arith)),
      )

  long_facts :
      (rank next : ℕ)
      → Embedded 20 4 positions
      → rank ≡ packed 20 positions + (length positions + 11) * 2 ^ 20 + next * 2 ^ 24
      → (has_bit rank 0x800000 ≡ true)
        × (embedded_fields_3 schema rank ≡ ok ((schema.longest_field_id, length positions) ∷ []))
        × (multi_positions_3 schema rank ≡ ok (four positions))
  long_facts rank next embedded e =
      let below : packed 20 positions < 2 ^ 20 = packed-lt 20 positions embedded.2 in
      let low : ℕ = packed 20 positions + (length positions + 11) * 2 ^ 20 in
      let small : low < 2 ^ 24 = omega (arith, embedded.1) in
      let chosen =
        long_tag schema several rank (length positions) embedded.0 embedded.1
          (omega (arith, embedded.1)) in
      (
        embedded-long rank low next (omega arith) (omega (arith, embedded.0)) small,
        chosen.0,
        chosen.1
            ∙ ap ok (
                places-packed 20 (length positions + 11 + next * 16) rank positions embedded
                  (omega arith)),
      )

module _ (schema : FieldSchema) (several : (schema.indexed_field_vec_len == 1) ≡ false)
    (positions : List ℕ) where
  short_rank :
      Embedded 13 2 positions
      → from_le_bytes (longest_bytes 2 positions)
        ≡ packed 13 positions + (length positions + 5) * 2 ^ 13
  unfolding longest_bytes check_below
  short_rank embedded =
      let value = packed_alone 13 2 positions embedded (omega arith) in
      rw (value.0) (
        two_bytes 5 192 64 (length positions - 1) (packed 13 positions) refl (omega arith)
          (omega (arith, value.1)) (omega (arith, value.1, embedded.1))
        ∙ omega (arith, embedded.0))

  long_rank :
      (next : ℕ)
      → Embedded 20 4 positions
      → from_le_bytes (longest_bytes 3 positions ++ next ∷ [])
        ≡ packed 20 positions + (length positions + 11) * 2 ^ 20 + next * 2 ^ 24
  unfolding longest_bytes check_below
  long_rank next embedded =
      let value = packed_alone 20 4 positions embedded (omega arith) in
      rw (value.0) (
        three_bytes 4 192 64 (length positions - 1) (packed 20 positions) refl (omega arith) next
          (omega (arith, value.1)) (omega (arith, value.1, embedded.1))
        ∙ omega (arith, embedded.0))

  longest_u16 :
      schema.longest_field_id < 65536 → schema.longest_field_id % 65536 ≡ schema.longest_field_id
  longest_u16 small = omega (arith, small)

  module _ (plo : PostingListQuery) (flags : QueryFlags) where
    decode_short :
        (next : ℕ)
        → schema.longest_field_id < 65536
        → AllU16 positions
        → short_pointer plo ≡ true
        → embed_longest 2 positions ≡ true
        → At plo.byte_array (rank_start plo) (longest_bytes 2 positions ++ next ∷ [])
        → speedup flags ≡ false
        → decode_multifield schema plo flags
          ≡ ok (
            found_fields plo flags positions (schema.longest_field_id, length positions) [],
            false,
          )
    unfolding longest_bytes
    decode_short next small u16 short embed written slow =
        let embedded = (embed_longest-Embedded positions u16).0 embed in
        let rank : ℕ = from_le_bytes (longest_bytes 2 positions) in
        let facts =
          short_facts (with_u16_id schema) several positions rank embedded (short_rank embedded) in
        decode_embedded_fields schema plo flags positions rank _ [] true short slow
          (read_rank-short plo _ _ next short written) facts.0
          (facts.1 ∙ ap (λ (t : ℕ). ok ((t, length positions) ∷ [])) (longest_u16 small)) facts.2

    decode_long :
        (next : ℕ)
        → schema.longest_field_id < 65536
        → AllU16 positions
        → short_pointer plo ≡ false
        → embed_longest 3 positions ≡ true
        → At plo.byte_array (rank_start plo) (longest_bytes 3 positions ++ next ∷ [])
        → speedup flags ≡ false
        → decode_multifield schema plo flags
          ≡ ok (
            found_fields plo flags positions (schema.longest_field_id, length positions) [],
            false,
          )
    unfolding longest_bytes
    decode_long next small u16 long embed written slow =
        let embedded = (embed_longest-Embedded positions u16).1 embed in
        let rank : ℕ = from_le_bytes (longest_bytes 3 positions ++ next ∷ []) in
        let facts =
          long_facts (with_u16_id schema) several positions rank next embedded
            (long_rank next embedded) in
        decode_embedded_fields schema plo flags positions rank _ [] false long slow
          (read_rank-long plo _ _ _ next long written) facts.0
          (facts.1 ∙ ap (λ (t : ℕ). ok ((t, length positions) ∷ [])) (longest_u16 small)) facts.2

    -- In an index with several fields, a posting of a term that occurs in the longest field only,
    -- whose id is a u16, and that is embedded, and whose bytes a further byte follows, is decoded
    -- without a panic: where the query does not speed up, the positions of a phrase query are those
    -- that were embedded, filled up to four with zeros, and the field is the longest one with their
    -- count.
    pub decode_multifield-longest_bytes :
        (next : ℕ)
        → schema.longest_field_id < 65536
        → AllU16 positions
        → embed_longest (pointer_size plo) positions ≡ true
        → At plo.byte_array
            (rank_start plo)
            (longest_bytes (pointer_size plo) positions ++ next ∷ [])
        → speedup flags ≡ false
        → decode_multifield schema plo flags
          ≡ ok (
            found_fields plo flags positions (schema.longest_field_id, length positions) [],
            false,
          )
    decode_multifield-longest_bytes next small u16 embed written slow =
        elim (Bool-cases (short_pointer plo)) [
          | inl short ↦
              let size : pointer_size plo ≡ 2 = rw short refl in
              decode_short next small u16 short (rw size at embed) (rw size at written) slow
          | inr long ↦
              let size : pointer_size plo ≡ 3 = rw long refl in
              decode_long next small u16 long (rw size at embed) (rw size at written) slow
        ]
