-- ===== src/Embed/RoundTrip.antt =====
-- In an index with one field, a search finds the positions that were embedded.
use seek_storm.Base.{
  ℕ, ◌+◌, ◌-◌, ◌*◌, ◌/◌, ◌^◌, ◌≤◌, ◌<◌, List, [], ◌∷◌, ◌++◌, Bool, true, false, ok, length, leb,
  if◌then◌else◌, bit_and, ◌≡◌, refl, ap, ◌∙◌, arith, Bool-cases, inl, inr, At,
}
use seek_storm.Base.Bits.{bit_and-low, bit_and-power, check_below}
use seek_storm.Utils.{from_le_bytes, read_u16, read_u32}
use seek_storm.Positions.Encode.{AllU16}
use seek_storm.Fields.{has_bit}
use seek_storm.Embed.{embed_single, single_bytes, pack_positions}
use seek_storm.Embed.Bytes.{two_bytes, three_bytes, read_le-bytes}
use seek_storm.Embed.Choice.{Embedded, embed_single-Embedded}
use seek_storm.Embed.Decode.{
  PostingListQuery, QueryFlags, speedup, difference, short_pointer, read_rank, single_count,
  single_positions, decode_singlefield,
}
use seek_storm.Embed.Pack.{packed, packed-lt, pack_positions-packed}
use seek_storm.Embed.Places.{four, places, places-packed}

-- The bytes of the rank pointer of the current posting, and where they begin.
abbrev pub pointer_size : PostingListQuery → ℕ
pointer_size plo = if short_pointer plo then 2 else 3

abbrev pub rank_start : PostingListQuery → ℕ
rank_start plo =
    plo.rank_position_pointer_range
    + (if short_pointer plo then plo.p_docid * 2 else plo.p_docid * 3 - plo.pointer_pivot_p_docid)

pub packed_alone :
    (r most : ℕ) (positions : List ℕ)
    → Embedded r most positions
    → 2 ^ r ≤ 2 ^ 32
    → (pack_positions r 0 positions ≡ packed r positions) × (packed r positions < 2 ^ r)
packed_alone r most positions embedded small = (
  pack_positions-packed r 0 positions embedded.2 (omega arith) ∙ omega arith,
  packed-lt r positions embedded.2,
)

-- The bit that tells an embedded posting.
pub embedded-short : (rank : ℕ) → 2 ^ 15 ≤ rank → rank < 2 ^ 16 → has_bit rank 0x8000 ≡ true
embedded-short rank h g = ground (arith, bit_and-power 15 rank 0x8000 refl)

pub embedded-long :
    (rank low next : ℕ)
    → rank ≡ low + next * 2 ^ 24
    → 2 ^ 23 ≤ low
    → low < 2 ^ 24
    → has_bit rank 0x800000 ≡ true
embedded-long rank low next e h g = ground (arith, bit_and-power 23 rank 0x800000 refl)

module _ (plo : PostingListQuery) (b0 b1 : ℕ) where
  pub read_rank-short :
      (next : ℕ)
      → short_pointer plo ≡ true
      → At plo.byte_array (rank_start plo) (b0 ∷ b1 ∷ next ∷ [])
      → read_rank plo ≡ ok (from_le_bytes (b0 ∷ b1 ∷ []))
  unfolding read_rank read_u16
  read_rank-short next short a =
      let place : rank_start plo ≡ plo.rank_position_pointer_range + plo.p_docid * 2 =
        rw short refl in
      rw (short, ← place)
        (read_le-bytes plo.byte_array (rank_start plo) b0 (b1 ∷ []) (a.0, (a.1.0, tt)))

  pub read_rank-long :
      (b2 next : ℕ)
      → short_pointer plo ≡ false
      → At plo.byte_array (rank_start plo) (b0 ∷ b1 ∷ b2 ∷ next ∷ [])
      → read_rank plo ≡ ok (from_le_bytes (b0 ∷ b1 ∷ b2 ∷ next ∷ []))
  unfolding read_rank read_u32
  read_rank-long b2 next long a =
      let place : rank_start plo
          ≡ plo.rank_position_pointer_range + (plo.p_docid * 3 - plo.pointer_pivot_p_docid) =
        rw long refl in
      let no_underflow : leb plo.pointer_pivot_p_docid (plo.p_docid * 3) ≡ true =
        ground (arith, long) in
      rw (long, no_underflow, ← place)
        (read_le-bytes plo.byte_array (rank_start plo) b0 (b1 ∷ b2 ∷ next ∷ []) a)

-- A tag selects the count and the positions.
module _ (rank count : ℕ) where
  short_tag :
      1 ≤ count
      → count ≤ 2
      → rank / 2 ^ 14 ≡ count + 1
      → (single_count true rank ≡ count) × (single_positions true rank ≡ places count rank 14)
  unfolding single_count single_positions
  short_tag h g tag = (ground arith, ground arith)

  long_tag :
      1 ≤ count
      → count ≤ 4
      → bit_and rank 0xffffff / 2 ^ 21 ≡ count + 3
      → (single_count false rank ≡ count) × (single_positions false rank ≡ places count rank 21)
  unfolding single_count single_positions
  long_tag h g tag = (ground arith, ground arith)

module _ (positions : List ℕ) where
  short_facts :
      (rank : ℕ)
      → Embedded 14 2 positions
      → rank ≡ packed 14 positions + (length positions + 1) * 2 ^ 14
      → (has_bit rank 0x8000 ≡ true)
        × (single_count true rank ≡ length positions)
        × (single_positions true rank ≡ four positions)
  short_facts rank embedded e =
      let below : packed 14 positions < 2 ^ 14 = packed-lt 14 positions embedded.2 in
      let chosen =
        short_tag rank (length positions) embedded.0 embedded.1 (omega (arith, embedded.1)) in
      (
        embedded-short rank (omega (arith, embedded.0)) (omega (arith, embedded.1)),
        chosen.0,
        chosen.1
            ∙ places-packed 14 (length positions + 1) rank positions
                (embedded.0, omega (arith, embedded.1), embedded.2) (omega arith),
      )

  long_facts :
      (rank next : ℕ)
      → Embedded 21 4 positions
      → rank ≡ packed 21 positions + (length positions + 3) * 2 ^ 21 + next * 2 ^ 24
      → (has_bit rank 0x800000 ≡ true)
        × (single_count false rank ≡ length positions)
        × (single_positions false rank ≡ four positions)
  long_facts rank next embedded e =
      let below : packed 21 positions < 2 ^ 21 = packed-lt 21 positions embedded.2 in
      let low : ℕ = packed 21 positions + (length positions + 3) * 2 ^ 21 in
      let small : low < 2 ^ 24 = omega (arith, embedded.1) in
      let split : rank ≡ next * 2 ^ 24 + low = omega arith in
      let masked : bit_and rank 0xffffff ≡ low =
        ap (λ k. bit_and k 0xffffff) split
        ∙ bit_and-low 24 next (next * 2 ^ 24) low 0xffffff refl small refl in
      let chosen = long_tag rank (length positions) embedded.0 embedded.1 (omega (arith, masked)) in
      (
        embedded-long rank low next (omega arith) (omega (arith, embedded.0)) small,
        chosen.0,
        chosen.1
            ∙ places-packed 21 (length positions + 3 + next * 8) rank positions embedded
                (omega arith),
      )

  -- The rank pointer that the bytes make up.
  short_rank :
      Embedded 14 2 positions
      → from_le_bytes (single_bytes 2 positions)
        ≡ packed 14 positions + (length positions + 1) * 2 ^ 14
  unfolding single_bytes check_below
  short_rank embedded =
      let value = packed_alone 14 2 positions embedded (omega arith) in
      rw (value.0) (
        two_bytes 6 128 128 (length positions - 1) (packed 14 positions) refl (omega arith)
          (omega (arith, value.1)) (omega (arith, value.1, embedded.1))
        ∙ omega (arith, embedded.0))

  long_rank :
      (next : ℕ)
      → Embedded 21 4 positions
      → from_le_bytes (single_bytes 3 positions ++ next ∷ [])
        ≡ packed 21 positions + (length positions + 3) * 2 ^ 21 + next * 2 ^ 24
  unfolding single_bytes check_below
  long_rank next embedded =
      let value = packed_alone 21 4 positions embedded (omega arith) in
      rw (value.0) (
        three_bytes 5 128 128 (length positions - 1) (packed 21 positions) refl (omega arith) next
          (omega (arith, value.1)) (omega (arith, value.1, embedded.1))
        ∙ omega (arith, embedded.0))

pub offset_long :
    (plo : PostingListQuery)
    → short_pointer plo ≡ false
    → difference (plo.p_docid * 3) plo.pointer_pivot_p_docid
      ≡ ok (plo.p_docid * 3 - plo.pointer_pivot_p_docid)
offset_long plo long = ground (arith, long)

-- What a search leaves behind on an embedded posting.
abbrev pub found : PostingListQuery → QueryFlags → List ℕ → PostingListQuery
found plo flags positions = record plo {
  is_embedded = true;
  embedded_positions = if flags.phrase_query then four positions else plo.embedded_positions;
  positions_pointer = rank_start plo;
  positions_count = length positions;
}

module _ (plo : PostingListQuery) (flags : QueryFlags) (positions : List ℕ) where
  decode_embedded :
      (rank : ℕ) (short : Bool)
      → short_pointer plo ≡ short
      → speedup flags ≡ false
      → read_rank plo ≡ ok rank
      → has_bit rank (if short then 0x8000 else 0x800000) ≡ true
      → (single_count short rank ≡ length positions)
        × (single_positions short rank ≡ four positions)
      → decode_singlefield plo flags ≡ ok (found plo flags positions, false)
  unfolding decode_singlefield
  decode_embedded rank true short slow read flag facts =
      rw (read, short, flag, slow, facts.0, facts.1) refl
  decode_embedded rank false long slow read flag facts =
      rw (read, long, flag, slow, facts.0, facts.1, offset_long plo long) refl

  decode_short :
      (next : ℕ)
      → AllU16 positions
      → short_pointer plo ≡ true
      → embed_single 2 positions ≡ true
      → At plo.byte_array (rank_start plo) (single_bytes 2 positions ++ next ∷ [])
      → speedup flags ≡ false
      → decode_singlefield plo flags ≡ ok (found plo flags positions, false)
  unfolding single_bytes
  decode_short next u16 short embed written slow =
      let embedded = (embed_single-Embedded positions u16).0 embed in
      let read = read_rank-short plo _ _ next short written in
      let facts =
        short_facts positions (from_le_bytes (single_bytes 2 positions)) embedded
          (short_rank positions embedded) in
      decode_embedded (from_le_bytes (single_bytes 2 positions)) true short slow read facts.0
        (facts.1, facts.2)

  decode_long :
      (next : ℕ)
      → AllU16 positions
      → short_pointer plo ≡ false
      → embed_single 3 positions ≡ true
      → At plo.byte_array (rank_start plo) (single_bytes 3 positions ++ next ∷ [])
      → speedup flags ≡ false
      → decode_singlefield plo flags ≡ ok (found plo flags positions, false)
  unfolding single_bytes
  decode_long next u16 long embed written slow =
      let embedded = (embed_single-Embedded positions u16).1 embed in
      let read = read_rank-long plo _ _ _ next long written in
      let facts =
        long_facts positions (from_le_bytes (single_bytes 3 positions ++ next ∷ [])) next embedded
          (long_rank positions next embedded) in
      decode_embedded (from_le_bytes (single_bytes 3 positions ++ next ∷ [])) false long slow read
        facts.0 (facts.1, facts.2)

  -- A posting that is embedded, and whose bytes a further byte follows, is decoded without a panic:
  -- where the query does not speed up, the positions of a phrase query are those that were embedded,
  -- filled up to four with zeros, and the count is theirs.
  pub decode_singlefield-single_bytes :
      (next : ℕ)
      → AllU16 positions
      → embed_single (pointer_size plo) positions ≡ true
      → At plo.byte_array (rank_start plo) (single_bytes (pointer_size plo) positions ++ next ∷ [])
      → speedup flags ≡ false
      → decode_singlefield plo flags ≡ ok (found plo flags positions, false)
  decode_singlefield-single_bytes next u16 embed written slow =
      elim (Bool-cases (short_pointer plo)) [
        | inl short ↦
            let size : pointer_size plo ≡ 2 = rw short refl in
            decode_short next u16 short (rw size at embed) (rw size at written) slow
        | inr long ↦
            let size : pointer_size plo ≡ 3 = rw long refl in
            decode_long next u16 long (rw size at embed) (rw size at written) slow
      ]
