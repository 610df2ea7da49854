-- ===== src/Fields/RoundTrip.antt =====
-- The fields of a term are read as they were written, where the index has one indexed field or the
-- term occurs in the longest field only.
use seek_storm.Base.{
  ℕ, suc, ◌+◌, ◌*◌, ◌/◌, ◌%◌, ◌^◌, ◌≤◌, ◌<◌, List, [], ◌∷◌, true, ok, load, length, arith, ltb,
  ◌==◌, if◌then◌else◌, bit_and, bit_or, ◌≡◌, refl, ◌⊎◌, inl, inr, Bool-cases, overwrite, At,
  At-overwrite, get_elem?, get_elem?-overwrite_frame, some,
}
use seek_storm.Base.Bits.{low_7, bit_and-0x80, bit_or-0x80, bit_or-shifted, eq_below, check_below}
use seek_storm.Positions.Encode.{store-first, store-next}
use seek_storm.Fields.{
  write_single, write_longest, write_field, write_fields, write_field_vec, has_bit, read_count,
  read_multifield_vec,
}

-- A count below 2 ^ 14 whose first byte carries `tag` above its bits: `one` is the tag of a count of
-- one byte.
unfoldable count_bytes : ℕ → ℕ → ℕ → List ℕ
count_bytes bound tag count =
    if ltb count bound
    then ((count + tag + 128) ∷ [])
    else ((count / 128 + tag) ∷ (count % 128 + 128) ∷ [])

or_tag : (b : ℕ) → b < 64 → (bit_or b 0xc0 ≡ b + 192) × (bit_or b 0x40 ≡ b + 64)
unfolding check_below
or_tag b h = (
  eq_below 64 (λ b. bit_or b 0xc0) (λ b. b + 192) b refl h,
  eq_below 64 (λ b. bit_or b 0x40) (λ b. b + 64) b refl h,
)

-- What the mask of six bits and the bit 0x40 see of a byte.
and_tag : (b : ℕ) → b < 256 → (bit_and b 0x3f ≡ b % 64) × (bit_and b 0x40 ≡ b / 64 % 2 * 64)
unfolding check_below
and_tag b h = (
  eq_below 256 (λ b. bit_and b 0x3f) (λ b. b % 64) b refl h,
  eq_below 256 (λ b. bit_and b 0x40) (λ b. b / 64 % 2 * 64) b refl h,
)

module _ (buffer : List ℕ) (p count : ℕ) where
  write_single-ok :
      count < 16384
      → p + 2 ≤ length buffer
      → write_single buffer p count
        ≡ ok (overwrite buffer p (count_bytes 128 0 count), p + length (count_bytes 128 0 count))
  unfolding write_single count_bytes
  write_single-ok h room = ground (
    arith,
    low_7 count,
    bit_or-0x80 (count % 256),
    bit_or-0x80 (count % 128),
    store-first buffer p (count + 0 + 128),
    store-first buffer p (count / 128 + 0),
    store-next buffer p (p + 1) ((count / 128 + 0) ∷ []) (count % 128 + 128),
  )

  write_longest-ok :
      count < 8192
      → p + 2 ≤ length buffer
      → write_longest buffer p count
        ≡ ok (overwrite buffer p (count_bytes 64 64 count), p + length (count_bytes 64 64 count))
  unfolding write_longest count_bytes
  write_longest-ok h room = ground (
    arith,
    low_7 count,
    or_tag (count % 256),
    or_tag (count / 128),
    bit_or-0x80 (count % 128),
    store-first buffer p (count + 64 + 128),
    store-first buffer p (count / 128 + 64),
    store-next buffer p (p + 1) ((count / 128 + 64) ∷ []) (count % 128 + 128),
  )

-- What the readers see where those bytes stand.
module _ (bytes : List ℕ) (p count : ℕ) where
  first_byte :
      (bound tag : ℕ)
      → At bytes p (count_bytes bound tag count)
      → ((count < bound) × (get_elem? bytes p ≡ some (count + tag + 128)))
        ⊎ ((bound ≤ count)
            × (get_elem? bytes p ≡ some (count / 128 + tag))
            × (get_elem? bytes (suc p) ≡ some (count % 128 + 128)))
  unfolding count_bytes
  first_byte bound tag a = elim (Bool-cases (ltb count bound)) [
    | inl one ↦ let b = rw one at a in inl (ground arith, b.0)
    | inr more ↦ let b = rw more at a in inr (ground arith, b.0, b.1.0)
  ]

  read_count-single :
      count < 16384
      → At bytes p (count_bytes 128 0 count)
      → read_count 0x7f bytes p ≡ ok (count, p + length (count_bytes 128 0 count))
  unfolding read_count count_bytes
  read_count-single h a = ground (
    arith,
    first_byte 128 0 a,
    low_7 (count + 0 + 128),
    low_7 (count / 128 + 0),
    low_7 (count % 128 + 128),
    bit_and-0x80 (count + 0 + 128),
    bit_and-0x80 (count / 128 + 0),
    bit_and-0x80 (count % 128 + 128),
    bit_or-shifted 7 (count / 128) (count / 128 * 2 ^ 7) (count % 128) refl,
  )

  read_count-longest :
      count < 8192
      → At bytes p (count_bytes 64 64 count)
      → read_count 0x3f bytes p ≡ ok (count, p + length (count_bytes 64 64 count))
  unfolding read_count count_bytes
  read_count-longest h a = ground (
    arith,
    first_byte 64 64 a,
    and_tag (count + 64 + 128),
    and_tag (count / 128 + 64),
    low_7 (count % 128 + 128),
    bit_and-0x80 (count + 64 + 128),
    bit_and-0x80 (count / 128 + 64),
    bit_and-0x80 (count % 128 + 128),
    bit_or-shifted 7 (count / 128) (count / 128 * 2 ^ 7) (count % 128) refl,
  )

  tag_seen :
      count < 8192
      → At bytes p (count_bytes 64 64 count)
      → (byte : ℕ) × (load bytes p ≡ ok byte) × (has_bit byte 0x40 ≡ true)
  tag_seen h a = elim (first_byte 64 64 a) [
    | inl one ↦ (count + 64 + 128, ground arith, ground (arith, and_tag (count + 64 + 128)))
    | inr more ↦ (count / 128 + 64, ground arith, ground (arith, and_tag (count / 128 + 64)))
  ]

-- The bound on the count, and the bytes, by the number of indexed fields.
abbrev pub count_bound : ℕ → ℕ
count_bound indexed_field_vec_len = if indexed_field_vec_len == 1 then 16384 else 8192

abbrev written_bytes : ℕ → ℕ → List ℕ
written_bytes len count = if len == 1 then count_bytes 128 0 count else count_bytes 64 64 count

module _ (len longest nonempty id_bits count : ℕ) (buffer : List ℕ) (p : ℕ) where
  write_field_vec-ok :
      count < count_bound len
      → p + 2 ≤ length buffer
      → write_field_vec buffer p ((longest, count) ∷ []) len true nonempty id_bits
        ≡ ok (overwrite buffer p (written_bytes len count), p + length (written_bytes len count))
  unfolding write_field_vec write_fields write_field
  write_field_vec-ok h room = elim (Bool-cases (len == 1)) [
    | inl e ↦ let bound = rw e at h in ground (arith, e, write_single-ok buffer p count bound room)
    | inr e ↦ let bound = rw e at h in ground (arith, e, write_longest-ok buffer p count bound room)
  ]

read_multifield_vec-At :
    (len longest id_bits id_mask count : ℕ) (bytes : List ℕ) (p : ℕ)
    → longest < 65536
    → count < count_bound len
    → At bytes p (written_bytes len count)
    → read_multifield_vec len id_bits id_mask longest [] bytes p
      ≡ ok (((if len == 1 then 0 else longest), count) ∷ [], p + length (written_bytes len count))
unfolding read_multifield_vec
read_multifield_vec-At len longest id_bits id_mask count bytes p small h a =
    elim (Bool-cases (len == 1)) [
      | inl e ↦
          let bound = rw e at h in
          let placed = rw e at a in ground (arith, e, read_count-single bytes p count bound placed)
      | inr e ↦
          let bound = rw e at h in
          let placed = rw e at a in
          let whole : longest % 65536 ≡ longest = omega (arith, small) in
          ground (
            arith,
            e,
            whole,
            tag_seen bytes p count bound placed,
            read_count-longest bytes p count bound placed,
          )
    ]

length-written_bytes : (len count : ℕ) → length (written_bytes len count) ≤ 2
unfolding count_bytes
length-written_bytes len count = ground arith

-- Where a term occurs in the longest field only, whose id is a u16, fewer than 2 ^ 13 times or, in an
-- index with one indexed field, fewer than 2 ^ 14 times, and the buffer has room for two bytes, write_field_vec
-- returns, it changes no byte outside those that it passed, and read_multifield_vec from the old
-- pointer on returns the field, which is 0 in an index with one, and the count, and ends at the new
-- pointer.
pub read_multifield_vec-write_field_vec :
    (len longest nonempty id_bits id_mask count : ℕ) (buffer : List ℕ) (p : ℕ)
    → longest < 65536
    → count < count_bound len
    → p + 2 ≤ length buffer
    → (result : List ℕ) × (q : ℕ) × (write_field_vec buffer p
          ((longest, count) ∷ [])
          len
          true
          nonempty
          id_bits
        ≡ ok (result, q))
      × ((i : ℕ) → (i < p) ⊎ (q ≤ i) → get_elem? result i ≡ get_elem? buffer i)
      × (read_multifield_vec len id_bits id_mask longest [] result p
          ≡ ok (((if len == 1 then 0 else longest), count) ∷ [], q))
read_multifield_vec-write_field_vec len longest nonempty id_bits id_mask count buffer p small h
      room =
    (
      overwrite buffer p (written_bytes len count),
      p + length (written_bytes len count),
      write_field_vec-ok len longest nonempty id_bits count buffer p h room,
      λ i out. get_elem?-overwrite_frame buffer p (written_bytes len count) i out,
      read_multifield_vec-At len longest id_bits id_mask count
          (overwrite buffer p (written_bytes len count)) p small h
          (At-overwrite buffer p (written_bytes len count)
            (omega (arith, room, length-written_bytes len count))),
    )
