-- ===== src/Positions/Decode.antt =====
-- The decoders read the bytes of positions back.
use seek_storm.Base.{
  ℕ, zero, suc, Bool-cases, inl, inr, ◌+◌, ◌*◌, ◌/◌, ◌%◌, ◌^◌, ◌<◌, List, [], ◌∷◌, false, Run, ok,
  ◌>>=◌, ltb, bit_or, ◌≡◌, refl, ap, length, arith, At, At-append, get_elem?, length-append, some,
}
use seek_storm.Base.Bits.{low_7, bit_and-0x80, bit_or-shifted, bit_or-shift, eq_below, check_below}
use seek_storm.Positions.{
  NonUniquePostingListObjectQuery, advanced, next_position, get_next_position_singlefield,
  get_next_position_multifield,
}
use seek_storm.Positions.Encode.{position_bytes, AllU16, all_bytes}

-- Three bytes hold 16 bits, the two parts of the upper nine overlapping in one.
joined :
    (delta : ℕ)
    → delta < 65536
    → bit_or (bit_or (delta / 8192 * 2 ^ 13) (delta / 128 % 128 * 2 ^ 7)) (delta % 128) ≡ delta
unfolding check_below
joined delta h =
    let upper : bit_or (delta / 8192 * 2 ^ 13) (delta / 128 % 128 * 2 ^ 7) ≡ delta / 128 * 2 ^ 7 =
      omega (
        arith,
        bit_or-shift 7 (delta / 128 / 64 * 64) (delta / 128 % 128) (delta / 8192 * 2 ^ 13)
            (delta / 128 % 128 * 2 ^ 7) (omega arith) refl,
        eq_below 512 (λ h. bit_or (h / 64 * 64) (h % 128)) (λ h. h) (delta / 128) refl
            (omega arith),
      ) in
    omega (
      arith,
      bit_or-shifted 7 (delta / 128) (bit_or (delta / 8192 * 2 ^ 13) (delta / 128 % 128 * 2 ^ 7))
          (delta % 128) upper (omega arith),
      upper,
    )

module _ (plo : NonUniquePostingListObjectQuery) (delta : ℕ) where
  read_one :
      delta < 128
      → get_elem? plo.byte_array plo.positions_pointer ≡ some (delta + 128)
      → next_position plo ≡ ok (delta, advanced plo 1)
  unfolding next_position
  read_one h e = ground (arith, low_7 (delta + 128), bit_and-0x80 (delta + 128))

  read_two :
      delta < 16384
      → get_elem? plo.byte_array plo.positions_pointer ≡ some (delta / 128)
      → get_elem? plo.byte_array (suc plo.positions_pointer) ≡ some (delta % 128 + 128)
      → next_position plo ≡ ok (delta, advanced plo 2)
  unfolding next_position
  read_two h e0 e1 = ground (
    arith,
    bit_and-0x80 (delta / 128),
    low_7 (delta % 128 + 128),
    bit_and-0x80 (delta % 128 + 128),
    bit_or-shifted 7 (delta / 128) (delta / 128 * 2 ^ 7) (delta % 128) refl,
  )

  read_three :
      delta < 65536
      → get_elem? plo.byte_array plo.positions_pointer ≡ some (delta / 8192)
      → get_elem? plo.byte_array (suc plo.positions_pointer) ≡ some (delta / 128 % 128)
      → get_elem? plo.byte_array (suc (suc plo.positions_pointer)) ≡ some (delta % 128 + 128)
      → next_position plo ≡ ok (delta, advanced plo 3)
  unfolding next_position
  read_three h e0 e1 e2 = ground (
    arith,
    bit_and-0x80 (delta / 8192),
    bit_and-0x80 (delta / 128 % 128),
    low_7 (delta % 128 + 128),
    joined delta,
  )

next_position-At :
    (plo : NonUniquePostingListObjectQuery) (delta : ℕ)
    → delta < 65536
    → At plo.byte_array plo.positions_pointer (position_bytes delta)
    → next_position plo ≡ ok (delta, advanced plo (length (position_bytes delta)))
unfolding position_bytes
next_position-At plo delta h a = elim (Bool-cases (ltb delta 128)) [
  | inl one ↦ let b = rw one at a in rw one (read_one plo delta (ground arith) b.0)
  | inr more ↦ elim (Bool-cases (ltb delta 16384)) [
    | inl two ↦
        let b = rw (more, two) at a in rw (more, two) (read_two plo delta (ground arith) b.0 b.1.0)
    | inr three ↦
        let b = rw (more, three) at a in rw (more, three) (read_three plo delta h b.0 b.1.0 b.1.1.0)
  ]
]

advanced-advanced :
    (plo : NonUniquePostingListObjectQuery) (n m : ℕ)
    → advanced (advanced plo n) m ≡ advanced plo (n + m)
advanced-advanced plo n m = ap (λ p. record plo { positions_pointer = p }) (omega arith)

advanced-0 : (plo : NonUniquePostingListObjectQuery) → advanced plo 0 ≡ plo
advanced-0 plo = ap (λ p. record plo { positions_pointer = p }) (omega arith)

-- `n` calls of a decoder, and what they return.
unfoldable pub read_each :
    (NonUniquePostingListObjectQuery → Run (ℕ × NonUniquePostingListObjectQuery))
    → ℕ
    → NonUniquePostingListObjectQuery
    → Run (List ℕ × NonUniquePostingListObjectQuery)
read_each next zero plo = ok ([], plo)
read_each next (suc n) plo = do
  first ← next plo
  rest ← read_each next n first.1
  ok (first.0 ∷ rest.0, rest.1)

-- A decoder that reads positions that are not embedded the shared way.
abbrev pub Shared :
    (NonUniquePostingListObjectQuery → Run (ℕ × NonUniquePostingListObjectQuery)) → Type 0
Shared next =
    (plo : NonUniquePostingListObjectQuery) → plo.is_embedded ≡ false → next plo ≡ next_position plo

pub singlefield-Shared : Shared get_next_position_singlefield
unfolding get_next_position_singlefield
singlefield-Shared plo e = ground arith

pub multifield-Shared : Shared get_next_position_multifield
unfolding get_next_position_multifield
multifield-Shared plo e = ground arith

pub read_each-At :
    (next : NonUniquePostingListObjectQuery → Run (ℕ × NonUniquePostingListObjectQuery))
    → Shared next
    → (plo : NonUniquePostingListObjectQuery) (positions : List ℕ) → plo.is_embedded ≡ false
    → AllU16 positions
    → At plo.byte_array plo.positions_pointer (all_bytes positions)
    → read_each next (length positions) plo
      ≡ ok (positions, advanced plo (length (all_bytes positions)))
unfolding read_each all_bytes
read_each-At next shared plo [] out fits a = rw (advanced-0 plo)
read_each-At next shared plo (delta ∷ positions) out fits a =
    let parts =
      At-append plo.byte_array plo.positions_pointer (position_bytes delta) (all_bytes positions)
        a in
    ground (
      arith,
      shared plo out,
      next_position-At plo delta fits.0 parts.0,
      read_each-At next shared (advanced plo (length (position_bytes delta))) positions out fits.1
          parts.1,
      advanced-advanced plo (length (position_bytes delta)) (length (all_bytes positions)),
      length-append (position_bytes delta) (all_bytes positions),
    )
