-- ===== src/Positions/Encode.antt =====
-- compress_positions writes the bytes of its positions in one piece.
use seek_storm.Base.{
  ℕ, ◌+◌, ◌*◌, ◌/◌, ◌%◌, ◌^◌, ◌≤◌, ◌<◌, List, [], ◌∷◌, ◌++◌, ok, store, ltb, if◌then◌else◌, ◌≡◌,
  refl, length, arith, overwrite, set-overwrite, overwrite-append, length-overwrite, length-append,
  overwrite-nil,
}
use seek_storm.Base.Bits.{low_7, bit_or-0x80}
use seek_storm.Positions.{compress_position, compress_positions}

-- The bytes of one position.
unfoldable pub position_bytes : ℕ → List ℕ
position_bytes delta =
    if ltb delta 128
    then ((delta + 128) ∷ [])
    else if ltb delta 16384
    then (delta / 128 ∷ (delta % 128 + 128) ∷ [])
    else (delta / 8192 ∷ delta / 128 % 128 ∷ (delta % 128 + 128) ∷ [])

-- A byte stored just past a write makes the write one byte longer.
pub store-next :
    (bytes : List ℕ) (p i : ℕ) (bs : List ℕ) (v : ℕ)
    → i ≡ p + length bs
    → i < length bytes
    → store (overwrite bytes p bs) i v ≡ ok (overwrite bytes p (bs ++ v ∷ []))
store-next bytes p i bs v e h = ground (
  arith,
  length-overwrite bytes p bs,
  set-overwrite (overwrite bytes p bs) i v,
  overwrite-append bytes p i bs (v ∷ []) e,
)

pub store-first :
    (bytes : List ℕ) (i v : ℕ)
    → i < length bytes
    → store bytes i v ≡ ok (overwrite bytes i (v ∷ []))
store-first bytes i v h = ground (arith, set-overwrite bytes i v)

-- The branches of compress_position, as one write.
one_byte :
    (bytes : List ℕ) (p delta : ℕ)
    → delta < 128
    → p + 1 ≤ length bytes
    → compress_position delta bytes p ≡ ok (overwrite bytes p (position_bytes delta), p + 1)
unfolding compress_position position_bytes
one_byte bytes p delta small room =
    ground (arith, store-first bytes p (delta + 128), bit_or-0x80 (delta % 256))

two_bytes :
    (bytes : List ℕ) (p delta : ℕ)
    → 128 ≤ delta
    → delta < 16384
    → p + 2 ≤ length bytes
    → compress_position delta bytes p ≡ ok (overwrite bytes p (position_bytes delta), p + 2)
unfolding compress_position position_bytes
two_bytes bytes p delta large small room = ground (
  arith,
  low_7 (delta / 2 ^ 7 % 256),
  low_7 delta,
  bit_or-0x80 (delta % 128),
  store-first bytes p (delta / 128),
  store-next bytes p (p + 1) (delta / 128 ∷ []) (delta % 128 + 128),
)

three_bytes :
    (bytes : List ℕ) (p delta : ℕ)
    → 16384 ≤ delta
    → delta < 65536
    → p + 3 ≤ length bytes
    → compress_position delta bytes p ≡ ok (overwrite bytes p (position_bytes delta), p + 3)
unfolding compress_position position_bytes
three_bytes bytes p delta large small room = ground (
  arith,
  low_7 (delta / 2 ^ 13 % 256),
  low_7 (delta / 2 ^ 7 % 256),
  low_7 delta,
  bit_or-0x80 (delta % 128),
  store-first bytes p (delta / 8192),
  store-next bytes p (p + 1) (delta / 8192 ∷ []) (delta / 128 % 128),
  store-next bytes p (p + 1 + 1) (delta / 8192 ∷ delta / 128 % 128 ∷ []) (delta % 128 + 128),
)

compress_position-ok :
    (bytes : List ℕ) (p delta : ℕ)
    → delta < 65536
    → p + length (position_bytes delta) ≤ length bytes
    → compress_position delta bytes p
      ≡ ok (overwrite bytes p (position_bytes delta), p + length (position_bytes delta))
unfolding position_bytes
compress_position-ok bytes p delta h room =
    ground (arith, room, one_byte bytes p delta, two_bytes bytes p delta, three_bytes bytes p delta)

length-position_bytes : (delta : ℕ) → length (position_bytes delta) ≤ 3
unfolding position_bytes
length-position_bytes delta = ground arith

-- Every number of the list is a u16.
abbrev pub AllU16 : List ℕ → Type 0
AllU16 [] = Unit
AllU16 (x ∷ xs) = (x < 65536) × AllU16 xs

unfoldable pub all_bytes : List ℕ → List ℕ
all_bytes [] = []
all_bytes (delta ∷ positions) = position_bytes delta ++ all_bytes positions

pub length-all_bytes : (positions : List ℕ) → length (all_bytes positions) ≤ 3 * length positions
unfolding all_bytes
length-all_bytes [] = omega arith
length-all_bytes (delta ∷ positions) = omega (
  arith,
  length-append (position_bytes delta) (all_bytes positions),
  length-all_bytes positions,
  length-position_bytes delta,
)

pub compress_positions-ok :
    (positions bytes : List ℕ) (p : ℕ)
    → AllU16 positions
    → p + length (all_bytes positions) ≤ length bytes
    → compress_positions positions bytes p
      ≡ ok (overwrite bytes p (all_bytes positions), p + length (all_bytes positions))
unfolding compress_positions all_bytes
compress_positions-ok [] bytes p fits room =
    let e : p + 0 ≡ p = omega arith in rw (overwrite-nil bytes p, e)
compress_positions-ok (delta ∷ positions) bytes p fits room = ground (
  arith,
  room,
  fits.0,
  sizes,
  compress_position-ok bytes p delta,
  compress_positions-ok positions (overwrite bytes p (position_bytes delta))
      (p + length (position_bytes delta)) fits.1,
  length-overwrite bytes p (position_bytes delta),
  overwrite-append bytes p (p + length (position_bytes delta)) (position_bytes delta)
      (all_bytes positions) refl,
)
  where
    sizes :
        length (position_bytes delta ++ all_bytes positions)
        ≡ length (position_bytes delta) + length (all_bytes positions)
    sizes = length-append (position_bytes delta) (all_bytes positions)
