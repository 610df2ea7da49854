-- ===== src/Utils/RoundTrip.antt =====
-- The writers of utils.rs against its readers, and what a block copy moves.
use seek_storm.Base.{
  ℕ, suc, ◌+◌, ◌^◌, ◌≤◌, ◌<◌, ◌≡◌, ◌⊎◌, refl, List, ok, panic, ◌>>=◌, length, get_elem?, arith,
  slice, drop, overwrite, At, At-overwrite, length-overwrite, length-take, length-drop,
  get_elem?-overwrite_frame,
}
use seek_storm.Base.Int.{ℤ, to_signed, from_signed, IsSigned, to_signed-from_signed, from_signed-lt}
use seek_storm.Utils.{
  to_le_bytes, write_slice, read_slice, to_array, read_le, write_u16, write_u32, write_u64,
  read_u16, read_u32, read_u64, write_i8, write_i16, write_i32, write_i64, read_i8, read_i16,
  read_i32, read_i64, read_f32, block_copy,
}
use seek_storm.Utils.Laws.{length-to_le_bytes, write_slice-ok, read_le-At}

-- What `suc k` bytes were written, the reader of as many bytes returns.
read_le-write_slice :
    (vec8 : List ℕ) (pos k v : ℕ)
    → pos + suc k ≤ length vec8
    → v < 256 ^ suc k
    → (write_slice vec8 pos (to_le_bytes (suc k) v) >>= λ w. read_le w pos (suc k)) ≡ ok v
read_le-write_slice vec8 pos k v room fits =
    let fill : pos + length (to_le_bytes (suc k) v) ≤ length vec8 =
      rw (length-to_le_bytes (suc k) v) room in
    rw (write_slice-ok vec8 pos (to_le_bytes (suc k) v) fill)
      (read_le-At _ pos k v (At-overwrite vec8 pos _ fill) fits)

-- Wherever a number of 16, 32 or 64 bits is written with room for eight bytes, the reader of the
-- same width returns it.
pub read_unsigned-write_unsigned :
    (vec8 : List ℕ) (pos v16 v32 v64 : ℕ)
    → pos + 8 ≤ length vec8
    → v16 < 2 ^ 16
    → v32 < 2 ^ 32
    → v64 < 2 ^ 64
    → ((write_u16 v16 vec8 pos >>= λ w. read_u16 w pos) ≡ ok v16)
      × ((write_u32 v32 vec8 pos >>= λ w. read_u32 w pos) ≡ ok v32)
      × ((write_u64 v64 vec8 pos >>= λ w. read_u64 w pos) ≡ ok v64)
unfolding write_u16 write_u32 write_u64 read_u16 read_u32 read_u64
read_unsigned-write_unsigned vec8 pos v16 v32 v64 room h16 h32 h64 = (
  read_le-write_slice vec8 pos 1 v16 (omega arith) (omega arith),
  read_le-write_slice vec8 pos 3 v32 (omega arith) (omega arith),
  read_le-write_slice vec8 pos 7 v64 (omega arith) (omega arith),
)

-- The same for the bit pattern of a signed number.
signed_round_trip :
    (vec8 : List ℕ) (pos k half : ℕ) (z : ℤ)
    → half + half ≡ 256 ^ suc k
    → pos + suc k ≤ length vec8
    → IsSigned half z
    → (write_slice vec8 pos (to_le_bytes (suc k) (from_signed half z)) >>= λ w.
        read_le w pos (suc k) >>= λ v. ok (to_signed half v))
      ≡ ok z
signed_round_trip vec8 pos k half z e room fits =
    let fill : pos + length (to_le_bytes (suc k) (from_signed half z)) ≤ length vec8 =
      rw (length-to_le_bytes (suc k) _) room in
    rw (
      write_slice-ok vec8 pos _ fill,
      read_le-At _ pos k (from_signed half z) (At-overwrite vec8 pos _ fill)
          (rw (← e) (from_signed-lt half z fits)),
      to_signed-from_signed half z fits,
    )

-- Wherever a signed number that fits 8, 16, 32 or 64 bits is written with room for eight bytes,
-- the reader of the same width returns it, sign included.
pub read_signed-write_signed :
    (vec8 : List ℕ) (pos : ℕ) (z8 z16 z32 z64 : ℤ)
    → pos + 8 ≤ length vec8
    → IsSigned (2 ^ 7) z8
    → IsSigned (2 ^ 15) z16
    → IsSigned (2 ^ 31) z32
    → IsSigned (2 ^ 63) z64
    → ((write_i8 z8 vec8 pos >>= λ w. read_i8 w pos) ≡ ok z8)
      × ((write_i16 z16 vec8 pos >>= λ w. read_i16 w pos) ≡ ok z16)
      × ((write_i32 z32 vec8 pos >>= λ w. read_i32 w pos) ≡ ok z32)
      × ((write_i64 z64 vec8 pos >>= λ w. read_i64 w pos) ≡ ok z64)
unfolding write_i8 write_i16 write_i32 write_i64 read_i8 read_i16 read_i32 read_i64
read_signed-write_signed vec8 pos z8 z16 z32 z64 room h8 h16 h32 h64 = (
  signed_round_trip vec8 pos 0 (2 ^ 7) z8 refl (omega arith) h8,
  signed_round_trip vec8 pos 1 (2 ^ 15) z16 refl (omega arith) h16,
  signed_round_trip vec8 pos 3 (2 ^ 31) z32 refl (omega arith) h32,
  signed_round_trip vec8 pos 7 (2 ^ 63) z64 refl (omega arith) h64,
)

-- `read_f32` returns at no buffer and no position: eight bytes never make an array of four.
pub read_f32-panics {ℓ} :
    {F : Type ℓ} (from_bits : ℕ → F) (vec8 : List ℕ) (pos : ℕ) → read_f32 from_bits vec8 pos ≡ panic
unfolding read_f32 read_slice to_array
read_f32-panics from_bits vec8 pos =
    ground (arith, length-take 8 (drop pos vec8), length-drop pos vec8)

-- What a block copy leaves: `len` bytes of the source stand in the destination from its offset on,
-- and the other bytes and the length are as before.
pub record Copied (source : List ℕ) (source_offset : ℕ) (destination : List ℕ) (offset len : ℕ)
    (result : List ℕ) : Type 0 where
  pub copied : At result offset (slice source source_offset len)
  pub amount : length (slice source source_offset len) ≡ len
  pub kept :
      (i : ℕ) → (i < offset) ⊎ (offset + len ≤ i) → get_elem? result i ≡ get_elem? destination i
  pub same_length : length result ≡ length destination

-- Where both ranges lie in their buffers, `block_copy` returns a destination that holds the source
-- range and is otherwise unchanged.
pub block_copy_copies :
    (source : List ℕ) (source_offset : ℕ) (destination : List ℕ) (offset len : ℕ)
    → source_offset + len ≤ length source
    → offset + len ≤ length destination
    → (result : List ℕ) × (block_copy source source_offset destination offset len ≡ ok result)
      × Copied source source_offset destination offset len result
unfolding block_copy read_slice
block_copy_copies source source_offset destination offset len hs hd = (
  overwrite destination offset bytes,
  ground (arith, write_slice-ok destination offset bytes room),
  record {
    copied = At-overwrite destination offset bytes room;
    amount = size;
    kept = λ i h. get_elem?-overwrite_frame destination offset bytes i (omega (arith, size));
    same_length = length-overwrite destination offset bytes;
  },
)
  where
    bytes : List ℕ
    bytes = slice source source_offset len

    size : length (slice source source_offset len) ≡ len
    size =
        omega (arith, length-take len (drop source_offset source), length-drop source_offset source)

    room : offset + length (slice source source_offset len) ≤ length destination
    room = omega (arith, size)
