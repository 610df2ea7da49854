-- ===== src/Utils.antt =====
-- src/seekstorm/utils.rs: reading and writing of little-endian numbers in a byte buffer.
-- A buffer is the list of its bytes. A `&mut` buffer or position is passed in and returned, and
-- an index or a range out of bounds panics. A float is its bit pattern, handed to `from_bits`.
pub mod Laws
pub mod RoundTrip
mod Tests
use seek_storm.Base.{
  ℕ, zero, suc, ◌+◌, ◌*◌, ◌/◌, ◌%◌, ◌^◌, List, [], ◌∷◌, Run, ok, panic, ◌>>=◌, load, store, length,
  leb, ◌==◌, if◌then◌else◌, slice, overwrite,
}
use seek_storm.Base.Int.{ℤ, to_signed, from_signed}

-- `to_le_bytes` and `from_le_bytes` of the standard library, on `k` bytes.
unfoldable pub to_le_bytes : ℕ → ℕ → List ℕ
to_le_bytes zero v = []
to_le_bytes (suc k) v = v % 256 ∷ to_le_bytes k (v / 256)

unfoldable pub from_le_bytes : List ℕ → ℕ
from_le_bytes [] = 0
from_le_bytes (b ∷ bs) = b + 256 * from_le_bytes bs

-- `v[pos..pos + bytes.len()].copy_from_slice(bytes)`
unfoldable pub write_slice : List ℕ → ℕ → List ℕ → Run (List ℕ)
write_slice vec8 pos bytes =
    if leb (pos + length bytes) (length vec8) then ok (overwrite vec8 pos bytes) else panic

-- `v[pos..pos + n]`
unfoldable pub read_slice : List ℕ → ℕ → ℕ → Run (List ℕ)
read_slice vec8 pos n = if leb (pos + n) (length vec8) then ok (slice vec8 pos n) else panic

-- `try_into().unwrap()` of a slice into an array of `n` bytes.
unfoldable pub to_array : ℕ → List ℕ → Run (List ℕ)
to_array n bytes = if length bytes == n then ok bytes else panic

-- `uN::from_le_bytes(v[pos..pos + n].try_into().unwrap())`
unfoldable pub read_le : List ℕ → ℕ → ℕ → Run ℕ
read_le vec8 pos n = do
  bytes ← read_slice vec8 pos n
  array ← to_array n bytes
  ok (from_le_bytes array)

unfoldable pub write_u8_ref : ℕ → List ℕ → ℕ → Run (List ℕ × ℕ)
write_u8_ref value vec8 pos = do v ← store vec8 pos value; ok (v, pos + 1)

unfoldable pub write_u16_ref : ℕ → List ℕ → ℕ → Run (List ℕ × ℕ)
write_u16_ref value vec8 pos = do v ← write_slice vec8 pos (to_le_bytes 2 value); ok (v, pos + 2)

unfoldable pub write_u32_ref : ℕ → List ℕ → ℕ → Run (List ℕ × ℕ)
write_u32_ref value vec8 pos = do v ← write_slice vec8 pos (to_le_bytes 4 value); ok (v, pos + 4)

unfoldable pub write_u64_ref : ℕ → List ℕ → ℕ → Run (List ℕ × ℕ)
write_u64_ref value vec8 pos = do v ← write_slice vec8 pos (to_le_bytes 8 value); ok (v, pos + 8)

unfoldable pub write_u16 : ℕ → List ℕ → ℕ → Run (List ℕ)
write_u16 value vec8 pos = write_slice vec8 pos (to_le_bytes 2 value)

unfoldable pub write_u32 : ℕ → List ℕ → ℕ → Run (List ℕ)
write_u32 value vec8 pos = write_slice vec8 pos (to_le_bytes 4 value)

unfoldable pub write_u64 : ℕ → List ℕ → ℕ → Run (List ℕ)
write_u64 value vec8 pos = write_slice vec8 pos (to_le_bytes 8 value)

unfoldable pub write_i8 : ℤ → List ℕ → ℕ → Run (List ℕ)
write_i8 value vec8 pos = write_slice vec8 pos (to_le_bytes 1 (from_signed (2 ^ 7) value))

unfoldable pub write_i16 : ℤ → List ℕ → ℕ → Run (List ℕ)
write_i16 value vec8 pos = write_slice vec8 pos (to_le_bytes 2 (from_signed (2 ^ 15) value))

unfoldable pub write_i32 : ℤ → List ℕ → ℕ → Run (List ℕ)
write_i32 value vec8 pos = write_slice vec8 pos (to_le_bytes 4 (from_signed (2 ^ 31) value))

unfoldable pub write_i64 : ℤ → List ℕ → ℕ → Run (List ℕ)
write_i64 value vec8 pos = write_slice vec8 pos (to_le_bytes 8 (from_signed (2 ^ 63) value))

-- The position moves first, and the read looks back from it.
unfoldable pub read_u8_ref : List ℕ → ℕ → Run (ℕ × ℕ)
read_u8_ref vec8 pos = do v ← load vec8 pos; ok (v, pos + 1)

unfoldable pub read_u16_ref : List ℕ → ℕ → Run (ℕ × ℕ)
read_u16_ref vec8 pos = do v ← read_le vec8 pos 2; ok (v, pos + 2)

unfoldable pub read_u32_ref : List ℕ → ℕ → Run (ℕ × ℕ)
read_u32_ref vec8 pos = do v ← read_le vec8 pos 4; ok (v, pos + 4)

unfoldable pub read_u64_ref : List ℕ → ℕ → Run (ℕ × ℕ)
read_u64_ref vec8 pos = do v ← read_le vec8 pos 8; ok (v, pos + 8)

unfoldable pub read_u8 : List ℕ → ℕ → Run ℕ
read_u8 vec8 pos = load vec8 pos

unfoldable pub read_i8 : List ℕ → ℕ → Run ℤ
read_i8 vec8 pos = do v ← read_le vec8 pos 1; ok (to_signed (2 ^ 7) v)

unfoldable pub read_u16 : List ℕ → ℕ → Run ℕ
read_u16 vec8 pos = read_le vec8 pos 2

unfoldable pub read_i16 : List ℕ → ℕ → Run ℤ
read_i16 vec8 pos = do v ← read_le vec8 pos 2; ok (to_signed (2 ^ 15) v)

unfoldable pub read_u32 : List ℕ → ℕ → Run ℕ
read_u32 vec8 pos = read_le vec8 pos 4

unfoldable pub read_i32 : List ℕ → ℕ → Run ℤ
read_i32 vec8 pos = do v ← read_le vec8 pos 4; ok (to_signed (2 ^ 31) v)

unfoldable pub read_u64 : List ℕ → ℕ → Run ℕ
read_u64 vec8 pos = read_le vec8 pos 8

unfoldable pub read_i64 : List ℕ → ℕ → Run ℤ
read_i64 vec8 pos = do v ← read_le vec8 pos 8; ok (to_signed (2 ^ 63) v)

module _ {ℓ} {F : Type ℓ} where
  unfoldable pub write_f32 : (F → ℕ) → F → List ℕ → ℕ → Run (List ℕ)
  write_f32 to_bits value vec8 pos = write_slice vec8 pos (to_le_bytes 4 (to_bits value))

  unfoldable pub write_f64 : (F → ℕ) → F → List ℕ → ℕ → Run (List ℕ)
  write_f64 to_bits value vec8 pos = write_slice vec8 pos (to_le_bytes 8 (to_bits value))

  -- Eight bytes are sliced, and turned into an array of four.
  unfoldable pub read_f32 : (ℕ → F) → List ℕ → ℕ → Run F
  read_f32 from_bits vec8 pos = do
    bytes ← read_slice vec8 pos 8
    array ← to_array 4 bytes
    ok (from_bits (from_le_bytes array))

  unfoldable pub read_f64 : (ℕ → F) → List ℕ → ℕ → Run F
  read_f64 from_bits vec8 pos = do v ← read_le vec8 pos 8; ok (from_bits v)

-- `block_copy` and `block_copy_mut` have one body.
unfoldable pub block_copy : List ℕ → ℕ → List ℕ → ℕ → ℕ → Run (List ℕ)
block_copy source source_offset destination destination_offset len = do
  bytes ← read_slice source source_offset len
  write_slice destination destination_offset bytes
