-- ===== src/Utils/Tests.antt =====
-- Runs of the readers and writers of utils.rs on concrete buffers.
use seek_storm.Base.{
  ℕ, ◌≡◌, ◌+◌, ◌^◌, refl, List, [], ◌∷◌, ok, panic, ◌>>=◌, arith, replicate, overwrite,
}
use seek_storm.Base.Int.{pos, negsuc}
use seek_storm.Utils.{
  write_u16, write_u32, write_u64, read_u16, read_u32, read_u64, write_i8, write_i16, write_i32,
  write_i64, read_i8, read_i16, read_i32, read_i64, read_f32, block_copy, write_slice, to_le_bytes,
  read_le, read_slice, to_array, from_le_bytes,
}
use seek_storm.Utils.RoundTrip.{
  read_unsigned-write_unsigned, read_signed-write_signed, read_f32-panics, Copied,
  block_copy_copies,
}

abbrev buffer : List ℕ
buffer = replicate 10 7

write_u32_bytes : write_u32 0x01020304 buffer 1 ≡ ok (7 ∷ 4 ∷ 3 ∷ 2 ∷ 1 ∷ replicate 5 7)
unfolding write_u32 write_slice to_le_bytes overwrite
write_u32_bytes = refl

write_u16_panics : write_u16 1 buffer 9 ≡ panic
unfolding write_u16 write_slice to_le_bytes
write_u16_panics = refl

read_i16_negative : read_i16 (254 ∷ 255 ∷ []) 0 ≡ ok (negsuc 1)
unfolding read_i16 read_le read_slice to_array from_le_bytes
read_i16_negative = refl

read_unsigned-write_unsigned_example :
    ((write_u16 0xabcd buffer 2 >>= λ w. read_u16 w 2) ≡ ok 0xabcd)
    × ((write_u32 0x89abcdef buffer 2 >>= λ w. read_u32 w 2) ≡ ok 0x89abcdef)
    × ((write_u64 (2 ^ 63 + 1) buffer 2 >>= λ w. read_u64 w 2) ≡ ok (2 ^ 63 + 1))
read_unsigned-write_unsigned_example =
    read_unsigned-write_unsigned buffer 2 0xabcd 0x89abcdef (2 ^ 63 + 1) (omega arith) (omega arith)
      (omega arith) (omega arith)

read_signed-write_signed_example :
    ((write_i8 (negsuc 127) buffer 1 >>= λ w. read_i8 w 1) ≡ ok (negsuc 127))
    × ((write_i16 (negsuc 0) buffer 1 >>= λ w. read_i16 w 1) ≡ ok (negsuc 0))
    × ((write_i32 (pos 77) buffer 1 >>= λ w. read_i32 w 1) ≡ ok (pos 77))
    × ((write_i64 (negsuc 4) buffer 1 >>= λ w. read_i64 w 1) ≡ ok (negsuc 4))
read_signed-write_signed_example =
    read_signed-write_signed buffer 1 (negsuc 127) (negsuc 0) (pos 77) (negsuc 4) (omega arith)
      (omega arith) (omega arith) (omega arith) (omega arith)

read_f32-panics_example : read_f32 (λ (n : ℕ). n) buffer 0 ≡ panic
read_f32-panics_example = read_f32-panics (λ (n : ℕ). n) buffer 0

block_copy_copies_example :
    (result : List ℕ) × (block_copy (1 ∷ 2 ∷ 3 ∷ []) 1 buffer 4 2 ≡ ok result)
    × Copied (1 ∷ 2 ∷ 3 ∷ []) 1 buffer 4 2 result
block_copy_copies_example =
    block_copy_copies (1 ∷ 2 ∷ 3 ∷ []) 1 buffer 4 2 (omega arith) (omega arith)
