-- ===== src/Postings/Pointer.antt =====
-- The pointer of a key head tells what the compression wrote: its type, and where the documents are.
use seek_storm.Base.{ℕ, suc, ◌+◌, ◌*◌, ◌%◌, ◌^◌, ◌<◌, ok, ◌≡◌, refl, arith}
use seek_storm.Base.Bits.{bit_or-low, bit_and-low}
use seek_storm.Postings.{ScoreOps, PostingListObject0, CompressionType, discriminant}
use seek_storm.Postings.Compress.{type_pointer, posting_pointer_size_sum}
use seek_storm.Postings.Scan.{compression_type, compressed_doc_id_range}

type_pointer-sum :
    (ops : ScoreOps) (offset : ℕ) (type : CompressionType)
    → offset < 2 ^ 30
    → discriminant type < 4
    → type_pointer ops offset type ≡ discriminant type * 2 ^ 30 + offset
type_pointer-sum ops offset type h known = omega (
  arith,
  bit_or-low 30 (discriminant type) (discriminant type * 2 ^ 30 % 2 ^ 32) offset (omega arith) h,
)

type_read :
    (type : CompressionType) (offset : ℕ)
    → offset < 2 ^ 30
    → compression_type (discriminant type * 2 ^ 30 + offset) ≡ ok type
unfolding compression_type
type_read CompressionType.delta offset h = ground arith
type_read CompressionType.array offset h = ground arith
type_read CompressionType.bitmap offset h = ground arith
type_read CompressionType.rle offset h = ground arith
type_read CompressionType.error offset h = ground arith

-- Where the offset of the body has 30 bits, the type is not the fifth one, of the default, and there
-- is a posting, the pointer made of the offset and the type is read as that type, and with one less than the number of postings, as the head
-- keeps it, the documents are found behind the pointers of the size that the compression left.
pub compressed_doc_id_range-type_pointer :
    (ops : ScoreOps) (plo : PostingListObject0 ops) (offset count : ℕ) (type : CompressionType)
    → offset < 2 ^ 30
    → discriminant type < 4
    → plo.posting_count ≡ suc count
    → (compression_type (type_pointer ops offset type) ≡ ok type)
      × (compressed_doc_id_range (type_pointer ops offset type) plo.pointer_pivot_p_docid count
          ≡ offset + posting_pointer_size_sum ops plo)
unfolding compressed_doc_id_range
compressed_doc_id_range-type_pointer ops plo offset count type h known e = (
  rw (type_pointer-sum ops offset type h known) (type_read type offset h),
  rw (type_pointer-sum ops offset type h known) (
      ground (
        arith,
        bit_and-low 30 (discriminant type) (discriminant type * 2 ^ 30) offset 0x3fffffff refl h
            refl,
      )),
)
