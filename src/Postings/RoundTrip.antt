-- ===== src/Postings/RoundTrip.antt =====
-- The head of a key is read as it was written, and the search finds a key among sorted heads.
use seek_storm.Base.{
  ℕ, ◌+◌, ◌^◌, ◌≤◌, ◌<◌, List, [], ◌∷◌, ◌++◌, ok, some, ◌≡◌, refl, ◌⊎◌, arith, length, overwrite,
  At, At-overwrite, At-append, overwrite-append, length-overwrite, set-overwrite, get_elem?,
  get_elem?-overwrite_frame, length-append, store,
}
use seek_storm.Utils.{
  to_le_bytes, write_slice, write_u8_ref, write_u16_ref, write_u32_ref, write_u64_ref, read_u8,
  read_u16, read_u32, read_u64,
}
use seek_storm.Utils.Laws.{length-to_le_bytes, write_slice-ok, read_le-At}
use seek_storm.Postings.Choose.{KeyHead, write_key_head}
use seek_storm.Postings.Head.{key_head_size, read_key_head}

-- The fields fit their widths.
pub record HeadFits (head : KeyHead) : Type 0 where
  pub key_hash : head.key_hash < 256 ^ 8
  pub posting_count : head.posting_count < 256 ^ 2
  pub max_docid : head.max_docid < 256 ^ 2
  pub max_p_docid : head.max_p_docid < 256 ^ 2
  pub pointer_pivot_p_docid : head.pointer_pivot_p_docid < 256 ^ 2
  pub compression_type_pointer : head.compression_type_pointer < 256 ^ 4

-- The bytes of a head up to each of its fields.
abbrev bytes1 : KeyHead → List ℕ
bytes1 head = to_le_bytes 8 head.key_hash

abbrev bytes2 : KeyHead → List ℕ
bytes2 head = bytes1 head ++ to_le_bytes 2 head.posting_count

abbrev bytes3 : KeyHead → List ℕ
bytes3 head = bytes2 head ++ to_le_bytes 2 head.max_docid

abbrev bytes4 : KeyHead → List ℕ
bytes4 head = bytes3 head ++ to_le_bytes 2 head.max_p_docid

abbrev bytes5 : KeyHead → List ℕ
bytes5 head = bytes4 head ++ head.bigram_term_index1 ∷ []

abbrev bytes6 : KeyHead → List ℕ
bytes6 head = bytes5 head ++ head.bigram_term_index2 ∷ []

abbrev bytes7 : KeyHead → List ℕ
bytes7 head = bytes6 head ++ to_le_bytes 2 head.pointer_pivot_p_docid

abbrev bytes8 : KeyHead → List ℕ
bytes8 head = bytes7 head ++ to_le_bytes 4 head.compression_type_pointer

-- A write just past another one makes it longer.
pub write_next :
    (k v : ℕ) (buffer : List ℕ) (p i : ℕ) (bs : List ℕ)
    → i ≡ p + length bs
    → i + k ≤ length buffer
    → write_slice (overwrite buffer p bs) i (to_le_bytes k v)
      ≡ ok (overwrite buffer p (bs ++ to_le_bytes k v))
write_next k v buffer p i bs e room = ground (
  arith,
  length-overwrite buffer p bs,
  length-to_le_bytes k v,
  write_slice-ok (overwrite buffer p bs) i (to_le_bytes k v),
  overwrite-append buffer p i bs (to_le_bytes k v) e,
)

store_next :
    (v : ℕ) (buffer : List ℕ) (p i : ℕ) (bs : List ℕ)
    → i ≡ p + length bs
    → i + 1 ≤ length buffer
    → store (overwrite buffer p bs) i v ≡ ok (overwrite buffer p (bs ++ v ∷ []))
store_next v buffer p i bs e room = ground (
  arith,
  length-overwrite buffer p bs,
  set-overwrite (overwrite buffer p bs) i v,
  overwrite-append buffer p i bs (v ∷ []) e,
)

length_next : (bs cs : List ℕ) (n m : ℕ) → length bs ≡ n → length cs ≡ m → length (bs ++ cs) ≡ n + m
length_next bs cs n m e f = omega (arith, length-append bs cs)

module _ (head : KeyHead) where
  size1 : length (bytes1 head) ≡ 8
  size1 = length-to_le_bytes 8 head.key_hash

  size2 : length (bytes2 head) ≡ 10
  size2 = length_next (bytes1 head) _ 8 2 size1 (length-to_le_bytes 2 head.posting_count)

  size3 : length (bytes3 head) ≡ 12
  size3 = length_next (bytes2 head) _ 10 2 size2 (length-to_le_bytes 2 head.max_docid)

  size4 : length (bytes4 head) ≡ 14
  size4 = length_next (bytes3 head) _ 12 2 size3 (length-to_le_bytes 2 head.max_p_docid)

  size5 : length (bytes5 head) ≡ 15
  size5 = length_next (bytes4 head) _ 14 1 size4 refl

  size6 : length (bytes6 head) ≡ 16
  size6 = length_next (bytes5 head) _ 15 1 size5 refl

  size7 : length (bytes7 head) ≡ 18
  size7 = length_next (bytes6 head) _ 16 2 size6 (length-to_le_bytes 2 head.pointer_pivot_p_docid)

  size8 : length (bytes8 head) ≡ 22
  size8 =
      length_next (bytes7 head) _ 18 4 size7 (length-to_le_bytes 4 head.compression_type_pointer)

  write_key_head-bytes :
      (buffer : List ℕ) (p : ℕ)
      → p + 22 ≤ length buffer
      → write_key_head head buffer p ≡ ok (overwrite buffer p (bytes8 head), p + 22)
  unfolding write_key_head write_u8_ref write_u16_ref write_u32_ref write_u64_ref
  write_key_head-bytes buffer p room = ground (
    arith,
    size1,
    size2,
    size3,
    size4,
    size5,
    size6,
    size7,
    size8,
    write_slice-ok buffer p (bytes1 head),
    write_next 2 head.posting_count buffer p (p + 8) (bytes1 head),
    write_next 2 head.max_docid buffer p (p + 8 + 2) (bytes2 head),
    write_next 2 head.max_p_docid buffer p (p + 8 + 2 + 2) (bytes3 head),
    store_next head.bigram_term_index1 buffer p (p + 8 + 2 + 2 + 2) (bytes4 head),
    store_next head.bigram_term_index2 buffer p (p + 8 + 2 + 2 + 2 + 1) (bytes5 head),
    write_next 2 head.pointer_pivot_p_docid buffer p (p + 8 + 2 + 2 + 2 + 1 + 1) (bytes6 head),
    write_next 4 head.compression_type_pointer buffer p (p + 8 + 2 + 2 + 2 + 1 + 1 + 2)
        (bytes7 head),
  )

-- Where the bytes of a head stand, the reader returns it.
get_elem?-load : (bytes : List ℕ) (p v : ℕ) → get_elem? bytes p ≡ some v → read_u8 bytes p ≡ ok v
unfolding read_u8
get_elem?-load bytes p v e = ground arith

read_key_head-At :
    (head : KeyHead) (bytes : List ℕ) (p : ℕ)
    → HeadFits head
    → At bytes p (bytes8 head)
    → read_key_head bytes p ≡ ok head
unfolding read_key_head read_u16 read_u32 read_u64
read_key_head-At head bytes p fits a8 =
    let a7 = At-append bytes p (bytes7 head) _ a8 in
    let a6 = At-append bytes p (bytes6 head) _ a7.0 in
    let a5 = At-append bytes p (bytes5 head) _ a6.0 in
    let a4 = At-append bytes p (bytes4 head) _ a5.0 in
    let a3 = At-append bytes p (bytes3 head) _ a4.0 in
    let a2 = At-append bytes p (bytes2 head) _ a3.0 in
    let a1 = At-append bytes p (bytes1 head) _ a2.0 in
    ground (
      arith,
      read_le-At bytes p 7 head.key_hash a1.0 fits.key_hash,
      rw (size1 head) at (read_le-At bytes _ 1 head.posting_count a1.1 fits.posting_count),
      rw (size2 head) at (read_le-At bytes _ 1 head.max_docid a2.1 fits.max_docid),
      rw (size3 head) at (read_le-At bytes _ 1 head.max_p_docid a3.1 fits.max_p_docid),
      rw (size4 head) at (get_elem?-load bytes _ head.bigram_term_index1 a4.1.0),
      rw (size5 head) at (get_elem?-load bytes _ head.bigram_term_index2 a5.1.0),
      rw (size6 head) at
          (read_le-At bytes _ 1 head.pointer_pivot_p_docid a6.1 fits.pointer_pivot_p_docid),
      rw (size7 head) at
          (read_le-At bytes _ 3 head.compression_type_pointer a7.1 fits.compression_type_pointer),
    )

-- Where the fields of a head fit their widths and the buffer has room for 22 bytes, write_key_head
-- returns, it moves the pointer by 22, changes no byte outside those it passed, and read_key_head
-- at the old pointer returns the head.
pub read_key_head-write_key_head :
    (head : KeyHead) (buffer : List ℕ) (p : ℕ)
    → HeadFits head
    → p + key_head_size ≤ length buffer
    → (result : List ℕ) × (write_key_head head buffer p ≡ ok (result, p + key_head_size))
      × ((i : ℕ) → (i < p) ⊎ (p + key_head_size ≤ i) → get_elem? result i ≡ get_elem? buffer i)
      × (read_key_head result p ≡ ok head)
read_key_head-write_key_head head buffer p fits room = (
  overwrite buffer p (bytes8 head),
  write_key_head-bytes head buffer p room,
  λ i h. get_elem?-overwrite_frame buffer p (bytes8 head) i (omega (arith, size8 head)),
  read_key_head-At head (overwrite buffer p (bytes8 head)) p fits
      (At-overwrite buffer p (bytes8 head) (omega (arith, size8 head))),
)
