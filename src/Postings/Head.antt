-- ===== src/Postings/Head.antt =====
-- src/seekstorm/search.rs: the search among the heads of the keys, and the fields that
-- `decode_posting_list_object` reads from a head. An i64 is kept as one more than itself where it
-- is at least -1.
use seek_storm.Base.{
  ℕ, zero, suc, ◌+◌, ◌-◌, ◌*◌, ◌/◌, List, Run, ok, out_of_fuel, ◌>>=◌, Option, none, some, compare,
  Ordering, ltb, true, false,
}
use seek_storm.Utils.{read_u8, read_u16, read_u32, read_u64}
use seek_storm.Postings.Choose.{KeyHead}

abbrev pub key_head_size : ℕ
key_head_size = 22

-- `left` and `end`, one more than `right`, bound the keys that are left; `none` is -1.
unfoldable pub search_loop : ℕ → List ℕ → ℕ → ℕ → ℕ → Run (Option ℕ)
search_loop zero byte_array key_hash left end = out_of_fuel
search_loop (suc fuel) byte_array key_hash left end =
    let mid = (left + (end - 1)) / 2 in
    elim (ltb left end) [
      | true ↦ do
        pivot ← read_u64 byte_array (mid * key_head_size)
        elim (compare pivot key_hash) [
          | Ordering.eq ↦ ok (some mid)
          | Ordering.lt ↦ search_loop fuel byte_array key_hash (mid + 1) end
          | Ordering.gt ↦ search_loop fuel byte_array key_hash left mid
        ]
      | false ↦ ok none
    ]

unfoldable pub binary_search : List ℕ → ℕ → ℕ → Run (Option ℕ)
binary_search byte_array len key_hash = search_loop (suc len) byte_array key_hash 0 len

unfoldable pub read_key_head : List ℕ → ℕ → Run KeyHead
read_key_head byte_array key_address = do
  key_hash ← read_u64 byte_array key_address
  posting_count ← read_u16 byte_array (key_address + 8)
  max_docid ← read_u16 byte_array (key_address + 10)
  max_p_docid ← read_u16 byte_array (key_address + 12)
  pointer_pivot_p_docid ← read_u16 byte_array (key_address + 16)
  compression_type_pointer ← read_u32 byte_array (key_address + 18)
  bigram_term_index1 ← read_u8 byte_array (key_address + 14)
  bigram_term_index2 ← read_u8 byte_array (key_address + 15)
  ok (record {
    key_hash = key_hash;
    posting_count = posting_count;
    max_docid = max_docid;
    max_p_docid = max_p_docid;
    bigram_term_index1 = bigram_term_index1;
    bigram_term_index2 = bigram_term_index2;
    pointer_pivot_p_docid = pointer_pivot_p_docid;
    compression_type_pointer = compression_type_pointer;
  })
