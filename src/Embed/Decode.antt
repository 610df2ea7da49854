-- ===== src/Embed/Decode.antt =====
-- src/seekstorm/add_result.rs: what a search finds out about a posting from its rank pointer, in
-- an index with one field (`decode_positions_multiterm_singlefield`) and with several
-- (`decode_positions_multiterm_multifield`). The four positions of a rank pointer are a list, and
-- the one-byte reads of the count panic past the end of the block. The message on an unsupported
-- pointer is left out, and the speedup flag is the constant true.
use seek_storm.Base.{
  ℕ, ◌+◌, ◌-◌, ◌*◌, ◌/◌, ◌^◌, List, [], ◌∷◌, Bool, true, false, not, ◌&&◌, Run, ok, panic, ◌>>=◌,
  load, leb, ltb, ◌==◌, if◌then◌else◌, bit_and, bit_or,
}
use seek_storm.Utils.{read_u16, read_u32}
use seek_storm.Fields.{has_bit}

-- The fields of a posting list that the two functions read and change. The first four are read only.
pub record PostingListQuery : Type 0 where
  pub byte_array : List ℕ
  pub p_docid : ℕ
  pub pointer_pivot_p_docid : ℕ
  pub rank_position_pointer_range : ℕ
  pub is_bigram : Bool
  pub is_embedded : Bool
  pub embedded_positions : List ℕ
  pub positions_pointer : ℕ
  pub positions_count : ℕ
  pub tf_bigram1 : ℕ
  pub tf_bigram2 : ℕ
  pub field_vec : List (ℕ × ℕ)
  pub field_vec_bigram1 : List (ℕ × ℕ)
  pub field_vec_bigram2 : List (ℕ × ℕ)

-- What the arguments say about the query.
pub record QueryFlags : Type 0 where
  pub facet_filtered : Bool
  pub phrase_query : Bool
  pub all_terms_frequent : Bool

abbrev pub speedup : QueryFlags → Bool
speedup flags = flags.all_terms_frequent && (not flags.phrase_query && not flags.facet_filtered)

-- A difference of unsigned numbers.
abbrev pub difference : ℕ → ℕ → Run ℕ
difference a b = if leb b a then ok (a - b) else panic

-- The bytes of a rank pointer, and the pointer in them.
abbrev pub short_pointer : PostingListQuery → Bool
short_pointer plo = ltb plo.p_docid plo.pointer_pivot_p_docid

unfoldable pub read_rank : PostingListQuery → Run ℕ
read_rank plo =
    if short_pointer plo
    then read_u16 plo.byte_array (plo.rank_position_pointer_range + plo.p_docid * 2)
    else (do
      sum ← difference (plo.p_docid * 3) plo.pointer_pivot_p_docid
      read_u32 plo.byte_array (plo.rank_position_pointer_range + sum))

abbrev pub embedded_flag : PostingListQuery → ℕ → Bool
embedded_flag plo rank = has_bit rank (if short_pointer plo then 0x8000 else 0x800000)

abbrev pub pointer_value : PostingListQuery → ℕ → ℕ
pointer_value plo rank = bit_and rank (if short_pointer plo then 0x7fff else 0x7fffff)

-- The pointer is not moved behind a third byte.
unfoldable pub read_singlefield_value : List ℕ → ℕ → Run (ℕ × ℕ)
read_singlefield_value byte_array positions_pointer = do
  byte0 ← load byte_array positions_pointer
  (if has_bit byte0 0x80 then ok (bit_and byte0 0x7f, positions_pointer + 1) else (do
    byte1 ← load byte_array (positions_pointer + 1)
    (let upper = bit_and byte0 0x7f * 2 ^ 7 in
        if has_bit byte1 0x80
        then ok (bit_or upper (bit_and byte1 0x7f), positions_pointer + 1 + 1)
        else (do
          byte2 ← load byte_array (positions_pointer + 1 + 1)
          ok (
            bit_or (bit_or (upper * 2 ^ 7) (bit_and byte1 0x7f * 2 ^ 7)) (bit_and byte2 0x7f),
            positions_pointer + 1 + 1,
          )))))

-- One to four positions in the low `b` bits of a rank pointer. The literal masks and shifts of the
-- source are those that this makes of 14, 21, 13 and 20 bits.
abbrev low : ℕ → ℕ → ℕ
low rank bits = bit_and rank (2 ^ bits - 1)

abbrev pub positions_1 : ℕ → ℕ → List ℕ
positions_1 rank b = low rank b ∷ 0 ∷ 0 ∷ 0 ∷ []

abbrev pub positions_2 : ℕ → ℕ → List ℕ
positions_2 rank b =
    let b1 = b / 2 in let b2 = b - b1 in low (rank / 2 ^ b2) b1 ∷ low rank b2 ∷ 0 ∷ 0 ∷ []

abbrev pub positions_3 : ℕ → ℕ → List ℕ
positions_3 rank b =
    let b1 = b / 3 in
    let b2 = (b - b1) / 2 in
    let b3 = b - b1 - b2 in
    low (rank / 2 ^ (b2 + b3)) b1 ∷ low (rank / 2 ^ b3) b2 ∷ low rank b3 ∷ 0 ∷ []

abbrev pub positions_4 : ℕ → ℕ → List ℕ
positions_4 rank b =
    let b1 = b / 4 in
    let b2 = (b - b1) / 3 in
    let b3 = (b - b1 - b2) / 2 in
    let b4 = b - b1 - b2 - b3 in
    low (rank / 2 ^ (b2 + b3 + b4)) b1
    ∷ low (rank / 2 ^ (b3 + b4)) b2
    ∷ low (rank / 2 ^ b4) b3
    ∷ low rank b4
    ∷ []

abbrev pub no_positions : List ℕ
no_positions = 0 ∷ 0 ∷ 0 ∷ 0 ∷ []

-- One field: the count, and the positions of a phrase query.
unfoldable pub single_count : Bool → ℕ → ℕ
single_count short rank =
    if short
    then (let tag = rank / 2 ^ 14 in if tag == 0b10 then 1 else if tag == 0b11 then 2 else 0)
    else (let tag = bit_and rank 0xffffff / 2 ^ 21 in
        if tag == 0b100
        then 1
        else if tag == 0b101
        then 2
        else if tag == 0b110
        then 3
        else if tag == 0b111
        then 4
        else 0)

unfoldable pub single_positions : Bool → ℕ → List ℕ
single_positions short rank =
    if short
    then (let tag = rank / 2 ^ 14 in
        if tag == 0b10
        then positions_1 rank 14
        else if tag == 0b11
        then positions_2 rank 14
        else no_positions)
    else (let tag = bit_and rank 0xffffff / 2 ^ 21 in
        if tag == 0b100
        then positions_1 rank 21
        else if tag == 0b101
        then positions_2 rank 21
        else if tag == 0b110
        then positions_3 rank 21
        else if tag == 0b111
        then positions_4 rank 21
        else no_positions)

-- The counts of the two terms of a bigram come first.
unfoldable pub read_bigram_counts : PostingListQuery → ℕ → Run (PostingListQuery × ℕ)
read_bigram_counts plo pointer =
    if plo.is_bigram
    then (do
      tf1 ← read_singlefield_value plo.byte_array pointer
      tf2 ← read_singlefield_value plo.byte_array tf1.1
      ok (record plo { tf_bigram1 = tf1.0; tf_bigram2 = tf2.0 }, tf2.1))
    else ok (plo, pointer)

-- The result is `true` where the posting is not scored any further.
unfoldable pub decode_singlefield : PostingListQuery → QueryFlags → Run (PostingListQuery × Bool)
decode_singlefield plo flags = do
  rank ← read_rank plo
  (if not (embedded_flag plo rank)
      then (do
        pointer ← difference plo.rank_position_pointer_range (pointer_value plo rank)
        bigram ← read_bigram_counts (record plo { is_embedded = false }) pointer
        count ← read_singlefield_value plo.byte_array bigram.1
        ok (
            if speedup flags && ltb count.0 10 then (bigram.0, true) else (
              record bigram.0 { positions_pointer = count.1; positions_count = count.0 },
              false,
            )))
      else if speedup flags
      then ok (record plo { is_embedded = true }, true)
      else (do
        sum ←
            if short_pointer plo
            then ok (plo.p_docid * 2)
            else difference (plo.p_docid * 3) plo.pointer_pivot_p_docid
        ok (
          record plo {
            is_embedded = true;
            embedded_positions =
                if flags.phrase_query
                then single_positions (short_pointer plo) rank
                else plo.embedded_positions;
            positions_pointer = plo.rank_position_pointer_range + sum;
            positions_count = single_count (short_pointer plo) rank;
          },
          false,
        )))
