-- ===== src/Lib.antt =====
-- SeekStorm is a search library: it keeps an inverted index of documents, compresses its postings
-- block by block, and answers queries with the best results by score or by the fields of the
-- documents. This library models parts of it as functions and states what they do.
--
-- Parts and files:
--
--   * Byte buffers, src/seekstorm/utils.rs: Utils. All readers and writers of little-endian
--     numbers and the block copy. Every other part reads and writes its buffers through them.
--   * The top-k heap, src/seekstorm/min_heap.rs: MinHeap. The struct MinHeap with its array and
--     its hash set of known documents, and each method from swap to add_topk, over any
--     result_ordering. MinHeap/Up, Down, Insert and Replace are the lemmas on its loops,
--     MinHeap/Order says what an ordering has to be, MinHeap/TopK and Known hold the theorems.
--   * The order of the results, src/seekstorm/min_heap.rs: Sorting, one definition per arm of
--     result_ordering, over the facet file of Facets. Sorting/Order is about it as the ordering of
--     the heap.
--   * Positions, src/seekstorm/compress_postinglist.rs and src/seekstorm/add_result.rs: Positions,
--     the encoder compress_positions and the decoders get_next_position_singlefield and
--     get_next_position_multifield; and Positions/Delta, the deltas of
--     src/seekstorm/index_posting.rs and the positions that src/seekstorm/commit.rs makes of them.
--   * Field vectors, src/seekstorm/index_posting.rs and src/seekstorm/add_result.rs: Fields, the
--     writer write_field_vec and the reader read_multifield_vec; Fields/Embedded, the decoding of
--     a posting at commit.
--   * Posting lists, src/seekstorm/compress_postinglist.rs: Postings, the records; Postings/Score
--     and Iterator, the function docid_iterator; Postings/Compress, the documents as an array, as
--     a bitmap or as runs; Postings/Choose, the choice between them and the head of the key. The loop
--     over runs takes the iterator as an argument, which Postings/Choose fills.
--     Postings/Scan is the reader of the documents, iterate_docid of src/seekstorm/commit.rs, and
--     Postings/Head the search among the heads and the fields read from one, of
--     src/seekstorm/search.rs. Postings/Runs, RunRead, RunLoop and RunScan are about the runs,
--     Postings/RoundTrip, Search and Pointer about the heads.
--   * Embedded positions, src/seekstorm/index_posting.rs and src/seekstorm/add_result.rs: Embed,
--     when and how a posting is embedded in its rank pointer; Embed/Decode and Multi, the decoders
--     decode_positions_multiterm_singlefield and decode_positions_multiterm_multifield.
--     Embed/Choice, Pack, Unpack, Places and Bytes are the lemmas on one number and its bytes, the
--     modules named for fields those on the ids above it; RoundTrip, Longest and Several are the
--     three kinds of terms.
--   * Facet filters and counts, src/seekstorm/add_result.rs and src/seekstorm/search.rs: Filters,
--     is_facet_filter; Filters/Count, facet_count. Filters/Laws and Counts are about them.
--   * The intersection of two bitmaps, src/seekstorm/intersection.rs, intersection_bitmap_2, with
--     the bit operations of src/seekstorm/compatible.rs: Intersection. Intersection/Bits and Scan
--     are the lemmas on the words, Docs those on the bits of the bytes, Bitmaps is about the
--     whole. Intersection/ArrayBitmap is the loop of intersection_docid over an array and a bitmap where there are two terms; Ranks is
--     about it.
--   * Geographic search, src/seekstorm/geo_search.rs: Geo, all functions.
--   * Base holds what the parts share: outcomes of a run, lists under native indices, slices and
--     what stands in them, bits, signed numbers and orderings. Floats is the arithmetic of f32 and
--     f64.
--
-- How the code is read:
--
--   * A buffer is the list of its bytes. What the code changes through a `&mut` argument is passed
--     in and returned. A run ends with a value, a panic, or the fuel of the model running out.
--   * An index out of bounds panics, and so does an overflow where the note of the file says so; a
--     cast to a narrower type keeps the lowest bits. Where the release build is without a panic
--     that a debug build has, overflow_checks tells which is meant.
--   * The arithmetic of floats is a parameter. What is assumed of a comparison of floats is in
--     Base/Order (FloatOrder): it agrees with a total preorder on those values that are numbers.
--   * Loops over a count or a list recurse on it. The loop over the common bits of two words runs
--     on 65 units of fuel, one more than there are bits. The loops of the heap, of the search
--     among the heads and of the reader of fields run on fuel: one more than the entries of the
--     heap, than the heads, and than the bytes. A theorem that says that a function returns says
--     that the fuel is enough.
--   * The index is a record of the fields that a part uses. In the posting lists the entry of the
--     key is such a field, since every function there looks up the same key.
--
-- Not modelled: the rest of the evaluation of queries (src/seekstorm/single.rs,
-- src/seekstorm/union.rs, the other intersections of src/seekstorm/intersection.rs,
-- src/seekstorm/intersection_simd.rs, src/seekstorm/realtime_search.rs), the entry points and
-- locks of src/seekstorm/index.rs and src/seekstorm/search.rs, the writing of blocks and files
-- (src/seekstorm/commit.rs, src/seekstorm/doc_store.rs), tokenizing, word segmentation,
-- highlighting and ingestion, and the server. They are larger, or are mostly calls of other crates
-- and of the operating system.
pub mod Base
pub mod Utils
pub mod Intersection
pub mod MinHeap
pub mod Floats
pub mod Geo
pub mod Facets
pub mod Sorting
pub mod Embed
pub mod Filters
pub mod Postings
pub mod Fields
pub mod Positions
