-- ===== src/Sorting.antt =====
-- `result_ordering` of src/seekstorm/min_heap.rs: how two results compare, by the sort fields in
-- turn and then by score. Each arm of its match is a function here. `idx` comes from a search among
-- the facets, and an index out of range panics.
pub mod Keys
pub mod Order
mod Tests
use seek_storm.Base.{ℕ, compare, List, [], ◌∷◌, Ordering, Run, ok, ◌>>=◌, load}
use seek_storm.Base.Int.{compare_ℤ}
use seek_storm.Base.Order.{or_equal, compare_list}
use seek_storm.Floats.{Floats}
use seek_storm.Geo.{SortOrder, ascending, descending, morton_ordering}
use seek_storm.Facets.{
  FieldType, FacetField, FacetIndex, FacetValue, point_value, other_value, ResultSortIndex,
  position, first_value,
}
use seek_storm.MinHeap.{Result}
use seek_storm.Utils.{
  read_u16, read_u32, read_u64, read_i8, read_i16, read_i32, read_i64, read_f32, read_f64,
}

-- `if field.order == Descending { v1.cmp(v2) } else { v2.cmp(v1) }`
abbrev pub directed {ℓ} : {A : Type ℓ} → SortOrder → (A → A → Ordering) → A → A → Ordering
directed descending cmp v1 v2 = cmp v1 v2
directed ascending cmp v1 v2 = cmp v2 v1

module _ (floats : Floats) where
  open floats use {F32, f32_from_bits, f32_partial_cmp, from_bits, partial_cmp}

  module _ (index : FacetIndex) (facet : FacetField) (order : SortOrder)
      (result1 result2 : Result F32) where
    unfoldable pub u8_ordering : Run Ordering
    u8_ordering = do
      facet_value_1 ← load index.facets_file_mmap (position index facet result1.doc_id)
      facet_value_2 ← load index.facets_file_mmap (position index facet result2.doc_id)
      ok (directed order compare facet_value_1 facet_value_2)

    unfoldable pub u16_ordering : Run Ordering
    u16_ordering = do
      facet_value_1 ← read_u16 index.facets_file_mmap (position index facet result1.doc_id)
      facet_value_2 ← read_u16 index.facets_file_mmap (position index facet result2.doc_id)
      ok (directed order compare facet_value_1 facet_value_2)

    unfoldable pub u32_ordering : Run Ordering
    u32_ordering = do
      facet_value_1 ← read_u32 index.facets_file_mmap (position index facet result1.doc_id)
      facet_value_2 ← read_u32 index.facets_file_mmap (position index facet result2.doc_id)
      ok (directed order compare facet_value_1 facet_value_2)

    unfoldable pub u64_ordering : Run Ordering
    u64_ordering = do
      facet_value_1 ← read_u64 index.facets_file_mmap (position index facet result1.doc_id)
      facet_value_2 ← read_u64 index.facets_file_mmap (position index facet result2.doc_id)
      ok (directed order compare facet_value_1 facet_value_2)

    unfoldable pub i8_ordering : Run Ordering
    i8_ordering = do
      facet_value_1 ← read_i8 index.facets_file_mmap (position index facet result1.doc_id)
      facet_value_2 ← read_i8 index.facets_file_mmap (position index facet result2.doc_id)
      ok (directed order compare_ℤ facet_value_1 facet_value_2)

    unfoldable pub i16_ordering : Run Ordering
    i16_ordering = do
      facet_value_1 ← read_i16 index.facets_file_mmap (position index facet result1.doc_id)
      facet_value_2 ← read_i16 index.facets_file_mmap (position index facet result2.doc_id)
      ok (directed order compare_ℤ facet_value_1 facet_value_2)

    unfoldable pub i32_ordering : Run Ordering
    i32_ordering = do
      facet_value_1 ← read_i32 index.facets_file_mmap (position index facet result1.doc_id)
      facet_value_2 ← read_i32 index.facets_file_mmap (position index facet result2.doc_id)
      ok (directed order compare_ℤ facet_value_1 facet_value_2)

    unfoldable pub i64_ordering : Run Ordering
    i64_ordering = do
      facet_value_1 ← read_i64 index.facets_file_mmap (position index facet result1.doc_id)
      facet_value_2 ← read_i64 index.facets_file_mmap (position index facet result2.doc_id)
      ok (directed order compare_ℤ facet_value_1 facet_value_2)

    -- The body of the I64 arm once more.
    unfoldable pub timestamp_ordering : Run Ordering
    timestamp_ordering = do
      facet_value_1 ← read_i64 index.facets_file_mmap (position index facet result1.doc_id)
      facet_value_2 ← read_i64 index.facets_file_mmap (position index facet result2.doc_id)
      ok (directed order compare_ℤ facet_value_1 facet_value_2)

    unfoldable pub f32_ordering : Run Ordering
    f32_ordering = do
      facet_value_1 ←
          read_f32 f32_from_bits index.facets_file_mmap (position index facet result1.doc_id)
      facet_value_2 ←
          read_f32 f32_from_bits index.facets_file_mmap (position index facet result2.doc_id)
      ok (directed order (λ v1 v2. or_equal (f32_partial_cmp v1 v2)) facet_value_1 facet_value_2)

    unfoldable pub f64_ordering : Run Ordering
    f64_ordering = do
      facet_value_1 ←
          read_f64 from_bits index.facets_file_mmap (position index facet result1.doc_id)
      facet_value_2 ←
          read_f64 from_bits index.facets_file_mmap (position index facet result2.doc_id)
      ok (directed order (λ v1 v2. or_equal (partial_cmp v1 v2)) facet_value_1 facet_value_2)

    unfoldable pub string_ordering : Run Ordering
    string_ordering = do
      facet_value_1 ← first_value index facet result1.doc_id
      facet_value_2 ← first_value index facet result2.doc_id
      ok (directed order compare_list facet_value_1 facet_value_2)

    -- The body of the String arm once more.
    unfoldable pub string_set_ordering : Run Ordering
    string_set_ordering = do
      facet_value_1 ← first_value index facet result1.doc_id
      facet_value_2 ← first_value index facet result2.doc_id
      ok (directed order compare_list facet_value_1 facet_value_2)

    unfoldable pub point_ordering : FacetValue floats → Run Ordering
    point_ordering (point_value base) = do
      facet_value_1 ← read_u64 index.facets_file_mmap (position index facet result1.doc_id)
      facet_value_2 ← read_u64 index.facets_file_mmap (position index facet result2.doc_id)
      ok (morton_ordering floats facet_value_1 facet_value_2 base order)
    point_ordering other_value = ok Ordering.eq

  -- The match on the type of the field; a type with no arm decides nothing.
  unfoldable pub typed_ordering :
      FieldType
      → FacetIndex
      → FacetField
      → ResultSortIndex floats
      → Result F32
      → Result F32
      → Run Ordering
  typed_ordering FieldType.u8 index facet field result1 result2 =
      u8_ordering index facet field.order result1 result2
  typed_ordering FieldType.u16 index facet field result1 result2 =
      u16_ordering index facet field.order result1 result2
  typed_ordering FieldType.u32 index facet field result1 result2 =
      u32_ordering index facet field.order result1 result2
  typed_ordering FieldType.u64 index facet field result1 result2 =
      u64_ordering index facet field.order result1 result2
  typed_ordering FieldType.i8 index facet field result1 result2 =
      i8_ordering index facet field.order result1 result2
  typed_ordering FieldType.i16 index facet field result1 result2 =
      i16_ordering index facet field.order result1 result2
  typed_ordering FieldType.i32 index facet field result1 result2 =
      i32_ordering index facet field.order result1 result2
  typed_ordering FieldType.i64 index facet field result1 result2 =
      i64_ordering index facet field.order result1 result2
  typed_ordering FieldType.timestamp index facet field result1 result2 =
      timestamp_ordering index facet field.order result1 result2
  typed_ordering FieldType.f32 index facet field result1 result2 =
      f32_ordering index facet field.order result1 result2
  typed_ordering FieldType.f64 index facet field result1 result2 =
      f64_ordering index facet field.order result1 result2
  typed_ordering FieldType.string index facet field result1 result2 =
      string_ordering index facet field.order result1 result2
  typed_ordering FieldType.string_set index facet field result1 result2 =
      string_set_ordering index facet field.order result1 result2
  typed_ordering FieldType.point index facet field result1 result2 =
      point_ordering index facet field.order result1 result2 field.base
  typed_ordering FieldType.bool index facet field result1 result2 = ok Ordering.eq
  typed_ordering FieldType.text index facet field result1 result2 = ok Ordering.eq

  -- One round of the loop.
  unfoldable pub field_ordering :
      FacetIndex → ResultSortIndex floats → Result F32 → Result F32 → Run Ordering
  field_ordering index field result1 result2 = do
    facet ← load index.facets field.idx
    typed_ordering facet.field_type index facet field result1 result2

  -- `return order` unless the field is a tie.
  abbrev pub unless_equal : Ordering → Run Ordering → Run Ordering
  unless_equal Ordering.lt rest = ok Ordering.lt
  unless_equal Ordering.eq rest = rest
  unless_equal Ordering.gt rest = ok Ordering.gt

  unfoldable pub result_ordering :
      FacetIndex → List (ResultSortIndex floats) → Result F32 → Result F32 → Run Ordering
  result_ordering index [] result1 result2 =
      ok (or_equal (f32_partial_cmp result1.score result2.score))
  result_ordering index (field ∷ result_sort) result1 result2 =
      let rest = result_ordering index result_sort result1 result2 in
      field_ordering index field result1 result2 >>= λ order. unless_equal order rest
