-- ===== src/Filters.antt =====
-- src/seekstorm/add_result.rs, `is_facet_filter` and `facet_count`, and src/seekstorm/search.rs,
-- `FilterSparse`, `Ranges`: which documents a facet filter lets through, and how the values of the
-- facets are counted. A `Range` is its start and its end, which is not in it.
pub mod Count
pub mod Counts
pub mod Laws
mod Tests
use seek_storm.Base.{
  ℕ, List, [], ◌∷◌, Bool, true, false, not, ◌&&◌, ◌||◌, Option, none, some, Ordering, compare, Run,
  ok, panic, ◌>>=◌, load, leb, ltb, ◌==◌, if◌then◌else◌,
}
use seek_storm.Base.Int.{ℤ, compare_ℤ}
use seek_storm.Base.Order.{is_gt, is_lt}
use seek_storm.Floats.{Floats}
use seek_storm.Geo.{Point, DistanceUnit, MortonRange, decode_morton_2_d, euclidian_distance}
use seek_storm.Facets.{FacetField, FacetIndex, position}
use seek_storm.Utils.{
  read_u16, read_u32, read_u64, read_i8, read_i16, read_i32, read_i64, read_f32, read_f64,
}

-- `contains` of a range, by the `<=` and `<` of the type.
abbrev pub in_range : ℕ → ℕ → ℕ → Bool
in_range from to v = leb from v && ltb v to

abbrev pub in_range_ℤ : ℤ → ℤ → ℤ → Bool
in_range_ℤ from to v = not (is_gt (compare_ℤ from v)) && is_lt (compare_ℤ v to)

abbrev pub float_le {ℓ} : {F : Type ℓ} → (F → F → Option Ordering) → F → F → Bool
float_le cmp a b = elim (cmp a b) [ none ↦ false | some o ↦ not (is_gt o) ]

abbrev pub float_lt {ℓ} : {F : Type ℓ} → (F → F → Option Ordering) → F → F → Bool
float_lt cmp a b = elim (cmp a b) [ none ↦ false | some o ↦ is_lt o ]

abbrev pub in_range_float {ℓ} : {F : Type ℓ} → (F → F → Option Ordering) → F → F → F → Bool
in_range_float cmp from to v = float_le cmp from v && float_lt cmp v to

-- `values.contains(&id)`
unfoldable pub contains : List ℕ → ℕ → Bool
contains [] id = false
contains (v ∷ values) id = v == id || contains values id

module _ (floats : Floats) where
  open floats use {F32, f32_from_bits, f32_partial_cmp, F64, from_bits, partial_cmp}

  pub data FilterSparse : Type 0 where
    u8 u16 u32 u64 : ℕ → ℕ → FilterSparse
    i8 i16 i32 i64 timestamp : ℤ → ℤ → FilterSparse
    f32 : F32 → F32 → FilterSparse
    f64 : F64 → F64 → FilterSparse
    string : List ℕ → FilterSparse
    point : Point floats → F64 → F64 → DistanceUnit → MortonRange floats → FilterSparse
    no_filter : FilterSparse

  -- One turn of the loop: whether it returns true.
  unfoldable pub rejects : FilterSparse → List ℕ → ℕ → Run Bool
  rejects (FilterSparse.u8 from to) mmap at = do v ← load mmap at; ok (not (in_range from to v))
  rejects (FilterSparse.u16 from to) mmap at = do
    v ← read_u16 mmap at
    ok (not (in_range from to v))
  rejects (FilterSparse.u32 from to) mmap at = do
    v ← read_u32 mmap at
    ok (not (in_range from to v))
  rejects (FilterSparse.u64 from to) mmap at = do
    v ← read_u64 mmap at
    ok (not (in_range from to v))
  rejects (FilterSparse.i8 from to) mmap at = do
    v ← read_i8 mmap at
    ok (not (in_range_ℤ from to v))
  rejects (FilterSparse.i16 from to) mmap at = do
    v ← read_i16 mmap at
    ok (not (in_range_ℤ from to v))
  rejects (FilterSparse.i32 from to) mmap at = do
    v ← read_i32 mmap at
    ok (not (in_range_ℤ from to v))
  rejects (FilterSparse.i64 from to) mmap at = do
    v ← read_i64 mmap at
    ok (not (in_range_ℤ from to v))
  rejects (FilterSparse.timestamp from to) mmap at = do
    v ← read_i64 mmap at
    ok (not (in_range_ℤ from to v))
  rejects (FilterSparse.f32 from to) mmap at = do
    v ← read_f32 f32_from_bits mmap at
    ok (not (in_range_float f32_partial_cmp from to v))
  rejects (FilterSparse.f64 from to) mmap at = do
    v ← read_f64 from_bits mmap at
    ok (not (in_range_float partial_cmp from to v))
  rejects (FilterSparse.string values) mmap at = do
    id ← read_u16 mmap at
    ok (not (contains values id))
  rejects (FilterSparse.point base from to unit range) mmap at = do
    code ← read_u64 mmap at
    let distance = euclidian_distance floats base (decode_morton_2_d floats code) unit
    ok (
        if in_range range.start range.stop code
        then not (in_range_float partial_cmp from to distance)
        else true)
  rejects FilterSparse.no_filter mmap at = ok false

  -- The filters have the places of the facets.
  unfoldable pub filter_loop : FacetIndex → List FacetField → List FilterSparse → ℕ → Run Bool
  filter_loop index [] filters docid = ok false
  filter_loop index (facet ∷ facets) [] docid = panic
  filter_loop index (facet ∷ facets) (filter ∷ filters) docid =
      let rest = filter_loop index facets filters docid in
      rejects filter index.facets_file_mmap (position index facet docid) >>= λ out.
      if out then ok true else rest

  unfoldable pub is_facet_filter : FacetIndex → List FilterSparse → ℕ → Run Bool
  is_facet_filter index facet_filter docid = filter_loop index index.facets facet_filter docid
