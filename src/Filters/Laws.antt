-- ===== src/Filters/Laws.antt =====
-- A document passes a facet filter if and only if each of its facet values lies in the range, or the
-- set, of the filter of its field.
use seek_storm.Base.{
  ℕ, List, [], ◌∷◌, Bool, true, false, not, ok, load, ◌≡◌, ◌↔◌, ◌⊎◌, refl, ◌≤◌, ◌<◌, arith,
  if◌then◌else◌, Option, Ordering, ◌||◌,
}
use seek_storm.Base.Int.{ℤ, compare_ℤ}
use seek_storm.Base.Order.{is_gt, is_lt}
use seek_storm.Floats.{Floats}
use seek_storm.Geo.{decode_morton_2_d, euclidian_distance}
use seek_storm.Facets.{FacetField, FacetIndex, position}
use seek_storm.Filters.{
  in_range, in_range_ℤ, in_range_float, float_le, float_lt, contains, FilterSparse, rejects,
  filter_loop, is_facet_filter,
}
use seek_storm.Utils.{
  read_u16, read_u32, read_u64, read_i8, read_i16, read_i32, read_i64, read_f32, read_f64,
}

abbrev Within : ℕ → ℕ → ℕ → Type 0
Within from to v = (from ≤ v) × (v < to)

abbrev WithinInt : ℤ → ℤ → ℤ → Type 0
WithinInt from to v = (is_gt (compare_ℤ from v) ≡ false) × (is_lt (compare_ℤ v to) ≡ true)

abbrev WithinFloat {ℓ} : {F : Type ℓ} → (F → F → Option Ordering) → F → F → F → Type 0
WithinFloat cmp from to v = (float_le cmp from v ≡ true) × (float_lt cmp v to ≡ true)

abbrev IsIn : List ℕ → ℕ → Type 0
IsIn [] id = ⊥
IsIn (v ∷ values) id = (v ≡ id) ⊎ IsIn values id

contains_iff : (values : List ℕ) (id : ℕ) → (contains values id ≡ true) ↔ IsIn values id
unfolding contains
contains_iff [] id = ((λ e. cc), (λ e. absurd e))
contains_iff (v ∷ values) id = ground (arith, contains_iff values id)

module _ (floats : Floats) where
  open floats use {F32, f32_from_bits, f32_partial_cmp, F64, from_bits, partial_cmp}

  -- The value that a filter looks at can be read.
  abbrev pub Reads : FilterSparse floats → List ℕ → ℕ → Type 0
  Reads (FilterSparse.u8 from to) mmap at = (v : ℕ) × (load mmap at ≡ ok v)
  Reads (FilterSparse.u16 from to) mmap at = (v : ℕ) × (read_u16 mmap at ≡ ok v)
  Reads (FilterSparse.u32 from to) mmap at = (v : ℕ) × (read_u32 mmap at ≡ ok v)
  Reads (FilterSparse.u64 from to) mmap at = (v : ℕ) × (read_u64 mmap at ≡ ok v)
  Reads (FilterSparse.i8 from to) mmap at = (v : ℤ) × (read_i8 mmap at ≡ ok v)
  Reads (FilterSparse.i16 from to) mmap at = (v : ℤ) × (read_i16 mmap at ≡ ok v)
  Reads (FilterSparse.i32 from to) mmap at = (v : ℤ) × (read_i32 mmap at ≡ ok v)
  Reads (FilterSparse.i64 from to) mmap at = (v : ℤ) × (read_i64 mmap at ≡ ok v)
  Reads (FilterSparse.timestamp from to) mmap at = (v : ℤ) × (read_i64 mmap at ≡ ok v)
  Reads (FilterSparse.f32 from to) mmap at = (v : F32) × (read_f32 f32_from_bits mmap at ≡ ok v)
  Reads (FilterSparse.f64 from to) mmap at = (v : F64) × (read_f64 from_bits mmap at ≡ ok v)
  Reads (FilterSparse.string values) mmap at = (v : ℕ) × (read_u16 mmap at ≡ ok v)
  Reads (FilterSparse.point base from to unit range) mmap at = (v : ℕ) × (read_u64 mmap at ≡ ok v)
  Reads FilterSparse.no_filter mmap at = Unit

  -- The value lies where the filter wants it: a point in the range of codes and of distances.
  abbrev pub Admits :
      (filter : FilterSparse floats) (mmap : List ℕ) (at : ℕ) → Reads filter mmap at → Type 0
  Admits (FilterSparse.u8 from to) mmap at value = Within from to value.0
  Admits (FilterSparse.u16 from to) mmap at value = Within from to value.0
  Admits (FilterSparse.u32 from to) mmap at value = Within from to value.0
  Admits (FilterSparse.u64 from to) mmap at value = Within from to value.0
  Admits (FilterSparse.i8 from to) mmap at value = WithinInt from to value.0
  Admits (FilterSparse.i16 from to) mmap at value = WithinInt from to value.0
  Admits (FilterSparse.i32 from to) mmap at value = WithinInt from to value.0
  Admits (FilterSparse.i64 from to) mmap at value = WithinInt from to value.0
  Admits (FilterSparse.timestamp from to) mmap at value = WithinInt from to value.0
  Admits (FilterSparse.f32 from to) mmap at value = WithinFloat f32_partial_cmp from to value.0
  Admits (FilterSparse.f64 from to) mmap at value = WithinFloat partial_cmp from to value.0
  Admits (FilterSparse.string values) mmap at value = IsIn values value.0
  Admits (FilterSparse.point base from to unit range) mmap at value =
      Within range.start range.stop value.0
      × WithinFloat partial_cmp from to
          (euclidian_distance floats base (decode_morton_2_d floats value.0) unit)
  Admits FilterSparse.no_filter mmap at value = Unit

  -- One turn returns false exactly where the filter admits the value.
  rejects_iff :
      (filter : FilterSparse floats) (mmap : List ℕ) (at : ℕ) (value : Reads filter mmap at)
      → (b : Bool) × (rejects floats filter mmap at ≡ ok b)
        × ((b ≡ false) ↔ Admits filter mmap at value)
  unfolding rejects
  rejects_iff (FilterSparse.u8 from to) mmap at (v, e) =
      (not (in_range from to v), ground arith, ground arith)
  rejects_iff (FilterSparse.u16 from to) mmap at (v, e) =
      (not (in_range from to v), ground arith, ground arith)
  rejects_iff (FilterSparse.u32 from to) mmap at (v, e) =
      (not (in_range from to v), ground arith, ground arith)
  rejects_iff (FilterSparse.u64 from to) mmap at (v, e) =
      (not (in_range from to v), ground arith, ground arith)
  rejects_iff (FilterSparse.i8 from to) mmap at (v, e) =
      (not (in_range_ℤ from to v), ground arith, ground arith)
  rejects_iff (FilterSparse.i16 from to) mmap at (v, e) =
      (not (in_range_ℤ from to v), ground arith, ground arith)
  rejects_iff (FilterSparse.i32 from to) mmap at (v, e) =
      (not (in_range_ℤ from to v), ground arith, ground arith)
  rejects_iff (FilterSparse.i64 from to) mmap at (v, e) =
      (not (in_range_ℤ from to v), ground arith, ground arith)
  rejects_iff (FilterSparse.timestamp from to) mmap at (v, e) =
      (not (in_range_ℤ from to v), ground arith, ground arith)
  rejects_iff (FilterSparse.f32 from to) mmap at (v, e) =
      (not (in_range_float f32_partial_cmp from to v), ground arith, ground arith)
  rejects_iff (FilterSparse.f64 from to) mmap at (v, e) =
      (not (in_range_float partial_cmp from to v), ground arith, ground arith)
  rejects_iff (FilterSparse.string values) mmap at (v, e) =
      (not (contains values v), ground arith, ground (arith, contains_iff values v))
  rejects_iff (FilterSparse.point base from to unit range) mmap at (v, e) =
      let distance = euclidian_distance floats base (decode_morton_2_d floats v) unit in
      (
        (if in_range range.start range.stop v
            then not (in_range_float partial_cmp from to distance)
            else true),
        ground arith,
        ground arith,
      )
  rejects_iff FilterSparse.no_filter mmap at value = (false, refl, ground arith)

  -- The values of all facets can be read, and all filters admit them.
  abbrev pub AllRead : FacetIndex → List FacetField → List (FilterSparse floats) → ℕ → Type 0
  AllRead index [] filters docid = Unit
  AllRead index (facet ∷ facets) [] docid = ⊥
  AllRead index (facet ∷ facets) (filter ∷ filters) docid =
      Reads filter index.facets_file_mmap (position index facet docid)
      × AllRead index facets filters docid

  abbrev pub AllAdmit :
      (index : FacetIndex) (facets : List FacetField) (filters : List (FilterSparse floats))
      (docid : ℕ)
      → AllRead index facets filters docid
      → Type 0
  AllAdmit index [] filters docid r = Unit
  AllAdmit index (facet ∷ facets) [] docid r = ⊥
  AllAdmit index (facet ∷ facets) (filter ∷ filters) docid r =
      Admits filter index.facets_file_mmap (position index facet docid) r.0
      × AllAdmit index facets filters docid r.1

  filter_loop_iff :
      (index : FacetIndex) (facets : List FacetField) (filters : List (FilterSparse floats))
      (docid : ℕ) (r : AllRead index facets filters docid)
      → (b : Bool) × (filter_loop floats index facets filters docid ≡ ok b)
        × ((b ≡ false) ↔ AllAdmit index facets filters docid r)
  unfolding filter_loop
  filter_loop_iff index [] filters docid r = (false, refl, ground arith)
  filter_loop_iff index (facet ∷ facets) [] docid r = absurd r
  filter_loop_iff index (facet ∷ facets) (filter ∷ filters) docid r =
      let one = rejects_iff filter index.facets_file_mmap (position index facet docid) r.0 in
      let rest = filter_loop_iff index facets filters docid r.1 in
      (
        (one.0 || rest.0),
        ground (arith, one.1, rest.1),
        (
          (λ e. (one.2.0 (ground arith), rest.2.0 (ground arith))),
          (λ a. ground (arith, one.2.1 a.0, rest.2.1 a.1)),
        ),
      )

  -- Where there is a filter for each facet and the values they look at can be read, is_facet_filter
  -- returns, and it returns false, which keeps the document, exactly where every filter admits its
  -- value: from its start on and below its end, or one of its set, or, for a point, a code in the
  -- range of codes at a distance in the range of distances.
  pub is_facet_filter_iff :
      (index : FacetIndex) (filters : List (FilterSparse floats)) (docid : ℕ)
      (r : AllRead index index.facets filters docid)
      → (b : Bool) × (is_facet_filter floats index filters docid ≡ ok b)
        × ((b ≡ false) ↔ AllAdmit index index.facets filters docid r)
  unfolding is_facet_filter
  is_facet_filter_iff index filters docid r = filter_loop_iff index index.facets filters docid r
