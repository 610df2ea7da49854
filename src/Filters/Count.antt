-- ===== src/Filters/Count.antt =====
-- src/seekstorm/add_result.rs, `facet_count`: the count of each value, or of each range of values, of
-- the facets of a document. `binary_search_by_key` finds its place in bounds that ascend, which is
-- the number of the bounds below the value. At 0, `idx as u16 - 1` panics in a build with overflow
-- checks and is 65535 in the release build, which has none (Cargo.toml); `overflow_checks` tells.
use seek_storm.Base.{
  ℕ, suc, ◌+◌, ◌-◌, ◌%◌, List, [], ◌∷◌, Bool, true, false, Ordering, compare, Run, ok, panic, ◌>>=◌,
  load, unwrap, ◌==◌, if◌then◌else◌,
}
use seek_storm.Base.Int.{ℤ, compare_ℤ}
use seek_storm.Floats.{Floats}
use seek_storm.Geo.{Point, DistanceUnit, decode_morton_2_d, euclidian_distance}
use seek_storm.Facets.{FacetField, FacetIndex, position}
use seek_storm.Utils.{
  read_u16, read_u32, read_u64, read_i8, read_i16, read_i32, read_i64, read_f32, read_f64,
}

-- `binary_search_by`: `cmp` compares a bound to the value. The place is that of the bound that is
-- equal, or else of the first that is above, and the flag tells which. `partial_cmp(..).unwrap()`
-- may panic.
unfoldable pub search_bound {ℓ} : {A : Type ℓ} → (A → Run Ordering) → List A → Run (ℕ × Bool)
search_bound cmp [] = ok (0, false)
search_bound cmp (bound ∷ bounds) =
    let rest = search_bound cmp bounds >>= λ r. ok (suc r.0, r.1) in
    cmp bound >>= λ o. elim o [
      | Ordering.lt ↦ rest
      | Ordering.eq ↦ ok (0, true)
      | Ordering.gt ↦ ok (0, false)
    ]

-- `.map_or_else(|idx| idx as u16 - 1, |idx| idx as u16)`
unfoldable pub range_id {ℓ} : {A : Type ℓ} → Bool → (A → Run Ordering) → List A → Run ℕ
range_id overflow_checks cmp bounds = do
  found ← search_bound cmp bounds
  (if found.1
      then ok (found.0 % 65536)
      else if found.0 % 65536 == 0
      then (if overflow_checks then panic else ok 65535)
      else ok (found.0 % 65536 - 1))

-- `*values.entry(id).or_insert(0) += 1`
unfoldable pub increment : List (ℕ × ℕ) → ℕ → List (ℕ × ℕ)
increment [] id = (id, 1) ∷ []
increment ((key, n) ∷ values) id =
    if key == id then ((key, n + 1) ∷ values) else ((key, n) ∷ increment values id)

module _ (floats : Floats) where
  open floats use {F32, f32_from_bits, f32_partial_cmp, F64, from_bits, partial_cmp}

  -- The lower bounds of the ranges; their labels and their type are not read here.
  pub data Ranges : Type 0 where
    u8 u16 u32 u64 : List ℕ → Ranges
    i8 i16 i32 i64 timestamp : List ℤ → Ranges
    f32 : List F32 → Ranges
    f64 : List F64 → Ranges
    point : List F64 → Point floats → DistanceUnit → Ranges
    no_ranges : Ranges

  -- The counts of a facet, by value.
  pub record ResultFacet : Type 0 where
    pub values : List (ℕ × ℕ)
    pub length : ℕ
    pub ranges : Ranges

  module _ (overflow_checks : Bool) where
    unfoldable pub facet_value_id : Ranges → List ℕ → ℕ → Run ℕ
    facet_value_id (Ranges.u8 bounds) mmap at = do
      v ← load mmap at
      range_id overflow_checks (λ bound. ok (compare bound v)) bounds
    facet_value_id (Ranges.u16 bounds) mmap at = do
      v ← read_u16 mmap at
      range_id overflow_checks (λ bound. ok (compare bound v)) bounds
    facet_value_id (Ranges.u32 bounds) mmap at = do
      v ← read_u32 mmap at
      range_id overflow_checks (λ bound. ok (compare bound v)) bounds
    facet_value_id (Ranges.u64 bounds) mmap at = do
      v ← read_u64 mmap at
      range_id overflow_checks (λ bound. ok (compare bound v)) bounds
    facet_value_id (Ranges.i8 bounds) mmap at = do
      v ← read_i8 mmap at
      range_id overflow_checks (λ bound. ok (compare_ℤ bound v)) bounds
    facet_value_id (Ranges.i16 bounds) mmap at = do
      v ← read_i16 mmap at
      range_id overflow_checks (λ bound. ok (compare_ℤ bound v)) bounds
    facet_value_id (Ranges.i32 bounds) mmap at = do
      v ← read_i32 mmap at
      range_id overflow_checks (λ bound. ok (compare_ℤ bound v)) bounds
    facet_value_id (Ranges.i64 bounds) mmap at = do
      v ← read_i64 mmap at
      range_id overflow_checks (λ bound. ok (compare_ℤ bound v)) bounds
    facet_value_id (Ranges.timestamp bounds) mmap at = do
      v ← read_i64 mmap at
      range_id overflow_checks (λ bound. ok (compare_ℤ bound v)) bounds
    facet_value_id (Ranges.f32 bounds) mmap at = do
      v ← read_f32 f32_from_bits mmap at
      range_id overflow_checks (λ bound. unwrap (f32_partial_cmp bound v)) bounds
    facet_value_id (Ranges.f64 bounds) mmap at = do
      v ← read_f64 from_bits mmap at
      range_id overflow_checks (λ bound. unwrap (partial_cmp bound v)) bounds
    facet_value_id (Ranges.point bounds base unit) mmap at = do
      code ← read_u64 mmap at
      let distance = euclidian_distance floats base (decode_morton_2_d floats code) unit
      range_id overflow_checks (λ bound. unwrap (partial_cmp bound distance)) bounds
    facet_value_id Ranges.no_ranges mmap at = read_u16 mmap at

    unfoldable pub count_loop :
        FacetIndex → List FacetField → List ResultFacet → ℕ → Run (List ResultFacet)
    count_loop index [] query_facets docid = ok query_facets
    count_loop index (facet ∷ facets) [] docid = panic
    count_loop index (facet ∷ facets) (query_facet ∷ query_facets) docid = do
      counted ← if query_facet.length == 0 then ok query_facet else (do
        id ← facet_value_id query_facet.ranges index.facets_file_mmap (position index facet docid)
        ok (record query_facet { values = increment query_facet.values id }))
      rest ← count_loop index facets query_facets docid
      ok (counted ∷ rest)

    unfoldable pub facet_count : FacetIndex → List ResultFacet → Bool → ℕ → Run (List ResultFacet)
    facet_count index [] skip_facet_count docid = ok []
    facet_count index (query_facet ∷ query_facets) skip_facet_count docid =
        if skip_facet_count
        then ok (query_facet ∷ query_facets)
        else count_loop index index.facets (query_facet ∷ query_facets) docid
