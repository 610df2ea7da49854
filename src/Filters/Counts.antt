-- ===== src/Filters/Counts.antt =====
-- The range that a facet value is counted in, and what one document changes in the counts.
use seek_storm.Base.{
  ℕ, suc, ◌+◌, ◌-◌, List, [], ◌∷◌, Bool, true, false, Ordering, compare, Run, ok, panic, load,
  unwrap, ◌==◌, if◌then◌else◌, ◌≡◌, refl, ◌≤◌, ◌<◌, arith, length, inl, inr, Bool-cases,
}
use seek_storm.Base.Int.{ℤ, compare_ℤ}
use seek_storm.Base.Order.{is_gt}
use seek_storm.Floats.{Floats}
use seek_storm.Geo.{decode_morton_2_d, euclidian_distance}
use seek_storm.Utils.{
  read_u16, read_u32, read_u64, read_i8, read_i16, read_i32, read_i64, read_f32, read_f64,
}
use seek_storm.Facets.{FacetField, FacetIndex, position}
use seek_storm.Filters.Count.{
  search_bound, range_id, Ranges, facet_value_id, ResultFacet, increment, count_loop, facet_count,
}

-- What comparing each of some bounds returns.
abbrev pub Compares : {A : Type 0} → (A → Run Ordering) → List A → List Ordering → Type 0
Compares cmp [] [] = Unit
Compares cmp [] (order ∷ orders) = ⊥
Compares cmp (bound ∷ bounds) [] = ⊥
Compares cmp (bound ∷ bounds) (order ∷ orders) = (cmp bound ≡ ok order) × Compares cmp bounds orders

-- Bounds that ascend strictly, as they compare to a value: those below it, at most one that equals it,
-- and those above it.
abbrev pub AllAbove : List Ordering → Type 0
AllAbove [] = Unit
AllAbove (order ∷ orders) = (order ≡ Ordering.gt) × AllAbove orders

abbrev pub Ascends : List Ordering → Type 0
Ascends [] = Unit
Ascends (Ordering.lt ∷ orders) = Ascends orders
Ascends (Ordering.eq ∷ orders) = AllAbove orders
Ascends (Ordering.gt ∷ orders) = AllAbove orders

-- How many bounds are not above the value.
unfoldable pub not_above : List Ordering → ℕ
not_above [] = 0
not_above (order ∷ orders) = (if is_gt order then 0 else 1) + not_above orders

AllAbove-0 : (orders : List Ordering) → AllAbove orders → not_above orders ≡ 0
unfolding not_above
AllAbove-0 [] all = refl
AllAbove-0 (order ∷ orders) all = rw (all.0) (omega (arith, AllAbove-0 orders all.1))

not_above-length : (orders : List Ordering) → not_above orders ≤ length orders
unfolding not_above
not_above-length [] = omega arith
not_above-length (order ∷ orders) = ground (arith, not_above-length orders)

search_bound-not_above :
    {A : Type 0} (cmp : A → Run Ordering) (bounds : List A) (orders : List Ordering)
    → Compares cmp bounds orders
    → Ascends orders
    → (below : ℕ) × (exact : Bool) × (search_bound cmp bounds ≡ ok (below, exact))
      × (below + (if exact then 1 else 0) ≡ not_above orders)
unfolding search_bound not_above
search_bound-not_above cmp [] [] seen up = (0, false, refl, refl)
search_bound-not_above cmp [] (order ∷ orders) seen up = absurd seen
search_bound-not_above cmp (bound ∷ bounds) [] seen up = absurd seen
search_bound-not_above cmp (bound ∷ bounds) (Ordering.lt ∷ orders) seen up =
    let rest = search_bound-not_above cmp bounds orders seen.1 up in
    (suc rest.0, rest.1, rw (seen.0, rest.2) refl, omega (arith, rest.3))
search_bound-not_above cmp (bound ∷ bounds) (Ordering.eq ∷ orders) seen up =
    (0, true, rw (seen.0) refl, omega (arith, AllAbove-0 orders up))
search_bound-not_above cmp (bound ∷ bounds) (Ordering.gt ∷ orders) seen up =
    (0, false, rw (seen.0) refl, omega (arith, AllAbove-0 orders up))

-- The last bound that is not above the value.
abbrev pub last_not_above : Bool → List Ordering → Run ℕ
last_not_above overflow_checks orders =
    if not_above orders == 0
    then (if overflow_checks then panic else ok 65535)
    else ok (not_above orders - 1)

range_id-last_not_above :
    {A : Type 0} (overflow_checks : Bool) (cmp : A → Run Ordering) (bounds : List A)
    (orders : List Ordering)
    → Compares cmp bounds orders
    → Ascends orders
    → length orders < 65536
    → range_id overflow_checks cmp bounds ≡ last_not_above overflow_checks orders
unfolding range_id
range_id-last_not_above overflow_checks cmp bounds orders seen up few =
    let found = search_bound-not_above cmp bounds orders seen up in
    ground (arith, found.2, found.3, not_above-length orders)

module _ (floats : Floats) (mmap : List ℕ) (at : ℕ) where
  open floats use {f32_from_bits, f32_partial_cmp, from_bits, partial_cmp}

  -- How the bounds of the ranges of a facet compare to the value of a document.
  abbrev pub Compared : Ranges floats → List Ordering → Type 0
  Compared (Ranges.u8 bounds) orders =
      (v : ℕ) × (load mmap at ≡ ok v) × Compares (λ bound. ok (compare bound v)) bounds orders
  Compared (Ranges.u16 bounds) orders =
      (v : ℕ) × (read_u16 mmap at ≡ ok v) × Compares (λ bound. ok (compare bound v)) bounds orders
  Compared (Ranges.u32 bounds) orders =
      (v : ℕ) × (read_u32 mmap at ≡ ok v) × Compares (λ bound. ok (compare bound v)) bounds orders
  Compared (Ranges.u64 bounds) orders =
      (v : ℕ) × (read_u64 mmap at ≡ ok v) × Compares (λ bound. ok (compare bound v)) bounds orders
  Compared (Ranges.i8 bounds) orders =
      (v : ℤ) × (read_i8 mmap at ≡ ok v) × Compares (λ bound. ok (compare_ℤ bound v)) bounds orders
  Compared (Ranges.i16 bounds) orders =
      (v : ℤ) × (read_i16 mmap at ≡ ok v) × Compares (λ bound. ok (compare_ℤ bound v)) bounds orders
  Compared (Ranges.i32 bounds) orders =
      (v : ℤ) × (read_i32 mmap at ≡ ok v) × Compares (λ bound. ok (compare_ℤ bound v)) bounds orders
  Compared (Ranges.i64 bounds) orders =
      (v : ℤ) × (read_i64 mmap at ≡ ok v) × Compares (λ bound. ok (compare_ℤ bound v)) bounds orders
  Compared (Ranges.timestamp bounds) orders =
      (v : ℤ) × (read_i64 mmap at ≡ ok v) × Compares (λ bound. ok (compare_ℤ bound v)) bounds orders
  Compared (Ranges.f32 bounds) orders =
      (v : floats.F32) × (read_f32 f32_from_bits mmap at ≡ ok v)
      × Compares (λ bound. unwrap (f32_partial_cmp bound v)) bounds orders
  Compared (Ranges.f64 bounds) orders =
      (v : floats.F64) × (read_f64 from_bits mmap at ≡ ok v)
      × Compares (λ bound. unwrap (partial_cmp bound v)) bounds orders
  Compared (Ranges.point bounds base unit) orders =
      (code : ℕ) × (read_u64 mmap at ≡ ok code)
      × Compares
          (λ bound. unwrap (
            partial_cmp bound
              (euclidian_distance floats base (decode_morton_2_d floats code) unit)))
          bounds orders
  Compared Ranges.no_ranges orders = ⊥

  -- Where a facet has ranges of any type, the value of a document is read and compares to each of their
  -- lower bounds, the bounds ascend strictly as they compare to it, and there are fewer than 65536:
  -- the document is counted in the last range whose bound is not above the value. Where all bounds
  -- are above it, a build with overflow checks panics, and one without counts the document under
  -- the id 65535.
  pub facet_value_id-last_not_above :
      (overflow_checks : Bool) (ranges : Ranges floats) (orders : List Ordering)
      → Compared ranges orders
      → Ascends orders
      → length orders < 65536
      → facet_value_id floats overflow_checks ranges mmap at ≡ last_not_above overflow_checks orders
  unfolding facet_value_id
  facet_value_id-last_not_above overflow_checks (Ranges.u8 bounds) orders seen up few =
      rw (seen.1) (range_id-last_not_above overflow_checks _ bounds orders seen.2 up few)
  facet_value_id-last_not_above overflow_checks (Ranges.u16 bounds) orders seen up few =
      rw (seen.1) (range_id-last_not_above overflow_checks _ bounds orders seen.2 up few)
  facet_value_id-last_not_above overflow_checks (Ranges.u32 bounds) orders seen up few =
      rw (seen.1) (range_id-last_not_above overflow_checks _ bounds orders seen.2 up few)
  facet_value_id-last_not_above overflow_checks (Ranges.u64 bounds) orders seen up few =
      rw (seen.1) (range_id-last_not_above overflow_checks _ bounds orders seen.2 up few)
  facet_value_id-last_not_above overflow_checks (Ranges.i8 bounds) orders seen up few =
      rw (seen.1) (range_id-last_not_above overflow_checks _ bounds orders seen.2 up few)
  facet_value_id-last_not_above overflow_checks (Ranges.i16 bounds) orders seen up few =
      rw (seen.1) (range_id-last_not_above overflow_checks _ bounds orders seen.2 up few)
  facet_value_id-last_not_above overflow_checks (Ranges.i32 bounds) orders seen up few =
      rw (seen.1) (range_id-last_not_above overflow_checks _ bounds orders seen.2 up few)
  facet_value_id-last_not_above overflow_checks (Ranges.i64 bounds) orders seen up few =
      rw (seen.1) (range_id-last_not_above overflow_checks _ bounds orders seen.2 up few)
  facet_value_id-last_not_above overflow_checks (Ranges.timestamp bounds) orders seen up few =
      rw (seen.1) (range_id-last_not_above overflow_checks _ bounds orders seen.2 up few)
  facet_value_id-last_not_above overflow_checks (Ranges.f32 bounds) orders seen up few =
      rw (seen.1) (range_id-last_not_above overflow_checks _ bounds orders seen.2 up few)
  facet_value_id-last_not_above overflow_checks (Ranges.f64 bounds) orders seen up few =
      rw (seen.1) (range_id-last_not_above overflow_checks _ bounds orders seen.2 up few)
  facet_value_id-last_not_above overflow_checks (Ranges.point bounds base unit) orders seen up few =
      rw (seen.1) (range_id-last_not_above overflow_checks _ bounds orders seen.2 up few)
  facet_value_id-last_not_above overflow_checks Ranges.no_ranges orders seen up few = absurd seen

-- The count of a value.
unfoldable pub count_of : List (ℕ × ℕ) → ℕ → ℕ
count_of [] k = 0
count_of ((key, n) ∷ values) k = if key == k then n else count_of values k

count_of-increment :
    (values : List (ℕ × ℕ)) (id k : ℕ)
    → count_of (increment values id) k ≡ (if id == k then 1 else 0) + count_of values k
unfolding count_of increment
count_of-increment [] id k = ground arith
count_of-increment ((key, n) ∷ values) id k = ground (arith, count_of-increment values id k)

module _ (floats : Floats) (overflow_checks : Bool) (index : FacetIndex) (docid : ℕ) where
  -- The ids of the document in the facets that are counted.
  abbrev pub HasIds : List FacetField → List (ResultFacet floats) → Type 0
  HasIds [] query_facets = Unit
  HasIds (facet ∷ facets) [] = ⊥
  HasIds (facet ∷ facets) (query_facet ∷ query_facets) =
      ((id : ℕ) × (facet_value_id floats overflow_checks query_facet.ranges index.facets_file_mmap
            (position index facet docid)
          ≡ ok id))
      × HasIds facets query_facets

  -- What counting the document does: the count of its id grows by one in each counted facet, and
  -- nothing else changes.
  abbrev pub Counted :
      (facets : List FacetField) (before : List (ResultFacet floats))
      → HasIds facets before
      → List (ResultFacet floats)
      → Type 0
  Counted [] before ids after = after ≡ before
  Counted (facet ∷ facets) [] ids after = ⊥
  Counted (facet ∷ facets) (query_facet ∷ query_facets) ids [] = ⊥
  Counted (facet ∷ facets) (query_facet ∷ query_facets) ids (counted ∷ after) =
      (counted.length ≡ query_facet.length)
      × (counted.ranges ≡ query_facet.ranges)
      × ((k : ℕ)
          → count_of counted.values k
            ≡ (if query_facet.length == 0 then 0 else if ids.0.0 == k then 1 else 0)
              + count_of query_facet.values k)
      × Counted facets query_facets ids.1 after

  count_loop-Counted :
      (facets : List FacetField) (query_facets : List (ResultFacet floats))
      (ids : HasIds facets query_facets)
      → (after : List (ResultFacet floats)) × (count_loop floats overflow_checks index facets
            query_facets docid
          ≡ ok after)
        × Counted facets query_facets ids after
  unfolding count_loop
  count_loop-Counted [] query_facets ids = (query_facets, refl, refl)
  count_loop-Counted (facet ∷ facets) [] ids = absurd ids
  count_loop-Counted (facet ∷ facets) (query_facet ∷ query_facets) ids =
      let rest = count_loop-Counted facets query_facets ids.1 in
      elim (Bool-cases (query_facet.length == 0)) [
        | inl skip ↦ (
          query_facet ∷ rest.0,
          ground (arith, skip, rest.1),
          (refl, refl, λ k. ground (arith, skip), rest.2),
        )
        | inr count ↦ (
          record query_facet { values = increment query_facet.values ids.0.0 } ∷ rest.0,
          ground (arith, count, ids.0.1, rest.1),
          (
            refl,
            refl,
            λ k. ground (arith, count, count_of-increment query_facet.values ids.0.0 k),
            rest.2,
          ),
        )
      ]

  -- Where the id of the document can be found in each facet of a search that counts facets,
  -- facet_count returns, the count of that id grows by one in each facet whose length is not zero,
  -- all other counts stay, and so do the lengths and the ranges.
  pub facet_count-Counted :
      (query_facet : ResultFacet floats) (query_facets : List (ResultFacet floats))
      (ids : HasIds index.facets (query_facet ∷ query_facets))
      → (after : List (ResultFacet floats)) × (facet_count floats overflow_checks index
            (query_facet ∷ query_facets)
            false
            docid
          ≡ ok after)
        × Counted index.facets (query_facet ∷ query_facets) ids after
  unfolding facet_count
  facet_count-Counted query_facet query_facets ids =
      count_loop-Counted index.facets (query_facet ∷ query_facets) ids
