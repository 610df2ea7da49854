-- ===== src/Filters/Tests.antt =====
-- A document with a facet value of one byte and one of two bytes, filtered and counted.
use seek_storm.Base.{
  ℕ, ◌+◌, ◌-◌, List, [], ◌∷◌, Bool, true, false, none, ok, panic, ◌≡◌, ◌↔◌, refl, arith, Ordering,
  compare,
}
use seek_storm.Base.Int.{pos, negsuc}
use seek_storm.Floats.{Floats}
use seek_storm.Facets.{FieldType, FacetIndex}
use seek_storm.Filters.{FilterSparse, is_facet_filter, filter_loop, rejects, contains}
use seek_storm.Filters.Count.{Ranges, ResultFacet, range_id, facet_count}
use seek_storm.Filters.Counts.{
  not_above, facet_value_id-last_not_above, HasIds, Counted, facet_count-Counted,
}
use seek_storm.Filters.Laws.{AllRead, AllAdmit, is_facet_filter_iff}
use seek_storm.Filters.Count.{facet_value_id, search_bound}
use seek_storm.Utils.{read_u16, read_i8, read_le, read_slice, to_array, from_le_bytes}

-- No float is read by these facets.
abbrev no_floats : Floats
no_floats = record {
  F32 = ℕ;
  f32_from_bits = λ n. n;
  f32_partial_cmp = λ x y. none;
  F64 = ℕ;
  from_bits = λ n. n;
  partial_cmp = λ x y. none;
  of_i32 = λ z. 0;
  to_i32 = λ x. pos x;
  add = ◌+◌;
  sub = ◌-◌;
  mul = ◌+◌;
  div = ◌-◌;
  cos = λ x. x;
  sqrt = λ x. x;
  two = 2;
  ten_million = 10_000_000;
  earth_radius_km = 6371;
  earth_radius_mi = 3958;
  deg2rad = 1;
}

abbrev an_index : FacetIndex
an_index = record {
  facets =
      record { field_type = FieldType.u8; offset = 0; values = [] }
      ∷ record { field_type = FieldType.string; offset = 1; values = [] }
      ∷ [];
  facets_size_sum = 3;
  facets_file_mmap = 7 ∷ 1 ∷ 0 ∷ 40 ∷ 0 ∷ 1 ∷ [];
}

abbrev two_filters : List (FilterSparse no_floats)
two_filters = FilterSparse.u8 20 50 ∷ FilterSparse.string (3 ∷ 256 ∷ []) ∷ []

the_values : AllRead no_floats an_index an_index.facets two_filters 1
unfolding read_u16 read_le read_slice to_array from_le_bytes
the_values = ((40, refl), ((256, refl), tt))

is_facet_filter_iff_example :
    (b : Bool) × (is_facet_filter no_floats an_index two_filters 1 ≡ ok b)
    × ((b ≡ false) ↔ AllAdmit no_floats an_index an_index.facets two_filters 1 the_values)
is_facet_filter_iff_example = is_facet_filter_iff no_floats an_index two_filters 1 the_values

is_facet_filter_keeps : is_facet_filter no_floats an_index two_filters 1 ≡ ok false
unfolding is_facet_filter filter_loop rejects contains read_u16 read_le read_slice to_array
    from_le_bytes
is_facet_filter_keeps = refl

is_facet_filter_drops : is_facet_filter no_floats an_index two_filters 0 ≡ ok true
unfolding is_facet_filter filter_loop rejects contains read_u16 read_le read_slice to_array
    from_le_bytes
is_facet_filter_drops = refl

-- Two below the value, one that equals it, one above.
abbrev four_orders : List Ordering
four_orders = Ordering.lt ∷ Ordering.lt ∷ Ordering.eq ∷ Ordering.gt ∷ []

facet_value_id-last_not_above_example :
    facet_value_id no_floats false
      (Ranges.i8 (negsuc 8 ∷ negsuc 1 ∷ pos 7 ∷ pos 9 ∷ []))
      an_index.facets_file_mmap
      0
    ≡ ok 2
unfolding read_i8 read_le read_slice to_array from_le_bytes not_above
facet_value_id-last_not_above_example =
    facet_value_id-last_not_above no_floats an_index.facets_file_mmap 0 false
      (Ranges.i8 (negsuc 8 ∷ negsuc 1 ∷ pos 7 ∷ pos 9 ∷ [])) four_orders
      (pos 7, refl, (refl, (refl, (refl, (refl, tt))))) (refl, tt) (omega arith)

-- A value below the first range, with and without overflow checks.
range_id_below :
    (range_id true (λ bound. ok (compare bound 7)) (20 ∷ 40 ∷ []) ≡ panic)
    × (range_id false (λ bound. ok (compare bound 7)) (20 ∷ 40 ∷ []) ≡ ok 65535)
unfolding range_id search_bound
range_id_below = (refl, refl)

abbrev two_counts : List (ResultFacet no_floats)
two_counts =
    record { values = (1, 4) ∷ []; length = 10; ranges = Ranges.u8 (20 ∷ 40 ∷ 60 ∷ []) }
    ∷ record { values = []; length = 10; ranges = Ranges.no_ranges }
    ∷ []

the_ids : HasIds no_floats true an_index 1 an_index.facets two_counts
unfolding facet_value_id range_id search_bound read_u16 read_le read_slice to_array from_le_bytes
the_ids = ((1, refl), ((256, refl), tt))

facet_count-Counted_example :
    (after : List (ResultFacet no_floats)) × (facet_count no_floats true an_index two_counts false 1
      ≡ ok after)
    × Counted no_floats true an_index 1 an_index.facets two_counts the_ids after
facet_count-Counted_example =
    facet_count-Counted no_floats true an_index 1
      (record { values = (1, 4) ∷ []; length = 10; ranges = Ranges.u8 (20 ∷ 40 ∷ 60 ∷ []) })
      (record { values = []; length = 10; ranges = Ranges.no_ranges } ∷ []) the_ids
