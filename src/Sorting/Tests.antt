-- ===== src/Sorting/Tests.antt =====
-- Concrete floats, a concrete facet file, and runs of the heap with the ordering of the source.
use mathlib.Core.List.{not-mem-nil}
use mathlib.Core.List.Perm
use mathlib.Core.Option.{some-injective}
use seek_storm.Base.{
  ℕ, ◌≡◌, refl, compare, List, [], ◌∷◌, Option, some, none, Ordering, ok, Returns, ◌⊎◌, true, false,
  arith, zero, suc, ◌<◌, ◌∙◌,
}
use seek_storm.Base.Int.{pos}
use seek_storm.Base.Order.{is_gt, reversed, FloatOrder, compare-IsPreorder, pullback-IsPreorder}
use seek_storm.Base.Array.{at}
use seek_storm.Floats.{Floats, Numbers}
use seek_storm.Geo.{descending, ascending}
use seek_storm.Facets.{FieldType, FacetIndex, ResultSortIndex, other_value}
use seek_storm.MinHeap.{Result, MinHeap, new, add_topk, get, get_parent_index}
use seek_storm.MinHeap.Order.{ResultOrder, le}
use seek_storm.MinHeap.Insert.{IsValid}
use seek_storm.MinHeap.TopK.{HoldsTopK, Reported, add_each, add_each-best, add_topk-HoldsTopK}
use seek_storm.MinHeap.Known.{Tracks, Changed, add_topk-Changed}
use seek_storm.Sorting.{result_ordering, field_ordering, typed_ordering, u8_ordering, u16_ordering}
use seek_storm.Sorting.Keys.{key, typed_key, compare_key, unsigned}
use seek_storm.Utils.{read_u16, read_le, read_slice, to_array, from_le_bytes}
use seek_storm.Sorting.Order.{
  Readable, compare_results, result_ordering-compare_results, result_ordering-total, result_order,
}

-- A float is a number, or `none` for NaN.
abbrev partial_cmp : Option ℕ → Option ℕ → Option Ordering
partial_cmp (some a) (some b) = some (compare a b)
partial_cmp (some a) none = none
partial_cmp none y = none

abbrev IsNumber : Option ℕ → Type 0
IsNumber none = ⊥
IsNumber (some a) = Unit

abbrev value : Option ℕ → ℕ
value none = 0
value (some a) = a

agrees :
    (x y : Option ℕ)
    → IsNumber x
    → IsNumber y
    → partial_cmp x y ≡ some (compare (value x) (value y))
agrees none y p q = absurd p
agrees (some a) none p q = absurd q
agrees (some a) (some b) p q = refl

abbrev number_order : FloatOrder partial_cmp
number_order = record {
  IsNumber = IsNumber;
  order = λ x y. compare (value x) (value y);
  preorder = pullback-IsPreorder value compare-IsPreorder;
  agrees = agrees;
}

abbrev floats : Floats
floats = record {
  F32 = Option ℕ;
  f32_from_bits = some;
  f32_partial_cmp = partial_cmp;
  F64 = Option ℕ;
  from_bits = some;
  partial_cmp = partial_cmp;
  of_i32 = λ z. none;
  to_i32 = λ x. pos (value x);
  add = λ x y. none;
  sub = λ x y. none;
  mul = λ x y. none;
  div = λ x y. none;
  cos = λ x. none;
  sqrt = λ x. none;
  two = some 2;
  ten_million = some 10_000_000;
  earth_radius_km = some 6371;
  earth_radius_mi = some 3958;
  deg2rad = none;
}

abbrev numbers : Numbers floats
numbers = record { f32_order = number_order; f64_order = number_order }

-- Three documents of three bytes: a u8 field, and a u16 field behind it.
abbrev index : FacetIndex
index = record {
  facets =
      record { field_type = FieldType.u8; offset = 0; values = [] }
      ∷ record { field_type = FieldType.u16; offset = 1; values = [] }
      ∷ [];
  facets_size_sum = 3;
  facets_file_mmap = 7 ∷ 1 ∷ 0 ∷ 7 ∷ 0 ∷ 1 ∷ 9 ∷ 5 ∷ 0 ∷ [];
}

abbrev fields : List (ResultSortIndex floats)
fields =
    record { idx = 0; order = descending; base = other_value }
    ∷ record { idx = 1; order = ascending; base = other_value }
    ∷ []

abbrev doc : ℕ → ℕ → Result (Option ℕ)
doc id score = record { doc_id = id; score = some score }

abbrev by_fields : ResultOrder (result_ordering floats index fields)
by_fields = result_order floats numbers index fields

readable_0 : (score : ℕ) → Readable floats numbers index fields (doc 0 score)
unfolding key typed_key read_u16 read_le read_slice to_array from_le_bytes
readable_0 score = ((unsigned 7, refl, tt), ((unsigned 1, refl, tt), tt))

readable_1 : (score : ℕ) → Readable floats numbers index fields (doc 1 score)
unfolding key typed_key read_u16 read_le read_slice to_array from_le_bytes
readable_1 score = ((unsigned 7, refl, tt), ((unsigned 256, refl, tt), tt))

readable_2 : (score : ℕ) → Readable floats numbers index fields (doc 2 score)
unfolding key typed_key read_u16 read_le read_slice to_array from_le_bytes
readable_2 score = ((unsigned 9, refl, tt), ((unsigned 5, refl, tt), tt))

result_ordering-compare_results_example :
    result_ordering floats index fields (doc 0 5) (doc 1 4)
    ≡ ok (compare_results floats numbers index fields (doc 0 5) (doc 1 4))
result_ordering-compare_results_example =
    result_ordering-compare_results floats numbers index fields (doc 0 5) (doc 1 4) (readable_0 5)
      (readable_1 4)

result_ordering-total_example :
    (o p q : Ordering) × (result_ordering floats index fields (doc 0 5) (doc 1 4) ≡ ok o)
    × (result_ordering floats index fields (doc 1 4) (doc 0 5) ≡ ok (reversed o))
    × (result_ordering floats index fields (doc 1 4) (doc 2 3) ≡ ok p)
    × (result_ordering floats index fields (doc 0 5) (doc 2 3) ≡ ok q)
    × ((is_gt o ≡ true) ⊎ (is_gt p ≡ true) ⊎ (is_gt q ≡ false))
result_ordering-total_example =
    result_ordering-total floats numbers index fields (doc 0 5) (doc 1 4) (doc 2 3) (readable_0 5)
      (readable_1 4) (readable_2 3)

-- A tie in the first field is decided by the second, the smaller value being better.
tie_break : result_ordering floats index fields (doc 0 5) (doc 1 4) ≡ ok Ordering.gt
unfolding result_ordering field_ordering typed_ordering u8_ordering u16_ordering read_u16 read_le
    read_slice to_array from_le_bytes
tie_break = refl

abbrev results : List (Result (Option ℕ))
results = doc 1 4 ∷ doc 0 5 ∷ doc 2 3 ∷ []

abbrev dummy : Result (Option ℕ)
dummy = doc 0 0

add_each-best_example :
    Returns
      (HoldsTopK by_fields dummy 2 results)
      (add_each (result_ordering floats index fields) (new (some 0) 2) results 2)
add_each-best_example =
    add_each-best by_fields dummy (some 0) 2 2 results (omega arith) (omega arith)
      (readable_1 4, (readable_0 5, (readable_2 3, tt)))

-- A heap of two entries, the second of which the hash set knows.
abbrev known_heap : MinHeap (Option ℕ)
known_heap = record {
  elements = doc 1 4 ∷ doc 0 5 ∷ dummy ∷ [];
  current_heap_size = 2;
  docid_hashset = (0, some 5) ∷ [];
}

in_order :
    (c : ℕ)
    → 0 < c
    → c < 2
    → le by_fields
        (at dummy known_heap.elements (get_parent_index c))
        (at dummy known_heap.elements c)
      ≡ true
unfolding at compare_results compare_key key typed_key read_u16 read_le read_slice to_array
    from_le_bytes
in_order zero p q = absurd (omega arith)
in_order (suc zero) p q = refl
in_order (suc (suc c)) p q = absurd (omega arith)

readable : (c : ℕ) → c < 2 → Readable floats numbers index fields (at dummy known_heap.elements c)
unfolding at
readable zero p = readable_1 4
readable (suc zero) p = readable_0 5
readable (suc (suc c)) p = absurd (omega arith)

known_heap-IsValid : IsValid by_fields dummy known_heap
known_heap-IsValid = record {
  used = record { room = omega arith; good = readable };
  heap = in_order;
}

the_score :
    (c : ℕ)
    → c < 2
    → (at dummy known_heap.elements c).doc_id ≡ 0
    → (at dummy known_heap.elements c).score ≡ some 5
unfolding at
the_score zero p e = absurd (omega arith)
the_score (suc zero) p e = refl
the_score (suc (suc c)) p e = absurd (omega arith)

known_heap-Tracks : Tracks by_fields dummy known_heap
unfolding get at
known_heap-Tracks zero score e = record {
  place = 1;
  in_use = omega arith;
  found = refl;
  scores = λ c p q. the_score c p q ∙ some-injective _ _ e;
}
known_heap-Tracks (suc doc) score e = absurd (ground arith)

add_topk-Changed_example :
    Returns
      (Changed by_fields dummy known_heap (doc 0 9) 2)
      (add_topk (result_ordering floats index fields) known_heap (doc 0 9) 2)
add_topk-Changed_example =
    add_topk-Changed by_fields dummy known_heap (doc 0 9) known_heap-IsValid (readable_0 9) 2
      known_heap-Tracks (omega arith) (omega arith)

-- The same two entries, as the best of what was seen, with no hash set.
abbrev full_heap : MinHeap (Option ℕ)
full_heap = record known_heap { docid_hashset = [] }

full_heap-HoldsTopK : HoldsTopK by_fields dummy 2 (doc 1 4 ∷ doc 0 5 ∷ []) full_heap
full_heap-HoldsTopK = record {
  valid = record { used = known_heap-IsValid.used; heap = known_heap-IsValid.heap };
  unknown = refl;
  room = omega arith;
  size = refl;
  dropped = [];
  split = Perm.refl _;
  best = λ x y m. absurd (not-mem-nil m);
}

add_topk-HoldsTopK_example :
    Returns
      (λ out.
        HoldsTopK by_fields dummy 2 (doc 2 3 ∷ doc 1 4 ∷ doc 0 5 ∷ []) out.0
        × Reported by_fields dummy 2
            (doc 1 4 ∷ doc 0 5 ∷ [])
            full_heap
            (doc 2 3)
            full_heap-HoldsTopK
            (readable_2 3)
            out)
      (add_topk (result_ordering floats index fields) full_heap (doc 2 3) 2)
add_topk-HoldsTopK_example =
    add_topk-HoldsTopK by_fields dummy 2 (doc 1 4 ∷ doc 0 5 ∷ []) full_heap (doc 2 3)
      full_heap-HoldsTopK (readable_2 3) (omega arith)
