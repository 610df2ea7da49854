-- ===== src/Sorting/Order.antt =====
-- `result_ordering` against its specification: the lexicographic order of the sort keys, then the
-- score. It fills the interface that the heap asks for.
use seek_storm.Base.{
  ◌≡◌, refl, ap, ◌∙◌, ◌⊎◌, true, false, List, [], ◌∷◌, Ordering, Run, ok, panic, out_of_fuel, ◌>>=◌,
  load, arith,
}
use seek_storm.Base.Order.{
  then_with, reversed, is_gt, is_lt, IsPreorder, then_with-IsPreorder, pullback-IsPreorder,
}
use seek_storm.Floats.{Floats, Numbers}
use seek_storm.Facets.{FacetIndex, FacetField, ResultSortIndex}
use seek_storm.MinHeap.{Result}
use seek_storm.MinHeap.Order.{ResultOrder}
use seek_storm.Sorting.{directed, typed_ordering, field_ordering, unless_equal, result_ordering}
use seek_storm.Sorting.Keys.{
  Key, nothing, key, typed_key, compare_key, compare_key-IsPreorder, IsNumberKey,
  directed-IsPreorder, typed_ordering-compare_key,
}

module _ (floats : Floats) (numbers : Numbers floats) (index : FacetIndex) where
  open floats use {F32, f32_partial_cmp}
  open numbers use {f32_order, f64_order}

  -- The key that was read, or `nothing` where the read panics.
  abbrev key_of : Run (Key floats) → Key floats
  key_of (ok k) = k
  key_of panic = nothing
  key_of out_of_fuel = nothing

  -- The specification: field by field, then by score.
  unfoldable pub compare_results :
      List (ResultSortIndex floats) → Result F32 → Result F32 → Ordering
  compare_results [] r s = f32_order.order r.score s.score
  compare_results (field ∷ fields) r s =
      then_with
        (directed field.order (compare_key floats numbers)
          (key_of (key floats index field r.doc_id)) (key_of (key floats index field s.doc_id)))
        (compare_results fields r s)

  -- Every sort field of the document can be read, and no float of it is NaN.
  abbrev pub Readable : List (ResultSortIndex floats) → Result F32 → Type 0
  Readable [] r = f32_order.IsNumber r.score
  Readable (field ∷ fields) r =
      ((k : Key floats) × (key floats index field r.doc_id ≡ ok k) × IsNumberKey floats numbers k)
      × Readable fields r

  pub compare_results-IsPreorder :
      (fields : List (ResultSortIndex floats)) → IsPreorder (compare_results fields)
  unfolding compare_results
  compare_results-IsPreorder [] =
      pullback-IsPreorder (λ (r : Result F32). r.score) f32_order.preorder
  compare_results-IsPreorder (field ∷ fields) =
      then_with-IsPreorder
        (pullback-IsPreorder (λ (r : Result F32). key_of (key floats index field r.doc_id))
          (directed-IsPreorder field.order (compare_key-IsPreorder floats numbers)))
        (compare_results-IsPreorder fields)

  field_ordering-compare_key :
      (field : ResultSortIndex floats) (r s : Result F32) {k₁ k₂ : Key floats}
      → key floats index field r.doc_id ≡ ok k₁
      → key floats index field s.doc_id ≡ ok k₂
      → IsNumberKey floats numbers k₁
      → IsNumberKey floats numbers k₂
      → field_ordering floats index field r s
        ≡ ok (directed field.order (compare_key floats numbers) k₁ k₂)
  unfolding field_ordering key
  field_ordering-compare_key field r s = on_facet (load index.facets field.idx)
    where
      on_facet :
          (m : Run FacetField) {k₁ k₂ : Key floats}
          → (m >>= λ facet. typed_key floats facet.field_type index facet field.base r.doc_id)
            ≡ ok k₁
          → (m >>= λ facet. typed_key floats facet.field_type index facet field.base s.doc_id)
            ≡ ok k₂
          → IsNumberKey floats numbers k₁
          → IsNumberKey floats numbers k₂
          → (m >>= λ facet. typed_ordering floats facet.field_type index facet field r s)
            ≡ ok (directed field.order (compare_key floats numbers) k₁ k₂)
      on_facet (ok facet) e₁ e₂ n₁ n₂ =
          typed_ordering-compare_key floats numbers index facet r s facet.field_type field e₁ e₂ n₁
            n₂
      on_facet panic e₁ e₂ n₁ n₂ = cc
      on_facet out_of_fuel e₁ e₂ n₁ n₂ = cc

  unless_equal-then_with :
      (o p : Ordering) (rest : Run Ordering)
      → rest ≡ ok p
      → unless_equal floats o rest ≡ ok (then_with o p)
  unless_equal-then_with Ordering.lt p rest e = refl
  unless_equal-then_with Ordering.eq p rest e = e
  unless_equal-then_with Ordering.gt p rest e = refl

  -- On two results whose sort fields can be read and are numbers where they are floats,
  -- `result_ordering` does not panic, and returns the lexicographic comparison of their keys in the
  -- orders of the sort fields, the scores deciding a tie of all fields.
  pub result_ordering-compare_results :
      (fields : List (ResultSortIndex floats)) (r s : Result F32)
      → Readable fields r
      → Readable fields s
      → result_ordering floats index fields r s ≡ ok (compare_results fields r s)
  unfolding result_ordering compare_results
  result_ordering-compare_results [] r s p q = rw (f32_order.agrees r.score s.score p q)
  result_ordering-compare_results (field ∷ fields) r s ((k₁, e₁, n₁), p) ((k₂, e₂, n₂), q) =
      rw (field_ordering-compare_key field r s e₁ e₂ n₁ n₂, e₁, e₂)
        (unless_equal-then_with _ _ _ (result_ordering-compare_results fields r s p q))

  -- On three such results `result_ordering` is a total preorder: swapping its arguments reverses it,
  -- and if the first is not above the second, nor the second above the third, then the first is not
  -- above the third.
  pub result_ordering-total :
      (fields : List (ResultSortIndex floats)) (r s t : Result F32)
      → Readable fields r
      → Readable fields s
      → Readable fields t
      → (o p q : Ordering) × (result_ordering floats index fields r s ≡ ok o)
        × (result_ordering floats index fields s r ≡ ok (reversed o))
        × (result_ordering floats index fields s t ≡ ok p)
        × (result_ordering floats index fields r t ≡ ok q)
        × ((is_gt o ≡ true) ⊎ (is_gt p ≡ true) ⊎ (is_gt q ≡ false))
  result_ordering-total fields r s t gr gs gt = (
    compare_results fields r s,
    compare_results fields s t,
    compare_results fields r t,
    result_ordering-compare_results fields r s gr gs,
    result_ordering-compare_results fields s r gs gr ∙ ap ok (total.swapped r s),
    result_ordering-compare_results fields s t gs gt,
    result_ordering-compare_results fields r t gr gt,
    ground (arith, total.trans r s t),
  )
    where
      total : IsPreorder (compare_results fields)
      total = compare_results-IsPreorder fields

  pub compare_results-swapped :
      (fields : List (ResultSortIndex floats)) (r s : Result F32)
      → is_gt (compare_results fields r s) ≡ is_lt (compare_results fields s r)
  compare_results-swapped fields r s =
      ground (arith, (compare_results-IsPreorder fields).swapped r s)

  -- The interface of the heap.
  abbrev pub result_order :
      (fields : List (ResultSortIndex floats)) → ResultOrder (result_ordering floats index fields)
  result_order fields = record {
    Good = Readable fields;
    cmp = compare_results fields;
    returns_cmp = result_ordering-compare_results fields;
    swapped = compare_results-swapped fields;
    trans = (compare_results-IsPreorder fields).trans;
  }
