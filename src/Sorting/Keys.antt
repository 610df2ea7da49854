-- ===== src/Sorting/Keys.antt =====
-- The value that a sort field has for one document, and the total order of such values: the
-- specification that `result_ordering` is held to.
use mathlib.Core.Path.{subst, ap₂}
use seek_storm.Base.{
  ℕ, ◌≡◌, refl, sym, ap, ◌∙◌, ok-injective, compare, List, [], Ordering, Run, ok, panic,
  out_of_fuel, ◌>>=◌, load,
}
use seek_storm.Base.Int.{ℤ, pos, compare_ℤ}
use seek_storm.Base.Order.{
  or_equal, compare_list, then_with, IsPreorder, compare-IsPreorder, compare_ℤ-IsPreorder,
  compare_list-IsPreorder, then_with-IsPreorder, pullback-IsPreorder, flip-IsPreorder, then_with_eq,
  compare_self,
}
use seek_storm.Floats.{Floats, Numbers}
use seek_storm.Geo.{
  SortOrder, ascending, descending, Point, simplified_distance, decode_morton_2_d, morton_ordering,
}
use seek_storm.Facets.{
  FieldType, FacetField, FacetIndex, FacetValue, point_value, other_value, ResultSortIndex,
  position, first_value,
}
use seek_storm.MinHeap.{Result}
use seek_storm.Sorting.{
  directed, typed_ordering, u8_ordering, u16_ordering, u32_ordering, u64_ordering, i8_ordering,
  i16_ordering, i32_ordering, i64_ordering, timestamp_ordering, f32_ordering, f64_ordering,
  string_ordering, string_set_ordering, point_ordering,
}
use seek_storm.Utils.{read_u16, read_u32, read_u64, read_i8, read_i16, read_i32, read_i64, read_f64}

pub directed-IsPreorder {ℓ} :
    {A : Type ℓ} {cmp : A → A → Ordering} (order : SortOrder)
    → IsPreorder cmp
    → IsPreorder (directed order cmp)
directed-IsPreorder descending p = p
directed-IsPreorder ascending p = flip-IsPreorder p

module _ (floats : Floats) where
  open floats use {F64, from_bits, two, partial_cmp, F32}

  -- `nothing` is the value of a field that does not take part.
  pub data Key : Type 0 where
    nothing : Key
    unsigned : ℕ → Key
    signed : ℤ → Key
    number : F64 → Key
    bytes : List ℕ → Key

  rank : Key → ℕ
  rank nothing = 0
  rank (unsigned _) = 1
  rank (signed _) = 2
  rank (number _) = 3
  rank (bytes _) = 4

  unsigned_part : Key → ℕ
  unsigned_part (unsigned n) = n
  unsigned_part _ = 0

  signed_part : Key → ℤ
  signed_part (signed z) = z
  signed_part _ = pos 0

  number_part : Key → F64
  number_part (number x) = x
  number_part _ = two

  bytes_part : Key → List ℕ
  bytes_part (bytes s) = s
  bytes_part _ = []

  point_key : List ℕ → ℕ → FacetValue floats → Run Key
  point_key mmap at (point_value p) = read_u64 mmap at >>= λ v.
      ok (number (simplified_distance floats (decode_morton_2_d floats v) p))
  point_key mmap at other_value = ok nothing

  -- The value of a sort field for a document; reading it may panic.
  unfoldable pub typed_key : FieldType → FacetIndex → FacetField → FacetValue floats → ℕ → Run Key
  unfolding point_key
  typed_key FieldType.u8 index facet base doc_id =
      load index.facets_file_mmap (position index facet doc_id) >>= λ v. ok (unsigned v)
  typed_key FieldType.u16 index facet base doc_id =
      read_u16 index.facets_file_mmap (position index facet doc_id) >>= λ v. ok (unsigned v)
  typed_key FieldType.u32 index facet base doc_id =
      read_u32 index.facets_file_mmap (position index facet doc_id) >>= λ v. ok (unsigned v)
  typed_key FieldType.u64 index facet base doc_id =
      read_u64 index.facets_file_mmap (position index facet doc_id) >>= λ v. ok (unsigned v)
  typed_key FieldType.i8 index facet base doc_id =
      read_i8 index.facets_file_mmap (position index facet doc_id) >>= λ v. ok (signed v)
  typed_key FieldType.i16 index facet base doc_id =
      read_i16 index.facets_file_mmap (position index facet doc_id) >>= λ v. ok (signed v)
  typed_key FieldType.i32 index facet base doc_id =
      read_i32 index.facets_file_mmap (position index facet doc_id) >>= λ v. ok (signed v)
  typed_key FieldType.i64 index facet base doc_id =
      read_i64 index.facets_file_mmap (position index facet doc_id) >>= λ v. ok (signed v)
  typed_key FieldType.timestamp index facet base doc_id =
      read_i64 index.facets_file_mmap (position index facet doc_id) >>= λ v. ok (signed v)
  typed_key FieldType.f32 index facet base doc_id = panic
  typed_key FieldType.f64 index facet base doc_id =
      read_f64 from_bits index.facets_file_mmap (position index facet doc_id) >>= λ v. ok (number v)
  typed_key FieldType.string index facet base doc_id =
      first_value index facet doc_id >>= λ v. ok (bytes v)
  typed_key FieldType.string_set index facet base doc_id =
      first_value index facet doc_id >>= λ v. ok (bytes v)
  typed_key FieldType.point index facet base doc_id =
      point_key index.facets_file_mmap (position index facet doc_id) base
  typed_key FieldType.bool index facet base doc_id = ok nothing
  typed_key FieldType.text index facet base doc_id = ok nothing

  unfoldable pub key : FacetIndex → ResultSortIndex floats → ℕ → Run Key
  key index field doc_id = do
    facet ← load index.facets field.idx
    typed_key facet.field_type index facet field.base doc_id

  module _ (numbers : Numbers floats) where
    open numbers use {f64_order}

    unfoldable pub compare_key : Key → Key → Ordering
    unfolding rank unsigned_part signed_part number_part bytes_part
    compare_key x y = then_with (compare (rank x) (rank y)) (
        then_with (compare (unsigned_part x) (unsigned_part y)) (
          then_with (compare_ℤ (signed_part x) (signed_part y)) (
            then_with (f64_order.order (number_part x) (number_part y))
              (compare_list (bytes_part x) (bytes_part y)))))

    pub compare_key-IsPreorder : IsPreorder compare_key
    unfolding compare_key
    compare_key-IsPreorder = then_with-IsPreorder (pullback-IsPreorder rank compare-IsPreorder) (
        then_with-IsPreorder (pullback-IsPreorder unsigned_part compare-IsPreorder) (
          then_with-IsPreorder (pullback-IsPreorder signed_part compare_ℤ-IsPreorder) (
            then_with-IsPreorder (pullback-IsPreorder number_part f64_order.preorder)
              (pullback-IsPreorder bytes_part compare_list-IsPreorder))))

    -- A key that is a float is a number.
    abbrev pub IsNumberKey : Key → Type 0
    IsNumberKey (number x) = f64_order.IsNumber x
    IsNumberKey nothing = Unit
    IsNumberKey (unsigned n) = Unit
    IsNumberKey (signed z) = Unit
    IsNumberKey (bytes s) = Unit

    -- An arm that reads two values and compares them compares the keys.
    arm_compares :
        {A : Type 0} (m₁ m₂ : Run A) (wrap : A → Key) (f : A → A → Ordering) (order : SortOrder)
        {k₁ k₂ : Key}
        → ((v w : A)
            → IsNumberKey (wrap v)
            → IsNumberKey (wrap w)
            → f v w ≡ directed order compare_key (wrap v) (wrap w))
        → (m₁ >>= λ v. ok (wrap v)) ≡ ok k₁
        → (m₂ >>= λ v. ok (wrap v)) ≡ ok k₂
        → IsNumberKey k₁
        → IsNumberKey k₂
        → (m₁ >>= λ v. m₂ >>= λ w. ok (f v w)) ≡ ok (directed order compare_key k₁ k₂)
    arm_compares (ok v) (ok w) wrap f order agree e₁ e₂ n₁ n₂ =
        let p = ok-injective e₁ in
        let q = ok-injective e₂ in
        ap ok (
          agree v w (subst IsNumberKey (sym p) n₁) (subst IsNumberKey (sym q) n₂)
          ∙ ap₂ (directed order compare_key) p q)
    arm_compares (ok v) panic wrap f order agree e₁ e₂ n₁ n₂ = cc
    arm_compares (ok v) out_of_fuel wrap f order agree e₁ e₂ n₁ n₂ = cc
    arm_compares panic m wrap f order agree e₁ e₂ n₁ n₂ = cc
    arm_compares out_of_fuel m wrap f order agree e₁ e₂ n₁ n₂ = cc

    directed_agrees :
        {A : Type 0} (order : SortOrder) (cmp : A → A → Ordering) (wrap : A → Key)
        → ((v w : A)
            → IsNumberKey (wrap v)
            → IsNumberKey (wrap w)
            → cmp v w ≡ compare_key (wrap v) (wrap w))
        → (v w : A) → IsNumberKey (wrap v)
        → IsNumberKey (wrap w)
        → directed order cmp v w ≡ directed order compare_key (wrap v) (wrap w)
    directed_agrees descending cmp wrap agree v w p q = agree v w p q
    directed_agrees ascending cmp wrap agree v w p q = agree w v q p

    -- On keys of one kind `compare_key` is the comparison of that kind.
    unsigned_compare : (v w : ℕ) → compare v w ≡ compare_key (unsigned v) (unsigned w)
    unfolding compare_key
    unsigned_compare v w =
        rw (compare_self f64_order.preorder two) (sym (then_with_eq (compare v w)))

    signed_compare : (v w : ℤ) → compare_ℤ v w ≡ compare_key (signed v) (signed w)
    unfolding compare_key
    signed_compare v w =
        rw (compare_self f64_order.preorder two) (sym (then_with_eq (compare_ℤ v w)))

    bytes_compare : (v w : List ℕ) → compare_list v w ≡ compare_key (bytes v) (bytes w)
    unfolding compare_key
    bytes_compare v w = rw (compare_self f64_order.preorder two)

    number_compare :
        (x y : F64)
        → f64_order.IsNumber x
        → f64_order.IsNumber y
        → or_equal (partial_cmp x y) ≡ compare_key (number x) (number y)
    unfolding compare_key
    number_compare x y p q =
        rw (f64_order.agrees x y p q) (sym (then_with_eq (f64_order.order x y)))

    nothing_compare :
        (order : SortOrder) → ok Ordering.eq ≡ ok (directed order compare_key nothing nothing)
    nothing_compare order =
        ap ok (sym (compare_self (directed-IsPreorder order compare_key-IsPreorder) nothing))

    morton_directed :
        (order : SortOrder) (base : Point floats) (v w : ℕ)
        → morton_ordering floats v w base order
          ≡ directed order
              (λ v w. or_equal (
                partial_cmp
                  (simplified_distance floats (decode_morton_2_d floats v) base)
                  (simplified_distance floats (decode_morton_2_d floats w) base)))
              v
              w
    unfolding morton_ordering
    morton_directed ascending base v w = refl
    morton_directed descending base v w = refl

    key-nothing :
        (order : SortOrder) {k₁ k₂ : Key}
        → ok nothing ≡ ok k₁
        → ok nothing ≡ ok k₂
        → ok Ordering.eq ≡ ok (directed order compare_key k₁ k₂)
    key-nothing order e₁ e₂ =
        nothing_compare order
        ∙ ap₂ (λ a b. ok (directed order compare_key a b)) (ok-injective e₁) (ok-injective e₂)

    module _ (index : FacetIndex) (facet : FacetField) (r s : Result F32) where
      abbrev mmap : List ℕ
      mmap = index.facets_file_mmap

      abbrev at : Result F32 → ℕ
      at t = position index facet t.doc_id

      unsigned_arm :
          (read : List ℕ → ℕ → Run ℕ) (order : SortOrder) {k₁ k₂ : Key}
          → (read mmap (at r) >>= λ v. ok (unsigned v)) ≡ ok k₁
          → (read mmap (at s) >>= λ v. ok (unsigned v)) ≡ ok k₂
          → IsNumberKey k₁
          → IsNumberKey k₂
          → (read mmap (at r) >>= λ v. read mmap (at s) >>= λ w. ok (directed order compare v w))
            ≡ ok (directed order compare_key k₁ k₂)
      unsigned_arm read order =
          arm_compares (read mmap (at r)) (read mmap (at s)) unsigned _ order
            (directed_agrees order compare unsigned (λ v w p q. unsigned_compare v w))

      signed_arm :
          (read : List ℕ → ℕ → Run ℤ) (order : SortOrder) {k₁ k₂ : Key}
          → (read mmap (at r) >>= λ v. ok (signed v)) ≡ ok k₁
          → (read mmap (at s) >>= λ v. ok (signed v)) ≡ ok k₂
          → IsNumberKey k₁
          → IsNumberKey k₂
          → (read mmap (at r) >>= λ v. read mmap (at s) >>= λ w. ok (directed order compare_ℤ v w))
            ≡ ok (directed order compare_key k₁ k₂)
      signed_arm read order =
          arm_compares (read mmap (at r)) (read mmap (at s)) signed _ order
            (directed_agrees order compare_ℤ signed (λ v w p q. signed_compare v w))

      bytes_arm :
          (order : SortOrder) {k₁ k₂ : Key}
          → (first_value index facet r.doc_id >>= λ v. ok (bytes v)) ≡ ok k₁
          → (first_value index facet s.doc_id >>= λ v. ok (bytes v)) ≡ ok k₂
          → IsNumberKey k₁
          → IsNumberKey k₂
          → (first_value index facet r.doc_id >>= λ v.
              first_value index facet s.doc_id >>= λ w. ok (directed order compare_list v w))
            ≡ ok (directed order compare_key k₁ k₂)
      bytes_arm order =
          arm_compares (first_value index facet r.doc_id) (first_value index facet s.doc_id) bytes _
            order (directed_agrees order compare_list bytes (λ v w p q. bytes_compare v w))

      point_arm :
          (order : SortOrder) (base : FacetValue floats) {k₁ k₂ : Key}
          → point_key mmap (at r) base ≡ ok k₁
          → point_key mmap (at s) base ≡ ok k₂
          → IsNumberKey k₁
          → IsNumberKey k₂
          → point_ordering floats index facet order r s base ≡ ok (directed order compare_key k₁ k₂)
      unfolding point_key point_ordering
      point_arm order (point_value base) e₁ e₂ n₁ n₂ =
          let distance = λ (v : ℕ). simplified_distance floats (decode_morton_2_d floats v) base in
          arm_compares (read_u64 mmap (at r)) (read_u64 mmap (at s)) (λ v. number (distance v)) _
            order
            (λ v w p q.
              morton_directed order base v w
              ∙ directed_agrees order (λ v w. or_equal (partial_cmp (distance v) (distance w)))
                  (λ v. number (distance v)) (λ v w. number_compare (distance v) (distance w)) v w p
                  q)
            e₁ e₂ n₁ n₂
      point_arm order other_value e₁ e₂ n₁ n₂ = key-nothing order e₁ e₂

      -- Where both keys are read, and no float among them fails to be a number, the match returns
      -- their comparison in the order of the sort field.
      pub typed_ordering-compare_key :
          (type : FieldType) (field : ResultSortIndex floats) {k₁ k₂ : Key}
          → typed_key type index facet field.base r.doc_id ≡ ok k₁
          → typed_key type index facet field.base s.doc_id ≡ ok k₂
          → IsNumberKey k₁
          → IsNumberKey k₂
          → typed_ordering floats type index facet field r s
            ≡ ok (directed field.order compare_key k₁ k₂)
      unfolding typed_key typed_ordering u8_ordering u16_ordering u32_ordering u64_ordering
          i8_ordering i16_ordering i32_ordering i64_ordering timestamp_ordering f32_ordering
          f64_ordering string_ordering string_set_ordering
      typed_ordering-compare_key FieldType.u8 field e₁ e₂ n₁ n₂ =
          unsigned_arm load field.order e₁ e₂ n₁ n₂
      typed_ordering-compare_key FieldType.u16 field e₁ e₂ n₁ n₂ =
          unsigned_arm read_u16 field.order e₁ e₂ n₁ n₂
      typed_ordering-compare_key FieldType.u32 field e₁ e₂ n₁ n₂ =
          unsigned_arm read_u32 field.order e₁ e₂ n₁ n₂
      typed_ordering-compare_key FieldType.u64 field e₁ e₂ n₁ n₂ =
          unsigned_arm read_u64 field.order e₁ e₂ n₁ n₂
      typed_ordering-compare_key FieldType.i8 field e₁ e₂ n₁ n₂ =
          signed_arm read_i8 field.order e₁ e₂ n₁ n₂
      typed_ordering-compare_key FieldType.i16 field e₁ e₂ n₁ n₂ =
          signed_arm read_i16 field.order e₁ e₂ n₁ n₂
      typed_ordering-compare_key FieldType.i32 field e₁ e₂ n₁ n₂ =
          signed_arm read_i32 field.order e₁ e₂ n₁ n₂
      typed_ordering-compare_key FieldType.i64 field e₁ e₂ n₁ n₂ =
          signed_arm read_i64 field.order e₁ e₂ n₁ n₂
      typed_ordering-compare_key FieldType.timestamp field e₁ e₂ n₁ n₂ =
          signed_arm read_i64 field.order e₁ e₂ n₁ n₂
      typed_ordering-compare_key FieldType.f32 field e₁ e₂ n₁ n₂ = cc
      typed_ordering-compare_key FieldType.f64 field e₁ e₂ n₁ n₂ =
          arm_compares (read_f64 from_bits mmap (at r)) (read_f64 from_bits mmap (at s)) number _
            field.order
            (directed_agrees field.order (λ v w. or_equal (partial_cmp v w)) number number_compare)
            e₁ e₂ n₁ n₂
      typed_ordering-compare_key FieldType.string field e₁ e₂ n₁ n₂ =
          bytes_arm field.order e₁ e₂ n₁ n₂
      typed_ordering-compare_key FieldType.string_set field e₁ e₂ n₁ n₂ =
          bytes_arm field.order e₁ e₂ n₁ n₂
      typed_ordering-compare_key FieldType.point field e₁ e₂ n₁ n₂ =
          point_arm field.order field.base e₁ e₂ n₁ n₂
      typed_ordering-compare_key FieldType.bool field e₁ e₂ n₁ n₂ = key-nothing field.order e₁ e₂
      typed_ordering-compare_key FieldType.text field e₁ e₂ n₁ n₂ = key-nothing field.order e₁ e₂
