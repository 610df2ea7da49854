-- ===== src/Base/Order.antt =====
-- Comparison functions that are total preorders, and how they combine.
use Prim.Native.Nat.{ℕ, compare, Ordering}
use mathlib.Core.Path.{◌≡◌, refl}
use mathlib.Core.Bool.{Bool, true, false}
use mathlib.Core.List.{List, [], ◌∷◌}
use mathlib.Core.Option.{Option, none, some}
use native.Mathlib.Omega.{arith}
use seek_storm.Base.Int.{ℤ, pos, negsuc, compare_ℤ}

-- `Ordering::reverse`, `is_lt`, `is_ge` and `is_gt`.
abbrev pub reversed : Ordering → Ordering
reversed Ordering.lt = Ordering.gt
reversed Ordering.eq = Ordering.eq
reversed Ordering.gt = Ordering.lt

abbrev pub is_lt : Ordering → Bool
is_lt Ordering.lt = true
is_lt Ordering.eq = false
is_lt Ordering.gt = false

abbrev pub is_ge : Ordering → Bool
is_ge Ordering.lt = false
is_ge Ordering.eq = true
is_ge Ordering.gt = true

abbrev pub is_gt : Ordering → Bool
is_gt Ordering.lt = false
is_gt Ordering.eq = false
is_gt Ordering.gt = true

-- The first comparison decides, unless it is a tie.
abbrev pub then_with : Ordering → Ordering → Ordering
then_with Ordering.lt o = Ordering.lt
then_with Ordering.eq o = o
then_with Ordering.gt o = Ordering.gt

pub record IsPreorder {ℓ} {A : Type ℓ} (cmp : A → A → Ordering) : Type ℓ where
  pub swapped : (x y : A) → cmp y x ≡ reversed (cmp x y)
  pub trans :
      (x y z : A) → is_gt (cmp x y) ≡ false → is_gt (cmp y z) ≡ false → is_gt (cmp x z) ≡ false

pub compare-IsPreorder : IsPreorder compare
compare-IsPreorder = record { swapped = λ x y. ground arith; trans = λ x y z p q. ground arith }

compare_ℤ_trans :
    (x y z : ℤ)
    → is_gt (compare_ℤ x y) ≡ false
    → is_gt (compare_ℤ y z) ≡ false
    → is_gt (compare_ℤ x z) ≡ false
compare_ℤ_trans (pos a) (pos b) (pos c) p q = ground arith
compare_ℤ_trans (negsuc a) (negsuc b) (negsuc c) p q = ground arith
compare_ℤ_trans (pos a) (pos b) (negsuc c) p q = cc
compare_ℤ_trans (pos a) (negsuc b) z p q = cc
compare_ℤ_trans (negsuc a) (pos b) (pos c) p q = refl
compare_ℤ_trans (negsuc a) (pos b) (negsuc c) p q = cc
compare_ℤ_trans (negsuc a) (negsuc b) (pos c) p q = refl

compare_ℤ-swapped : (x y : ℤ) → compare_ℤ y x ≡ reversed (compare_ℤ x y)
compare_ℤ-swapped (pos a) (pos b) = ground arith
compare_ℤ-swapped (pos a) (negsuc b) = refl
compare_ℤ-swapped (negsuc a) (pos b) = refl
compare_ℤ-swapped (negsuc a) (negsuc b) = ground arith

pub compare_ℤ-IsPreorder : IsPreorder compare_ℤ
compare_ℤ-IsPreorder = record { swapped = compare_ℤ-swapped; trans = compare_ℤ_trans }

-- Two comparisons, the second for the ties of the first.
pub then_with-IsPreorder {ℓ} :
    {A : Type ℓ} {f g : A → A → Ordering}
    → IsPreorder f
    → IsPreorder g
    → IsPreorder (λ x y. then_with (f x y) (g x y))
then_with-IsPreorder {f = f} {g = g} p q = record {
  swapped = λ x y. ground (arith, p.swapped x y, q.swapped x y);
  trans = λ x y z a b. ground (
    arith,
    p.trans x y z,
    p.trans y z x,
    p.trans z x y,
    p.swapped x y,
    p.swapped y z,
    p.swapped x z,
    q.trans x y z,
  );
}

pub pullback-IsPreorder {ℓ κ} :
    {A : Type ℓ} {B : Type κ} {cmp : B → B → Ordering} (f : A → B)
    → IsPreorder cmp
    → IsPreorder (λ x y. cmp (f x) (f y))
pullback-IsPreorder f p = record {
  swapped = λ x y. p.swapped (f x) (f y);
  trans = λ x y z. p.trans (f x) (f y) (f z);
}

pub flip-IsPreorder {ℓ} :
    {A : Type ℓ} {cmp : A → A → Ordering} → IsPreorder cmp → IsPreorder (λ x y. cmp y x)
flip-IsPreorder p = record {
  swapped = λ x y. p.swapped y x;
  trans = λ x y z a b. p.trans z y x b a;
}

-- `cmp` on byte strings and the like: lexicographic, a prefix being less.
abbrev pub compare_list : List ℕ → List ℕ → Ordering
compare_list [] [] = Ordering.eq
compare_list [] (y ∷ ys) = Ordering.lt
compare_list (x ∷ xs) [] = Ordering.gt
compare_list (x ∷ xs) (y ∷ ys) = then_with (compare x y) (compare_list xs ys)

compare_list-swapped : (x y : List ℕ) → compare_list y x ≡ reversed (compare_list x y)
compare_list-swapped [] [] = refl
compare_list-swapped [] (y ∷ ys) = refl
compare_list-swapped (x ∷ xs) [] = refl
compare_list-swapped (x ∷ xs) (y ∷ ys) = ground (arith, compare_list-swapped xs ys)

compare_list_trans :
    (x y z : List ℕ)
    → is_gt (compare_list x y) ≡ false
    → is_gt (compare_list y z) ≡ false
    → is_gt (compare_list x z) ≡ false
compare_list_trans [] y [] p q = refl
compare_list_trans [] y (z ∷ zs) p q = refl
compare_list_trans (x ∷ xs) [] z p q = cc
compare_list_trans (x ∷ xs) (y ∷ ys) [] p q = cc
compare_list_trans (x ∷ xs) (y ∷ ys) (z ∷ zs) p q = ground (arith, compare_list_trans xs ys zs)

pub compare_list-IsPreorder : IsPreorder compare_list
compare_list-IsPreorder = record { swapped = compare_list-swapped; trans = compare_list_trans }

-- What the Rust documentation says of `partial_cmp` on floats: it is none where one side is no
-- number, and a total preorder on the numbers.
pub record FloatOrder {ℓ} {F : Type ℓ} (partial_cmp : F → F → Option Ordering) : Type (ℓ + 1) where
  pub IsNumber : F → Type 0
  pub order : F → F → Ordering
  pub preorder : IsPreorder order
  pub agrees : (x y : F) → IsNumber x → IsNumber y → partial_cmp x y ≡ some (order x y)

-- `partial_cmp(..).unwrap_or(Ordering::Equal)`
abbrev pub or_equal : Option Ordering → Ordering
or_equal none = Ordering.eq
or_equal (some o) = o

pub then_with_eq : (o : Ordering) → then_with o Ordering.eq ≡ o
then_with_eq Ordering.lt = refl
then_with_eq Ordering.eq = refl
then_with_eq Ordering.gt = refl

pub compare_self {ℓ} :
    {A : Type ℓ} {cmp : A → A → Ordering} → IsPreorder cmp → (x : A) → cmp x x ≡ Ordering.eq
compare_self p x = ground (arith, p.swapped x x)
