-- ===== src/Base/Array.antt =====
-- Arrays under native indices, read with a default: swaps, prefixes, permutations.
use mathlib.Core.Logic.{∥∥₁_elim}
use native.Mathlib.Nat.{ℕ_set}
use mathlib.Core.Logic.Or
use mathlib.Core.List.{
  Permᴰ, append-nil, perm_middle, Mem, mem-cons, mem-cons_self, mem-cons_of_mem, not-mem-nil,
}
use mathlib.Core.List.Perm
use Prim.Native.Nat.{ℕ, zero, suc, ◌<◌, ◌≤◌}
use mathlib.Core.Path.{◌≡◌, refl, ap, ◌∙◌}
use mathlib.Core.List.{List, [], ◌∷◌, ◌++◌, Perm}
use mathlib.Core.Option.{some}
use native.Mathlib.Omega.{arith}
use seek_storm.Base.Tests.{◌==◌, if◌then◌else◌}
use seek_storm.Base.Lists.{length, get_elem?, set, take, length-set}

module _ {ℓ} {A : Type ℓ} where
  length-permᴰ : {xs ys : List A} → Permᴰ xs ys → length xs ≡ length ys
  length-permᴰ Permᴰ.nil = refl
  length-permᴰ (Permᴰ.cons _ p) = ap suc (length-permᴰ p)
  length-permᴰ (Permᴰ.swap _ _) = refl
  length-permᴰ (Permᴰ.trans p q) = length-permᴰ p ∙ length-permᴰ q

  pub length-perm : {xs ys : List A} → Perm xs ys → length xs ≡ length ys
  length-perm p = ∥∥₁_elim p (ℕ_set _ _) length-permᴰ

module _ {ℓ} {A : Type ℓ} (d : A) where
  unfoldable pub at : List A → ℕ → A
  at [] i = d
  at (x ∷ xs) zero = x
  at (x ∷ xs) (suc i) = at xs i

  unfoldable pub swap_at : List A → ℕ → ℕ → List A
  swap_at xs i j = set (set xs i (at xs j)) j (at xs i)

  pub get_elem?-at : (xs : List A) (i : ℕ) → i < length xs → get_elem? xs i ≡ some (at xs i)
  unfolding at
  get_elem?-at [] i h = absurd (omega arith)
  get_elem?-at (x ∷ xs) zero h = refl
  get_elem?-at (x ∷ xs) (suc i) h = get_elem?-at xs i (omega arith)

  pub at-set :
      (xs : List A) (i j : ℕ) (v : A)
      → i < length xs
      → at (set xs i v) j ≡ (if i == j then v else at xs j)
  unfolding at
  at-set [] i j v h = absurd (omega arith)
  at-set (x ∷ xs) zero zero v h = refl
  at-set (x ∷ xs) zero (suc j) v h = ground arith
  at-set (x ∷ xs) (suc i) zero v h = ground arith
  at-set (x ∷ xs) (suc i) (suc j) v h = ground (arith, at-set xs i j v)

  pub at-take : (n : ℕ) (xs : List A) (i : ℕ) → i < n → at (take n xs) i ≡ at xs i
  unfolding at
  at-take zero xs i h = absurd (omega arith)
  at-take (suc n) [] i h = refl
  at-take (suc n) (x ∷ xs) zero h = refl
  at-take (suc n) (x ∷ xs) (suc i) h = at-take n xs i (omega arith)

  pub take-set :
      (n : ℕ) (xs : List A) (i : ℕ) (v : A) → i < n → take n (set xs i v) ≡ set (take n xs) i v
  take-set zero xs i v h = absurd (omega arith)
  take-set (suc n) [] i v h = refl
  take-set (suc n) (x ∷ xs) zero v h = refl
  take-set (suc n) (x ∷ xs) (suc i) v h = ap (◌∷◌ x) (take-set n xs i v (omega arith))

  -- One more element of the prefix.
  pub take-suc-at :
      (n : ℕ) (xs : List A) → n < length xs → take (suc n) xs ≡ take n xs ++ at xs n ∷ []
  unfolding at
  take-suc-at zero [] h = absurd (omega arith)
  take-suc-at zero (x ∷ xs) h = refl
  take-suc-at (suc n) [] h = absurd (omega arith)
  take-suc-at (suc n) (x ∷ xs) h = ap (◌∷◌ x) (take-suc-at n xs (omega arith))

  -- A write trades the old element for the new one.
  pub set-perm :
      (xs : List A) (i : ℕ) (v : A) → i < length xs → Perm (at xs i ∷ set xs i v) (v ∷ xs)
  unfolding at
  set-perm [] i v h = absurd (omega arith)
  set-perm (x ∷ xs) zero v h = Perm.swap v x xs
  set-perm (x ∷ xs) (suc i) v h =
      Perm.trans (Perm.swap x _ _)
        (Perm.trans (Perm.cons x (set-perm xs i v (omega arith))) (Perm.swap v x xs))

  pub length-swap_at : (xs : List A) (i j : ℕ) → length (swap_at xs i j) ≡ length xs
  unfolding swap_at
  length-swap_at xs i j = simp length-set

  module _ (xs : List A) (i j : ℕ) (hi : i < length xs) (hj : j < length xs) where
    pub at-swap_at :
        (c : ℕ)
        → at (swap_at xs i j) c ≡ (if j == c then at xs i else if i == c then at xs j else at xs c)
    unfolding swap_at
    at-swap_at c =
        rw
          (at-set (set xs i (at xs j)) j c (at xs i) (rw length-set hj), at-set xs i c (at xs j) hi)

    pub swap_at-perm : Perm (swap_at xs i j) xs
    unfolding swap_at
    swap_at-perm =
        let once = set xs i (at xs j) in
        let same : at once j ≡ at xs j = ground (arith, at-set xs i j (at xs j)) in
        let twice = rw same at (set-perm once j (at xs i) (rw length-set hj)) in
        Perm.cons_inv (Perm.trans twice (set-perm xs i (at xs j) hi))

  pub take-swap_at :
      (n : ℕ) (xs : List A) (i j : ℕ)
      → i < n
      → j < n
      → take n (swap_at xs i j) ≡ swap_at (take n xs) i j
  unfolding swap_at
  take-swap_at n xs i j hi hj = rw (
    take-set n (set xs i (at xs j)) j (at xs i) hj,
    take-set n xs i (at xs j) hi,
    at-take n xs j hj,
    at-take n xs i hi,
  )

module _ {ℓ} {A : Type ℓ} where
  -- A write at `n` or later leaves the first `n` elements.
  pub take-set_frame :
      (n : ℕ) (xs : List A) (i : ℕ) (v : A) → n ≤ i → take n (set xs i v) ≡ take n xs
  take-set_frame zero xs i v h = refl
  take-set_frame (suc n) [] i v h = refl
  take-set_frame (suc n) (x ∷ xs) zero v h = absurd (omega arith)
  take-set_frame (suc n) (x ∷ xs) (suc i) v h = ap (◌∷◌ x) (take-set_frame n xs i v (omega arith))

  pub snoc-perm : (xs : List A) (x : A) → Perm (xs ++ x ∷ []) (x ∷ xs)
  snoc-perm xs x = rw (append-nil xs) at (perm_middle {a = x} xs [])

module _ {ℓ κ} {A : Type ℓ} (d : A) (P : A → Type κ) (P_prop : (x : A) → IsProp (P x)) where
  -- What holds at each index holds of each element.
  pub forall_mem_of_at :
      (xs : List A) → ((i : ℕ) → i < length xs → P (at d xs i)) → (x : A) → Mem x xs → P x
  unfolding at
  forall_mem_of_at [] h x m = absurd (not-mem-nil m)
  forall_mem_of_at (y ∷ ys) h x m =
      Or.elim (P_prop x) (mem-cons.0 m) (λ e. rw e (h 0 (omega arith)))
        (forall_mem_of_at ys (λ i p. h (suc i) (omega arith)) x)

module _ {ℓ} {A : Type ℓ} (d : A) where
  pub mem-at : (xs : List A) (i : ℕ) → i < length xs → Mem (at d xs i) xs
  unfolding at
  mem-at [] i h = absurd (omega arith)
  mem-at (x ∷ xs) zero h = mem-cons_self
  mem-at (x ∷ xs) (suc i) h = mem-cons_of_mem x (mem-at xs i (omega arith))
