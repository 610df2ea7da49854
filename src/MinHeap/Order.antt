-- ===== src/MinHeap/Order.antt =====
-- The heap order, over any total order of results that `result_ordering` computes where it returns.
use mathlib.Core.List.Perm
use seek_storm.Base.{
  ℕ, zero, suc, ◌≤◌, ◌<◌, ◌≡◌, Bool, true, false, not, List, Perm, Ordering, Run, ok, Returns,
  Returns-map, length, take, length-take, arith, ◌∙◌, ◌==◌, if◌then◌else◌,
}
use seek_storm.Base.Order.{is_lt, is_gt}
use seek_storm.Base.Array.{at, swap_at, swap_at-perm, take-swap_at, at-swap_at, length-swap_at}
use seek_storm.MinHeap.{Result, get_parent_index}

-- What the heap relies on: on good results `result_ordering` returns `cmp`, a total preorder.
-- `le r s` says that `r` is not above `s`.
pub record ResultOrder {F : Type 0} (result_ordering : Result F → Result F → Run Ordering)
    : Type 1 where
  pub Good : Result F → Type 0
  pub cmp : Result F → Result F → Ordering
  pub returns_cmp : (r s : Result F) → Good r → Good s → result_ordering r s ≡ ok (cmp r s)
  pub swapped : (r s : Result F) → is_gt (cmp r s) ≡ is_lt (cmp s r)
  pub trans :
      (r s t : Result F)
      → is_gt (cmp r s) ≡ false
      → is_gt (cmp s t) ≡ false
      → is_gt (cmp r t) ≡ false

module _ {F : Type 0} {result_ordering : Result F → Result F → Run Ordering}
    (order : ResultOrder result_ordering) where
  open order use {Good, cmp, swapped, trans}

  abbrev pub le : Result F → Result F → Bool
  le r s = not (is_gt (cmp r s))

  pub le_trans : (r s t : Result F) → le r s ≡ true → le s t ≡ true → le r t ≡ true
  le_trans r s t p q = ground (arith, trans r s t)

  pub le_refl : (r : Result F) → le r r ≡ true
  le_refl r = ground (arith, swapped r r)

  pub le_of_lt : (r s : Result F) → is_lt (cmp r s) ≡ true → le r s ≡ true
  le_of_lt r s p = ground arith

  pub le_of_not_lt : (r s : Result F) → is_lt (cmp r s) ≡ false → le s r ≡ true
  le_of_not_lt r s p = ground (arith, swapped s r)

  pub le_of_not_gt : (r s : Result F) → is_gt (cmp r s) ≡ false → le r s ≡ true
  le_of_not_gt r s p = ground arith

  pub le_of_gt : (r s : Result F) → is_gt (cmp r s) ≡ true → le s r ≡ true
  le_of_gt r s p = ground (arith, swapped r s)

  Good_if : {r s : Result F} (b : Bool) → Good r → Good s → Good (if b then r else s)
  Good_if true p q = p
  Good_if false p q = q

  module _ (d : Result F) where
    -- The first `n` entries are in use, and good.
    pub record IsUsed (n : ℕ) (a : List (Result F)) : Type 0 where
      pub room : n ≤ length a
      pub good : (c : ℕ) → c < n → Good (at d a c)

    -- Every edge of the first `n` entries is in order.
    abbrev pub IsHeap : ℕ → List (Result F) → Type 0
    IsHeap n a = (c : ℕ) → 0 < c → c < n → le (at d a (get_parent_index c)) (at d a c) ≡ true

    -- The edges past `i`, from its parent to its children, are in order.
    abbrev pub IsBridged : ℕ → List (Result F) → ℕ → Type 0
    IsBridged n a i =
        (c : ℕ)
        → 0 < c
        → c < n
        → get_parent_index c ≡ i
        → 0 < i
        → le (at d a (get_parent_index i)) (at d a c) ≡ true

    -- `b` is a heap of the first `n` entries of `a`, in an array of the same length.
    pub record Sifted (n : ℕ) (a b : List (Result F)) : Type 0 where
      pub heap : IsHeap n b
      pub used : IsUsed n b
      pub same : Perm (take n b) (take n a)
      pub kept : length b ≡ length a

    pub swap_at-IsUsed :
        (n : ℕ) (a : List (Result F)) (i j : ℕ)
        → IsUsed n a
        → i < n
        → j < n
        → IsUsed n (swap_at d a i j)
    swap_at-IsUsed n a i j u hi hj = record {
      room = rw length-swap_at u.room;
      good = λ c h.
          rw (at-swap_at d a i j (omega (arith, u.room)) (omega (arith, u.room)) c)
            (Good_if (j == c) (u.good i hi) (Good_if (i == c) (u.good j hj) (u.good c h)));
    }

    pub Sifted-swap_at :
        (n : ℕ) (a : List (Result F)) (i j : ℕ) {r : Run (List (Result F))}
        → IsUsed n a
        → i < n
        → j < n
        → Returns (Sifted n (swap_at d a i j)) r
        → Returns (Sifted n a) r
    Sifted-swap_at n a i j u hi hj run = Returns-map run λ b s. record {
      heap = s.heap;
      used = s.used;
      same = Perm.trans s.same (
          rw (take-swap_at d n a i j hi hj) (
            swap_at-perm d (take n a) i j (omega (arith, u.room, length-take n a))
              (omega (arith, u.room, length-take n a))));
      kept = s.kept ∙ length-swap_at d a i j;
    }

    root_least_below :
        (k : ℕ) (n : ℕ) (a : List (Result F)) (i : ℕ)
        → IsHeap n a
        → i < k
        → i < n
        → le (at d a 0) (at d a i) ≡ true
    root_least_below zero n a i h f p = absurd (omega arith)
    root_least_below (suc k) n a zero h f p = le_refl _
    root_least_below (suc k) n a (suc i) h f p =
        le_trans _ (at d a (get_parent_index (suc i))) _
          (root_least_below k n a (get_parent_index (suc i)) h (omega arith) (omega arith))
          (h (suc i) (omega arith) p)

    -- The root of a heap is below every entry in use.
    pub root_least :
        (n : ℕ) (a : List (Result F)) (i : ℕ) → IsHeap n a → i < n → le (at d a 0) (at d a i) ≡ true
    root_least n a i h p = root_least_below (suc i) n a i h (omega arith) p
