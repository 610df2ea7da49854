-- ===== src/MinHeap/Up.antt =====
-- `heapify_up`: an entry that may be too low for its place rises until the heap order holds.
use mathlib.Core.List.Perm
use seek_storm.Base.{
  ℕ, zero, suc, ◌<◌, ◌≡◌, ◌≢◌, refl, true, List, Ordering, Run, ok, Returns, returns, Returns-if,
  length, length-set, arith, ◌==◌,
}
use seek_storm.Base.Order.{is_lt}
use seek_storm.Base.Array.{at, swap_at, at-swap_at, get_elem?-at}
use seek_storm.MinHeap.{Result, get_parent_index, swap, heapify_up_loop}
use seek_storm.MinHeap.Order.{
  ResultOrder, le, le_trans, le_of_lt, le_of_not_lt, IsUsed, IsBridged, Sifted, swap_at-IsUsed,
  Sifted-swap_at,
}

-- In range, the swap of the code is the swap of arrays.
pub swap-swap_at :
    {F : Type 0} (d : Result F) (a : List (Result F)) (i j : ℕ)
    → i < length a
    → j < length a
    → swap a i j ≡ ok (swap_at d a i j)
unfolding swap swap_at
swap-swap_at d a i j hi hj =
    ground (arith, get_elem?-at d a i hi, get_elem?-at d a j hj, length-set a i (at d a j))

module _ {F : Type 0} {result_ordering : Result F → Result F → Run Ordering}
    (order : ResultOrder result_ordering) (d : Result F) where
  open order use {Good, cmp, returns_cmp, swapped, trans}

  -- Only the edge above `i` may be out of order.
  pub record UpInv (n : ℕ) (a : List (Result F)) (i : ℕ) : Type 0 where
    pub inside : i < n
    pub edges :
        (c : ℕ) → 0 < c → c < n → c ≢ i → le order (at d a (get_parent_index c)) (at d a c) ≡ true
    pub bridged : IsBridged order d n a i

  swap-UpInv :
      (n : ℕ) (a : List (Result F)) (i : ℕ)
      → IsUsed order d n a
      → UpInv n a i
      → 0 < i
      → is_lt (cmp (at d a i) (at d a (get_parent_index i))) ≡ true
      → UpInv n (swap_at d a (get_parent_index i) i) (get_parent_index i)
  swap-UpInv n a i u v pos below =
      let p = get_parent_index i in
      let moved =
        at-swap_at d a p i (omega (arith, u.room, v.inside)) (omega (arith, u.room, v.inside)) in
      let low = le_of_lt order (at d a i) (at d a p) below in
      record {
        inside = omega (arith, v.inside);
        edges = λ c q r s. ground (
          arith,
          low,
          moved c,
          moved (get_parent_index c),
          v.edges c,
          v.bridged c,
          v.edges p,
          le_trans order (at d a i) (at d a p) (at d a c),
        );
        bridged = λ c q r s t. ground (
          arith,
          low,
          moved c,
          moved (get_parent_index p),
          v.edges c,
          v.edges p,
          le_trans order (at d a (get_parent_index p)) (at d a p) (at d a c),
        );
      }

  pub heapify_up_loop_restores :
      (fuel n : ℕ) (a : List (Result F)) (i : ℕ)
      → i < fuel
      → IsUsed order d n a
      → UpInv n a i
      → Returns (Sifted order d n a) (heapify_up_loop result_ordering fuel a i)
  unfolding heapify_up_loop
  heapify_up_loop_restores zero n a i f u v = absurd (omega arith)
  heapify_up_loop_restores (suc fuel) n a i f u v =
      let p = get_parent_index i in
      let hi : i < length a = omega (arith, u.room, v.inside) in
      let hp : p < length a = omega (arith, hi) in
      let hpn : p < n = omega (arith, v.inside) in
      Returns-if (i == 0)
        (λ root. returns (record {
          heap = λ c q r. v.edges c q r (ground arith);
          used = u;
          same = Perm.rfl;
          kept = refl;
        }))
        (λ inner.
          rw
            (
              get_elem?-at d a i hi,
              get_elem?-at d a p hp,
              returns_cmp (at d a i) (at d a p) (u.good i v.inside) (u.good p hpn),
              swap-swap_at d a p i hp hi,
            )
            (Returns-if (is_lt (cmp (at d a i) (at d a p)))
              (λ below. Sifted-swap_at order d n a p i u hpn v.inside (
                heapify_up_loop_restores fuel n (swap_at d a p i) p (ground arith)
                  (swap_at-IsUsed order d n a p i u hpn v.inside)
                  (swap-UpInv n a i u v (ground arith) below)))
              (λ settled. returns (record {
                heap = λ c q r.
                    ground (arith, v.edges c, le_of_not_lt order (at d a i) (at d a p) settled);
                used = u;
                same = Perm.rfl;
                kept = refl;
              }))))
