-- ===== src/MinHeap/Down.antt =====
-- `heapify_down_index`: an entry that may be too high for its place sinks until the order holds.
use mathlib.Core.List.Perm
use seek_storm.Base.{
  ℕ, zero, suc, ◌+◌, ◌-◌, ◌*◌, ◌<◌, ◌≡◌, ◌≢◌, ◌⊎◌, refl, true, List, Ordering, Run, Returns,
  returns, Returns-if, Returns-bind, length, arith, ltb, Bool-cases, inl, inr,
}
use seek_storm.Base.Order.{is_lt, is_ge}
use seek_storm.Base.Array.{at, swap_at, at-swap_at, get_elem?-at}
use seek_storm.MinHeap.{Result, get_parent_index, smaller_index, heapify_down_loop}
use seek_storm.MinHeap.Order.{
  ResultOrder, le, le_trans, le_refl, le_of_lt, le_of_not_lt, IsUsed, IsBridged, Sifted,
  swap_at-IsUsed, Sifted-swap_at,
}
use seek_storm.MinHeap.Up.{swap-swap_at}

module _ {F : Type 0} {result_ordering : Result F → Result F → Run Ordering}
    (order : ResultOrder result_ordering) (d : Result F) where
  open order use {Good, cmp, returns_cmp, swapped, trans}

  -- Only the edges below `i` may be out of order.
  pub record DownInv (n : ℕ) (a : List (Result F)) (i : ℕ) : Type 0 where
    pub edges :
        (c : ℕ)
        → 0 < c
        → c < n
        → get_parent_index c ≢ i
        → le order (at d a (get_parent_index c)) (at d a c) ≡ true
    pub bridged : IsBridged order d n a i

  -- `m` is a child of `i`, and no child is below it.
  record IsSmaller (n : ℕ) (a : List (Result F)) (i m : ℕ) : Type 0 where
    inside : m < n
    child : (m ≡ 2 * i + 1) ⊎ (m ≡ 2 * i + 2)
    least : (c : ℕ) → 0 < c → c < n → get_parent_index c ≡ i → le order (at d a m) (at d a c) ≡ true

  smaller_index-IsSmaller :
      (n : ℕ) (a : List (Result F)) (i : ℕ)
      → IsUsed order d n a
      → 2 * i + 1 < n
      → Returns (IsSmaller n a i) (smaller_index result_ordering n a i)
  unfolding smaller_index
  smaller_index-IsSmaller n a i u h =
      let left = 2 * i + 1 in
      let right = 2 * i + 2 in
      Returns-if (ltb right n)
        (λ two.
          let hr : right < n = ground arith in
          rw
            (
              get_elem?-at d a right (omega (arith, u.room)),
              get_elem?-at d a left (omega (arith, u.room)),
              returns_cmp (at d a right) (at d a left) (u.good right hr) (u.good left h),
            )
            (elim (Bool-cases (is_lt (cmp (at d a right) (at d a left)))) [
              | inl below ↦ rw below (
                  returns (record {
                    inside = hr;
                    child = inr refl;
                    least = λ c p q r. ground (
                      arith,
                      children c i p r,
                      le_refl order (at d a right),
                      le_of_lt order _ _ below,
                    );
                  }))
              | inr above ↦ rw above (
                  returns (record {
                    inside = h;
                    child = inl refl;
                    least = λ c p q r. ground (
                      arith,
                      children c i p r,
                      le_refl order (at d a left),
                      le_of_not_lt order _ _ above,
                    );
                  }))
            ]))
        (λ one. returns (record {
          inside = h;
          child = inl refl;
          least = λ c p q r. ground (arith, children c i p r, le_refl order (at d a left));
        }))
    where
      children : (c i : ℕ) → 0 < c → get_parent_index c ≡ i → (c ≡ 2 * i + 1) ⊎ (c ≡ 2 * i + 2)
      children c i p e = grind arith

  swap-DownInv :
      (n : ℕ) (a : List (Result F)) (i m : ℕ)
      → IsUsed order d n a
      → i < n
      → DownInv n a i
      → IsSmaller n a i m
      → is_lt (cmp (at d a m) (at d a i)) ≡ true
      → DownInv n (swap_at d a m i) m
  swap-DownInv n a i m u hi v s below =
      let moved = at-swap_at d a m i (omega (arith, u.room, s.inside)) (omega (arith, u.room)) in
      let low = le_of_lt order (at d a m) (at d a i) below in
      let child = s.child in
      record {
        edges = λ c p q r. ground (
          arith,
          low,
          child,
          moved c,
          moved (get_parent_index c),
          v.edges c,
          v.bridged m,
          s.least c,
          s.inside,
        );
        bridged =
            λ c p q r t. ground (arith, child, moved c, moved (get_parent_index m), v.edges c);
      }

  pub heapify_down_loop_restores :
      (fuel n : ℕ) (a : List (Result F)) (i : ℕ)
      → n - i < fuel
      → i < n
      → IsUsed order d n a
      → DownInv n a i
      → Returns (Sifted order d n a) (heapify_down_loop result_ordering fuel n a i)
  unfolding heapify_down_loop
  heapify_down_loop_restores zero n a i f hi u v = absurd (omega arith)
  heapify_down_loop_restores (suc fuel) n a i f hi u v =
      Returns-if (ltb (2 * i + 1) n)
        (λ more. Returns-bind (smaller_index-IsSmaller n a i u (ground arith)) λ m s.
          let ha : i < length a = omega (arith, u.room) in
          let hm : m < length a = omega (arith, u.room, s.inside) in
          let deeper : i < m = omega (arith, s.child) in
          rw
            (
              get_elem?-at d a m hm,
              get_elem?-at d a i ha,
              returns_cmp (at d a m) (at d a i) (u.good m s.inside) (u.good i hi),
              swap-swap_at d a m i hm ha,
            )
            (Returns-if (is_ge (cmp (at d a m) (at d a i)))
              (λ settled. returns (record {
                heap = λ c p q. ground (
                  arith,
                  settled,
                  v.edges c,
                  s.least c,
                  le_of_not_lt order (at d a m) (at d a i),
                  le_trans order (at d a i) (at d a m) (at d a c),
                );
                used = u;
                same = Perm.rfl;
                kept = refl;
              }))
              (λ below. Sifted-swap_at order d n a m i u s.inside hi (
                heapify_down_loop_restores fuel n (swap_at d a m i) m (omega arith) s.inside
                  (swap_at-IsUsed order d n a m i u s.inside hi)
                  (swap-DownInv n a i m u hi v s (ground arith))))))
        (λ leaf. returns (record {
          heap = λ c p q. ground (arith, v.edges c);
          used = u;
          same = Perm.rfl;
          kept = refl;
        }))
