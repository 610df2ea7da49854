-- ===== src/MinHeap/TopK.antt =====
-- `add_topk` over a stream of new documents: the heap holds the best `top_k` results seen so far.
use mathlib.Core.List.Perm
use mathlib.Core.Logic.Or
use mathlib.Core.List.{Mem, mem-cons, mem-cons_of_mem, not-mem-nil, append-nil, perm_middle}
use seek_storm.Base.{
  ℕ, ◌+◌, ◌≤◌, ◌<◌, ◌≡◌, ◌⊎◌, ◌∙◌, refl, Bool, true, false, List, [], ◌∷◌, ◌++◌, Perm, Ordering,
  Run, ok, Returns, ◌>>=◌, returns, Returns-if, Returns-bind, Returns-map, length, length-take,
  length-append, length-replicate, arith, ltb, inl, inr, min, none,
}
use seek_storm.Base.Order.{is_gt}
use seek_storm.Base.Array.{at, at-take, get_elem?-at, length-perm, forall_mem_of_at, mem-at}
use seek_storm.MinHeap.{Result, MinHeap, get, insert_new, known_or_new, add_topk, new}
use seek_storm.MinHeap.Order.{ResultOrder, le, le_trans, le_of_gt, le_of_not_gt, root_least}
use seek_storm.MinHeap.Insert.{kept, IsValid, Holds, add-Holds}
use seek_storm.MinHeap.Replace.{Exchanged, popped, pop_add-Exchanged}

-- Calls of `add_topk` for the results one after the other.
unfoldable pub add_each :
    {F : Type 0}
    → (Result F → Result F → Run Ordering)
    → MinHeap F
    → List (Result F)
    → ℕ
    → Run (MinHeap F)
add_each result_ordering h [] top_k = ok h
add_each result_ordering h (r ∷ rs) top_k =
    add_topk result_ordering h r top_k >>= λ (h', added). add_each result_ordering h' rs top_k

module _ {F : Type 0} {result_ordering : Result F → Result F → Run Ordering}
    (order : ResultOrder result_ordering) (d : Result F) where
  open order use {Good, cmp, returns_cmp}

  le_prop : (r s : Result F) → IsProp (le order r s ≡ true)
  le_prop r s = hlevel

  root_least_mem :
      (h : MinHeap F)
      → IsValid order d h
      → (y : Result F) → Mem y (kept h)
      → le order (at d h.elements 0) y ≡ true
  root_least_mem h v =
      forall_mem_of_at d (λ y. le order (at d h.elements 0) y ≡ true) (le_prop (at d h.elements 0))
        (kept h)
        λ i p.
          let below : i < h.current_heap_size =
            omega (arith, p, length-take h.current_heap_size h.elements) in
          rw (at-take d h.current_heap_size h.elements i below)
            (root_least order d h.current_heap_size h.elements i v.heap below)

  -- No result of `xs` is above one of `ys`.
  abbrev pub Below : List (Result F) → List (Result F) → Type 0
  Below xs ys = (x y : Result F) → Mem x xs → Mem y ys → le order x y ≡ true

  -- The heap holds as many results of `seen` as fit `top_k`, and the others are not above them.
  pub record HoldsTopK (top_k : ℕ) (seen : List (Result F)) (h : MinHeap F) : Type 0 where
    pub valid : IsValid order d h
    pub unknown : h.docid_hashset ≡ []
    pub room : top_k ≤ length h.elements
    pub size : h.current_heap_size ≡ min top_k (length seen)
    pub dropped : List (Result F)
    pub split : Perm (kept h ++ dropped) seen
    pub best : Below dropped (kept h)

  length-kept : (h : MinHeap F) → IsValid order d h → length (kept h) ≡ h.current_heap_size
  length-kept h v = omega (arith, v.used.room, length-take h.current_heap_size h.elements)

  module _ (top_k : ℕ) (seen : List (Result F)) (h : MinHeap F) (r : Result F)
      (s : HoldsTopK top_k seen h) (g : Good r) where
    counts : length (kept h) + length s.dropped ≡ length seen
    counts = omega (arith, length-perm s.split, length-append (kept h) s.dropped)

    grow :
        (h' : MinHeap F)
        → h.current_heap_size < top_k
        → Holds order d (length h.elements) (h.current_heap_size + 1) (r ∷ kept h) h'
          × (h'.docid_hashset ≡ h.docid_hashset)
        → HoldsTopK top_k (r ∷ seen) h'
    grow h' more (k, hash) =
        let none_dropped : s.dropped ≡ [] =
          nil_of_length s.dropped (omega (arith, counts, s.size, length-kept h s.valid)) in
        record {
          valid = k.valid;
          unknown = hash ∙ s.unknown;
          room = omega (arith, s.room, k.allocated);
          size = omega (arith, k.size_kept, s.size);
          dropped = [];
          split =
              rw append-nil
                (Perm.trans k.same (Perm.cons r (rw (none_dropped, append-nil) at s.split)));
          best = λ x y m. absurd (not-mem-nil m);
        }
      where
        nil_of_length : (xs : List (Result F)) → length xs ≡ 0 → xs ≡ []
        nil_of_length [] e = refl
        nil_of_length (x ∷ xs) e = absurd (omega arith)

    module _ (full : h.current_heap_size ≡ top_k) (pos : 0 < top_k) where
      abbrev root : Result F
      root = at d h.elements 0

      mem-root : Mem root (kept h)
      mem-root =
          let p : 0 < h.current_heap_size = omega (arith, full, pos) in
          rw (at-take d h.current_heap_size h.elements 0 p) at
            (mem-at d (kept h) 0 (omega (arith, length-kept h s.valid, p)))

      exchange :
          (h' : MinHeap F)
          → is_gt (cmp r root) ≡ true
          → Exchanged order d root r h h' × (h'.docid_hashset ≡ [])
          → HoldsTopK top_k (r ∷ seen) h'
      exchange h' above (e, hash) =
          let r_above = le_of_gt order r root above in
          let arrive : (y : Result F) → Mem y (kept h') → Mem y (r ∷ kept h) =
            λ y m. (Perm.mem_iff e.same).0 (mem-cons_of_mem root m) in
          record {
            valid = e.valid;
            unknown = hash;
            room = omega (arith, s.room, e.allocated);
            size = omega (arith, e.size_kept, full, s.size);
            dropped = root ∷ s.dropped;
            split =
                Perm.trans (perm_middle (kept h') s.dropped)
                  (Perm.trans (Perm.append e.same (Perm.refl s.dropped)) (Perm.cons r s.split));
            best = λ x y mx my.
                Or.elim (le_prop x y) (mem-cons.0 mx)
                  (λ ex. rw ex (
                    Or.elim (le_prop root y) (mem-cons.0 (arrive y my)) (λ ey. rw ey r_above)
                      (root_least_mem h s.valid y)))
                  (λ mx'.
                    Or.elim (le_prop x y) (mem-cons.0 (arrive y my))
                      (λ ey. rw ey (le_trans order x root r (s.best x root mx' mem-root) r_above))
                      (s.best x y mx'));
          }

      refuse : is_gt (cmp r root) ≡ false → HoldsTopK top_k (r ∷ seen) h
      refuse below = record {
        valid = s.valid;
        unknown = s.unknown;
        room = s.room;
        size = omega (arith, full, s.size);
        dropped = r ∷ s.dropped;
        split = Perm.trans (perm_middle (kept h) s.dropped) (Perm.cons r s.split);
        best = λ x y mx my.
            Or.elim (le_prop x y) (mem-cons.0 mx)
              (λ ex. rw ex (
                le_trans order r root y (le_of_not_gt order r root below)
                  (root_least_mem h s.valid y my)))
              (λ mx'. s.best x y mx' my);
      }

    -- Whether a call reports a change: if it does not, the heap is as it was.
    abbrev pub Reported : MinHeap F × Bool → Type 0
    Reported (h', added) = (added ≡ true) ⊎ ((added ≡ false) × (h' ≡ h))

    insert_new-HoldsTopK :
        0 < top_k
        → Returns
            (λ out. HoldsTopK top_k (r ∷ seen) out.0 × Reported out)
            (insert_new result_ordering h r top_k)
    unfolding insert_new
    insert_new-HoldsTopK pos =
        Returns-if (ltb h.current_heap_size top_k)
          (λ more.
            let less : h.current_heap_size < top_k = ground arith in
            Returns-bind (add-Holds order d h r s.valid g (omega (arith, s.room, less)))
              λ h' k. returns (grow h' less k, inl refl))
          (λ stop.
            let full : h.current_heap_size ≡ top_k = ground (arith, s.size) in
            let used : 0 < h.current_heap_size = omega (arith, full, pos) in
            let fits : 0 < length h.elements = omega (arith, s.room, pos) in
            let top = root full pos in
            rw (get_elem?-at d h.elements 0 fits, returns_cmp r top g (s.valid.used.good 0 used))
              (Returns-if (is_gt (cmp r top))
                (λ above.
                  Returns-bind (pop_add-Exchanged order d h r s.valid g used)
                    λ h' e. returns (exchange full pos h' above (e.0, e.1 ∙ empty_hash), inl refl))
                (λ below. returns (refuse full pos below, inr (refl, refl)))))
      where
        empty_hash : popped d h ≡ []
        empty_hash = rw s.unknown

    -- Where `0 < top_k`, the hash set is empty and the heap holds the best `top_k` results of those
    -- seen, one call of `add_topk` with a good result returns, makes it hold the best `top_k` of those
    -- and the new one, and reports `false` only if it left the heap as it was.
    pub add_topk-HoldsTopK :
        0 < top_k
        → Returns
            (λ out. HoldsTopK top_k (r ∷ seen) out.0 × Reported out)
            (add_topk result_ordering h r top_k)
    unfolding add_topk get known_or_new
    add_topk-HoldsTopK pos =
        let not_over : ltb top_k h.current_heap_size ≡ false = ground (arith, s.size) in
        let absent : get h.docid_hashset r.doc_id ≡ none = rw s.unknown in
        rw (not_over, absent) (insert_new-HoldsTopK pos)

  abbrev pub AllGood : List (Result F) → Type 0
  AllGood [] = Unit
  AllGood (r ∷ rs) = Good r × AllGood rs

  add_each-HoldsTopK :
      (top_k : ℕ) (seen : List (Result F)) (h : MinHeap F) (rs : List (Result F))
      → HoldsTopK top_k seen h
      → AllGood rs
      → 0 < top_k
      → Returns
          (λ h'. (s : List (Result F)) × HoldsTopK top_k s h' × Perm s (rs ++ seen))
          (add_each result_ordering h rs top_k)
  unfolding add_each
  add_each-HoldsTopK top_k seen h [] s g pos = returns (seen, s, Perm.refl seen)
  add_each-HoldsTopK top_k seen h (r ∷ rs) s g pos =
      Returns-bind (add_topk-HoldsTopK top_k seen h r s g.0 pos) λ (h', added) k.
        Returns-map (add_each-HoldsTopK top_k (r ∷ seen) h' rs k.0 g.1 pos)
          λ h'' (all, k', p). (all, k', Perm.trans p (perm_middle rs seen))

  new-HoldsTopK :
      (zero_score : F) (size top_k : ℕ) → top_k ≤ size → HoldsTopK top_k [] (new zero_score size)
  unfolding new
  new-HoldsTopK zero_score size top_k h = record {
    valid = record {
      used = record { room = omega arith; good = λ c p. absurd (omega arith) };
      heap = λ c p q. absurd (omega arith);
    };
    unknown = refl;
    room =
        omega
          (arith, length-replicate {A = Result F} size (record { doc_id = 0; score = zero_score }));
    size = omega arith;
    dropped = [];
    split = Perm.refl [];
    best = λ x y m. absurd (not-mem-nil m);
  }

  -- Whatever good results are added to a new heap of `size` entries, one call of `add_topk` each,
  -- with `0 < top_k ≤ size`: no call panics or runs out of fuel, and at the end the heap holds
  -- `min top_k n` of the `n` results, none of the others being above one of them.
  pub add_each-best :
      (zero_score : F) (size top_k : ℕ) (rs : List (Result F))
      → top_k ≤ size
      → 0 < top_k
      → AllGood rs
      → Returns (HoldsTopK top_k rs) (add_each result_ordering (new zero_score size) rs top_k)
  add_each-best zero_score size top_k rs fits pos g =
      Returns-map
        (add_each-HoldsTopK top_k [] (new zero_score size) rs
          (new-HoldsTopK zero_score size top_k fits) g pos)
        λ h (seen, s, p).
          let p' : Perm seen rs = rw append-nil at p in
          record {
            valid = s.valid;
            unknown = s.unknown;
            room = s.room;
            size = rw (length-perm p') at s.size;
            dropped = s.dropped;
            split = Perm.trans s.split p';
            best = s.best;
          }
