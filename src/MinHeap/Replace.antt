-- ===== src/MinHeap/Replace.antt =====
-- Writing a result over an entry that it does not lie below: `pop_add`, and the update of a known
-- document.
use mathlib.Core.List.Perm
use mathlib.Core.Path.{subst₂, ap}
use seek_storm.Base.{
  ℕ, ◌<◌, ◌≡◌, ◌⊎◌, ◌∙◌, refl, true, List, ◌∷◌, Perm, Ordering, Run, ok, Returns, Returns-map,
  length, length-set, length-take, set, take, arith, if◌then◌else◌, inl, store,
}
use seek_storm.Base.Array.{at, at-set, set-perm, take-set, at-take, get_elem?-at}
use seek_storm.MinHeap.{
  Result, MinHeap, is_empty, remove, get_parent_index, heapify_down, heapify_down_index, pop_add,
}
use seek_storm.MinHeap.Order.{ResultOrder, le, le_trans, IsUsed}
use seek_storm.MinHeap.Down.{DownInv}
use seek_storm.MinHeap.Insert.{
  kept, IsValid, Holds, set-IsUsed, heapify_down-Rebuilt, heapify_down_index-Rebuilt,
}

-- The hash set after `pop_add`.
abbrev pub popped : {F : Type 0} → Result F → MinHeap F → List (ℕ × F)
popped d h =
    if is_empty h.docid_hashset
    then h.docid_hashset
    else remove h.docid_hashset (at d h.elements 0).doc_id

module _ {F : Type 0} {result_ordering : Result F → Result F → Run Ordering}
    (order : ResultOrder result_ordering) (d : Result F) where
  open order use {Good, cmp}

  -- `h'` is a valid heap in which `r` stands for the entry `old` of `h`, all others being kept.
  pub record Exchanged (old r : Result F) (h h' : MinHeap F) : Type 0 where
    pub valid : IsValid order d h'
    pub size_kept : h'.current_heap_size ≡ h.current_heap_size
    pub same : Perm (old ∷ kept h') (r ∷ kept h)
    pub allocated : length h'.elements ≡ length h.elements

  module _ (h : MinHeap F) (r : Result F) (i : ℕ) (v : IsValid order d h) (g : Good r)
      (hi : i < h.current_heap_size) where
    abbrev pub replaced : MinHeap F
    replaced = record h { elements = set h.elements i r }

    inside : i < length h.elements
    inside = omega (arith, v.used.room)

    kept-replaced : Perm (at d h.elements i ∷ kept replaced) (r ∷ kept h)
    kept-replaced =
        let n = h.current_heap_size in
        rw (take-set d n h.elements i r hi, ← at-take d n h.elements i hi)
          (set-perm d (take n h.elements) i r
            (omega (arith, v.used.room, length-take n h.elements)))

    pub replaced-IsUsed : IsUsed order d h.current_heap_size replaced.elements
    replaced-IsUsed = set-IsUsed order d h.current_heap_size h.elements i r v.used g inside

    pub replaced-DownInv :
        (i ≡ 0) ⊎ (le order (at d h.elements i) r ≡ true)
        → DownInv order d h.current_heap_size replaced.elements i
    replaced-DownInv above =
        let new = λ (c : ℕ). at-set d h.elements i c r inside in
        let value = at d h.elements in
        record {
          edges = λ c p q s. ground (
            arith,
            above,
            new c,
            new (get_parent_index c),
            v.heap c,
            le_trans order (value (get_parent_index c)) (value i) r,
          );
          bridged = λ c p q s t. ground (
            arith,
            new c,
            new (get_parent_index i),
            v.heap c,
            v.heap i,
            le_trans order (value (get_parent_index i)) (value i) (value c),
          );
        }

    Rebuilt-Exchanged :
        (h₁ h' : MinHeap F)
        → h₁.elements ≡ replaced.elements
        → h₁.current_heap_size ≡ h.current_heap_size
        → Holds order d (length h₁.elements) h₁.current_heap_size (kept h₁) h'
        → Exchanged (at d h.elements i) r h h'
    Rebuilt-Exchanged h₁ h' e f s = record {
      valid = s.valid;
      size_kept = s.size_kept ∙ f;
      same =
          Perm.trans (Perm.cons _ (subst₂ (λ n a. Perm (kept h') (take n a)) f e s.same))
            kept-replaced;
      allocated = s.allocated ∙ ap length e ∙ length-set h.elements i r;
    }

    -- Sinking the written entry restores the heap.
    pub heapify_replaced :
        (i ≡ 0) ⊎ (le order (at d h.elements i) r ≡ true)
        → Returns
            (Exchanged (at d h.elements i) r h)
            (heapify_down_index result_ordering replaced i)
    heapify_replaced above =
        Returns-map
          (heapify_down_index-Rebuilt order d replaced i hi replaced-IsUsed
            (replaced-DownInv above))
          λ h' s. Rebuilt-Exchanged replaced h' refl refl s.0

  module _ (h : MinHeap F) (r : Result F) (v : IsValid order d h) (g : Good r)
      (pos : 0 < h.current_heap_size) where
    -- `heapify_down` after the root was written.
    pub heapify_root :
        (m : List (ℕ × F))
        → Returns
            (λ h'. Exchanged (at d h.elements 0) r h h' × (h'.docid_hashset ≡ m))
            (heapify_down result_ordering
              (record h { elements = set h.elements 0 r; docid_hashset = m }))
    heapify_root m =
        let h₁ : MinHeap F = record h { elements = set h.elements 0 r; docid_hashset = m } in
        Returns-map
          (heapify_down-Rebuilt order d h₁ pos (replaced-IsUsed h r 0 v g pos)
            (replaced-DownInv h r 0 v g pos (inl refl)))
          λ h' s. (Rebuilt-Exchanged h r 0 v g pos h₁ h' refl refl s.0, s.1)

    -- `pop_add` on a heap that is not empty puts the result in the place of the root.
    pub pop_add-Exchanged :
        Returns
          (λ h'. Exchanged (at d h.elements 0) r h h' × (h'.docid_hashset ≡ popped d h))
          (pop_add result_ordering h r.score r.doc_id)
    unfolding pop_add
    pop_add-Exchanged =
        let fits : 0 < length h.elements = omega (arith, v.used.room) in
        let written : store h.elements 0 r ≡ ok (set h.elements 0 r) = ground arith in
        rw (get_elem?-at d h.elements 0 fits, written) (heapify_root (popped d h))
