-- ===== src/MinHeap/Insert.antt =====
-- `add`, `pop_add` and the last part of `add_topk`: what each does to the entries in use.
use mathlib.Core.List.Perm
use seek_storm.Base.{
  ℕ, suc, ◌+◌, ◌-◌, ◌<◌, ◌≡◌, refl, List, ◌∷◌, Perm, Ordering, Run, ok, Returns, returns,
  Returns-bind, Returns-map, length, length-set, set, take, arith, ◌∙◌, ◌==◌, Bool-cases, inl, inr,
  store,
}
use seek_storm.Base.Array.{at, at-set, snoc-perm, take-set_frame, take-suc-at}
use seek_storm.MinHeap.{
  Result, MinHeap, get_parent_index, heapify_up, heapify_down, heapify_down_index, add,
}
use seek_storm.MinHeap.Order.{ResultOrder, IsUsed, IsHeap, Sifted}
use seek_storm.MinHeap.Up.{UpInv, heapify_up_loop_restores}
use seek_storm.MinHeap.Down.{DownInv, heapify_down_loop_restores}

-- The results that the heap holds.
abbrev pub kept : {F : Type 0} → MinHeap F → List (Result F)
kept h = take h.current_heap_size h.elements

module _ {F : Type 0} {result_ordering : Result F → Result F → Run Ordering}
    (order : ResultOrder result_ordering) (d : Result F) where
  open order use {Good, cmp}

  -- The entries in use are good results in heap order.
  pub record IsValid (h : MinHeap F) : Type 0 where
    pub used : IsUsed order d h.current_heap_size h.elements
    pub heap : IsHeap order d h.current_heap_size h.elements

  -- `h'` is a valid heap of `size` entries, which are those of `entries`, in the same allocation.
  pub record Holds (capacity size : ℕ) (entries : List (Result F)) (h' : MinHeap F) : Type 0 where
    pub valid : IsValid h'
    pub size_kept : h'.current_heap_size ≡ size
    pub same : Perm (kept h') entries
    pub allocated : length h'.elements ≡ capacity

  pub set-IsUsed :
      (n : ℕ) (a : List (Result F)) (i : ℕ) (r : Result F)
      → IsUsed order d n a
      → Good r
      → i < length a
      → IsUsed order d n (set a i r)
  set-IsUsed n a i r u g hi = record {
    room = rw length-set u.room;
    good = λ c h. elim (Bool-cases (i == c)) [
      | inl e ↦ rw (at-set d a i c r hi, e) g
      | inr e ↦ rw (at-set d a i c r hi, e) (u.good c h)
    ];
  }

  -- A heap with the entries of `h`, in the same allocation and with the same hash set.
  abbrev pub Rebuilt : MinHeap F → MinHeap F → Type 0
  Rebuilt h h' =
      Holds (length h.elements) h.current_heap_size (kept h) h'
      × (h'.docid_hashset ≡ h.docid_hashset)

  Sifted-Rebuilt :
      (h : MinHeap F) (e : List (Result F))
      → Sifted order d h.current_heap_size h.elements e
      → Rebuilt h (record h { elements = e })
  Sifted-Rebuilt h e s = (
    record {
      valid = record { used = s.used; heap = s.heap };
      size_kept = refl;
      same = s.same;
      allocated = s.kept;
    },
    refl,
  )

  heapify_up-Rebuilt :
      (h : MinHeap F) (i : ℕ)
      → h.current_heap_size ≡ i + 1
      → IsUsed order d h.current_heap_size h.elements
      → UpInv order d h.current_heap_size h.elements i
      → Returns (Rebuilt h) (heapify_up result_ordering h)
  unfolding heapify_up
  heapify_up-Rebuilt h i e u v =
      let last : h.current_heap_size - 1 ≡ i = omega arith in
      rw last (
        Returns-bind
          (heapify_up_loop_restores order d (i + 1) h.current_heap_size h.elements i (omega arith) u
            v)
          λ e s. returns (Sifted-Rebuilt h e s))

  pub heapify_down_index-Rebuilt :
      (h : MinHeap F) (i : ℕ)
      → i < h.current_heap_size
      → IsUsed order d h.current_heap_size h.elements
      → DownInv order d h.current_heap_size h.elements i
      → Returns (Rebuilt h) (heapify_down_index result_ordering h i)
  unfolding heapify_down_index
  heapify_down_index-Rebuilt h i hi u v =
      Returns-bind
        (heapify_down_loop_restores order d (h.current_heap_size + 1) h.current_heap_size h.elements
          i (omega arith) hi u v)
        λ e s. returns (Sifted-Rebuilt h e s)

  pub heapify_down-Rebuilt :
      (h : MinHeap F)
      → 0 < h.current_heap_size
      → IsUsed order d h.current_heap_size h.elements
      → DownInv order d h.current_heap_size h.elements 0
      → Returns (Rebuilt h) (heapify_down result_ordering h)
  unfolding heapify_down
  heapify_down-Rebuilt h pos u v =
      Returns-bind
        (heapify_down_loop_restores order d (h.current_heap_size + 1) h.current_heap_size h.elements
          0 (omega arith) pos u v)
        λ e s. returns (Sifted-Rebuilt h e s)

  module _ (h : MinHeap F) (r : Result F) (v : IsValid h) (g : Good r) where
    -- The heap of `add` before it is put in order.
    abbrev grown : MinHeap F
    grown = record h {
      elements = set h.elements h.current_heap_size r;
      current_heap_size = h.current_heap_size + 1;
    }

    kept-grown : h.current_heap_size < length h.elements → Perm (kept grown) (r ∷ kept h)
    kept-grown room =
        let n = h.current_heap_size in
        let e : n + 1 ≡ suc n = omega arith in
        let top : at d (set h.elements n r) n ≡ r =
          ground (arith, at-set d h.elements n n r room) in
        rw
          (
            e,
            take-suc-at d n (set h.elements n r) (omega (arith, length-set h.elements n r)),
            top,
            take-set_frame n h.elements n r (omega arith),
          )
          (snoc-perm (take n h.elements) r)

    grown-IsUsed :
        h.current_heap_size < length h.elements
        → IsUsed order d (h.current_heap_size + 1) grown.elements
    grown-IsUsed room = record {
      room = omega (arith, length-set h.elements h.current_heap_size r);
      good = λ c q. elim (Bool-cases (h.current_heap_size == c)) [
        | inl e ↦ rw (at-set d h.elements h.current_heap_size c r room, e) g
        | inr e ↦
            rw (at-set d h.elements h.current_heap_size c r room, e) (v.used.good c (ground arith))
      ];
    }

    grown-UpInv :
        h.current_heap_size < length h.elements
        → UpInv order d (h.current_heap_size + 1) grown.elements h.current_heap_size
    grown-UpInv room =
        let new = at-set d h.elements h.current_heap_size in
        record {
          inside = omega arith;
          edges =
              λ c p q s. ground (arith, v.heap c, new c r room, new (get_parent_index c) r room);
          bridged = λ c p q s t. absurd (omega arith);
        }

    -- `add` on a heap with room adds exactly the result.
    pub add-Holds :
        h.current_heap_size < length h.elements
        → Returns
            (λ h'.
              Holds (length h.elements) (h.current_heap_size + 1) (r ∷ kept h) h'
              × (h'.docid_hashset ≡ h.docid_hashset))
            (add result_ordering h r)
    unfolding add
    add-Holds room =
        let written : store h.elements h.current_heap_size r ≡ ok grown.elements = ground arith in
        rw written (
          Returns-map
            (heapify_up-Rebuilt grown h.current_heap_size refl (grown-IsUsed room)
              (grown-UpInv room))
            λ h' (s, hash). (
              record {
                valid = s.valid;
                size_kept = s.size_kept;
                same = Perm.trans s.same (kept-grown room);
                allocated = s.allocated ∙ length-set h.elements h.current_heap_size r;
              },
              hash,
            ))
