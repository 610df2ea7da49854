-- ===== src/MinHeap/Known.antt =====
-- `add_topk` with a hash set that knows documents: every branch, with what it does to the entries.
use mathlib.Core.List.{Mem}
use mathlib.Core.Path.{subst}
use seek_storm.Base.{
  ℕ, zero, suc, ◌+◌, ◌≤◌, ◌<◌, ◌≡◌, ◌≢◌, ◌⊎◌, refl, ap, Bool, true, false, ◌∙◌, ◌∷◌, Ordering, Run,
  ok, Returns, returns, Returns-if, Returns-bind, Returns-inv, Returns-map, length, length-take,
  set, arith, ltb, ◌==◌, Bool-cases, inl, inr, store, Option, some, none,
}
use seek_storm.Base.Order.{is_ge, is_gt, is_lt}
use seek_storm.Base.Array.{at, at-take, get_elem?-at, mem-at}
use seek_storm.MinHeap.{
  Result, MinHeap, get, find_loop, update_root, update_found, update_other, insert_new,
  known_or_new, add_topk,
}
use seek_storm.MinHeap.Order.{ResultOrder, le, le_of_lt, le_of_not_lt, le_of_not_gt}
use seek_storm.MinHeap.Insert.{kept, IsValid, Holds, add-Holds}
use seek_storm.MinHeap.Replace.{Exchanged, pop_add-Exchanged, heapify_root, heapify_replaced}

module _ {F : Type 0} {result_ordering : Result F → Result F → Run Ordering}
    (order : ResultOrder result_ordering) (d : Result F) where
  open order use {Good, cmp, returns_cmp, swapped}

  -- The hash set tells the truth about a document: an entry in use has it, with that score.
  pub record Tracked (h : MinHeap F) (doc : ℕ) (score : F) : Type 0 where
    pub place : ℕ
    pub in_use : place < h.current_heap_size
    pub found : (at d h.elements place).doc_id ≡ doc
    pub scores :
        (c : ℕ)
        → c < h.current_heap_size
        → (at d h.elements c).doc_id ≡ doc
        → (at d h.elements c).score ≡ score

  abbrev pub Tracks : MinHeap F → Type 0
  Tracks h = (doc : ℕ) (score : F) → get h.docid_hashset doc ≡ some score → Tracked h doc score

  -- The root of a heap, and a document with the score that the hash set has for it.
  abbrev pub root_of : MinHeap F → Result F
  root_of h = at d h.elements 0

  abbrev pub known_as : Result F → F → Result F
  known_as r known = record { doc_id = r.doc_id; score = known }

  -- A call with `r` that leaves the heap as it was, since `r` is not above `old`,
  abbrev pub Refused : MinHeap F → Result F → Result F → MinHeap F → Bool → Type 0
  Refused h r old h' added = (le order r old ≡ true) × (h' ≡ h) × (added ≡ false)

  -- and one that puts `r` in the place of the entry `old`, since it is above it.
  abbrev pub Replaced : MinHeap F → Result F → Result F → MinHeap F → Bool → Type 0
  Replaced h r old h' added =
      (le order r old ≡ false) × Mem old (kept h) × Exchanged order d old r h h' × (added ≡ true)

  -- A document that the hash set does not know is added where there is room, and compared to the root
  -- where there is none; one that it knows is compared to itself, with the score it has there.
  abbrev pub Outcome : MinHeap F → Result F → ℕ → MinHeap F → Bool → Option F → Type 0
  Outcome h r top_k h' added none =
      ((h.current_heap_size < top_k)
        × Holds order d (length h.elements) (h.current_heap_size + 1) (r ∷ kept h) h'
        × (added ≡ true))
      ⊎ ((top_k ≤ h.current_heap_size)
          × (Refused h r (root_of h) h' added ⊎ Replaced h r (root_of h) h' added))
  Outcome h r top_k h' added (some known) =
      Refused h r (known_as r known) h' added ⊎ Replaced h r (known_as r known) h' added

  abbrev pub Changed : MinHeap F → Result F → ℕ → MinHeap F × Bool → Type 0
  Changed h r top_k out =
      ((top_k < h.current_heap_size) × Refused h r (root_of h) out.0 out.1)
      ⊎ Outcome h r top_k out.0 out.1 (get h.docid_hashset r.doc_id)

  mem-kept :
      (h : MinHeap F) (c : ℕ)
      → IsValid order d h
      → c < h.current_heap_size
      → Mem (at d h.elements c) (kept h)
  mem-kept h c v p =
      rw (at-take d h.current_heap_size h.elements c p) at (
        mem-at d (kept h) c
          (omega (arith, v.used.room, length-take h.current_heap_size h.elements)))

  not_le_of_gt : (r s : Result F) → is_gt (cmp r s) ≡ true → le order r s ≡ false
  not_le_of_gt r s p = rw p refl

  not_le_of_lt : (r s : Result F) → is_lt (cmp s r) ≡ true → le order r s ≡ false
  not_le_of_lt r s p = not_le_of_gt r s (swapped r s ∙ p)

  replaced :
      {h h' : MinHeap F} {r old : Result F} (c : ℕ)
      → IsValid order d h
      → c < h.current_heap_size
      → at d h.elements c ≡ old
      → le order r old ≡ false
      → Exchanged order d (at d h.elements c) r h h'
      → Replaced h r old h' true
  replaced {h} {h'} {r} c v p same above e =
      subst (λ old. le order r old ≡ false → Replaced h r old h' true) same
        (λ b. (b, mem-kept h c v p, e, refl)) above

  -- The search finds the first entry in use with the document, if there is one.
  find_loop-some :
      (fuel : ℕ) (h : MinHeap F) (doc c i : ℕ)
      → h.current_heap_size ≤ length h.elements
      → c < h.current_heap_size
      → (at d h.elements c).doc_id ≡ doc
      → i ≤ c
      → c < i + fuel
      → Returns
          (λ o.
            (j : ℕ) × (o ≡ some j) × (j < h.current_heap_size) × ((at d h.elements j).doc_id ≡ doc))
          (find_loop fuel h.elements h.current_heap_size doc i)
  unfolding find_loop
  find_loop-some zero h doc c i room hc e lo f = absurd (omega arith)
  find_loop-some (suc fuel) h doc c i room hc e lo f =
      rw (get_elem?-at d h.elements i (omega arith)) (
        Returns-if (doc == (at d h.elements i).doc_id)
          (λ same. returns (i, refl, omega arith, ground arith))
          (λ other.
            let further : i ≢ c =
              λ q. ground (arith, ap (λ (t : ℕ). (at d h.elements t).doc_id) q) in
            Returns-if (i + 1 == h.current_heap_size) (λ last. absurd (ground arith))
              (λ more. find_loop-some fuel h doc c (i + 1) room hc e (omega arith) (omega arith))))

  module _ (h : MinHeap F) (r : Result F) (v : IsValid order d h) (g : Good r) where
    -- An entry with the same document, and the new score in it, is the new result.
    rescored :
        (c : ℕ)
        → (at d h.elements c).doc_id ≡ r.doc_id
        → record (at d h.elements c) { score = r.score } ≡ r
    rescored c e = λ i. record { doc_id = e i; score = r.score }

    -- A tracked document's entries are the document with the score of the hash set.
    stored :
        (known : F)
        → Tracked h r.doc_id known
        → (c : ℕ) → c < h.current_heap_size
        → (at d h.elements c).doc_id ≡ r.doc_id
        → at d h.elements c ≡ record { doc_id = r.doc_id; score = known }
    stored known t c p e = λ i. record { doc_id = e i; score = t.scores c p e i }

    update_root-Outcome :
        (known : F)
        → root_of h ≡ known_as r known
        → (root_of h).doc_id ≡ r.doc_id
        → 0 < h.current_heap_size
        → Returns
            (λ out.
              Refused h r (known_as r known) out.0 out.1
              ⊎ Replaced h r (known_as r known) out.0 out.1)
            (update_root result_ordering h r (root_of h))
    unfolding update_root
    update_root-Outcome known same e used =
        let fits : 0 < length h.elements = omega (arith, v.used.room) in
        let written : store h.elements 0 r ≡ ok (set h.elements 0 r) = ground arith in
        rw (returns_cmp r (root_of h) g (v.used.good 0 used), rescored 0 e, written)
          (Returns-if (is_gt (cmp r (root_of h)))
            (λ above. Returns-bind (heapify_root order d h r v g used h.docid_hashset) λ h' s.
              returns (
                inr (
                  replaced 0 v used same
                    (subst (λ old. le order r old ≡ false) same (not_le_of_gt r (root_of h) above))
                    s.0)))
            (λ below. returns (
              inl (
                subst (λ old. le order r old ≡ true) same (le_of_not_gt order r (root_of h) below),
                refl,
                refl,
              ))))

    update_other-Outcome :
        (known : F)
        → Tracked h r.doc_id known
        → Returns
            (λ out.
              Refused h r (known_as r known) out.0 out.1
              ⊎ Replaced h r (known_as r known) out.0 out.1)
            (update_other result_ordering h r known)
    unfolding update_other update_found
    update_other-Outcome known t =
        let good_known =
          subst Good (stored known t t.place t.in_use t.found) (v.used.good t.place t.in_use) in
        rw (returns_cmp (known_as r known) r good_known g) (
          Returns-if (is_ge (cmp (known_as r known) r))
            (λ not_better.
              returns (inl (le_of_not_lt order (known_as r known) r (ground arith), refl, refl)))
            (λ better.
              let (o, run, (j, e, hj, same)) = Returns-inv (
                find_loop-some (length h.elements + 1) h r.doc_id t.place 0 v.used.room t.in_use
                  t.found (omega arith) (omega (arith, v.used.room, t.in_use))) in
              let fits : j < length h.elements = omega (arith, v.used.room) in
              let written : store h.elements j r ≡ ok (set h.elements j r) = ground arith in
              let is_known : at d h.elements j ≡ known_as r known = stored known t j hj same in
              let lower : le order (at d h.elements j) r ≡ true =
                rw is_known (le_of_lt order _ r (ground arith)) in
              rw (run, e, get_elem?-at d h.elements j fits, rescored j same, written)
                (Returns-bind (heapify_replaced order d h r j v g hj (inr lower)) λ h' x. returns (
                  inr (
                    replaced j v hj is_known (not_le_of_lt r (known_as r known) (ground arith))
                      x)))))

    insert_new-Outcome :
        (top_k : ℕ)
        → 0 < top_k
        → top_k ≤ length h.elements
        → Returns (λ out. Outcome h r top_k out.0 out.1 none) (insert_new result_ordering h r top_k)
    unfolding insert_new
    insert_new-Outcome top_k pos room =
        Returns-if (ltb h.current_heap_size top_k)
          (λ more.
            Returns-bind (add-Holds order d h r v g (ground arith))
              λ h' s. returns (inl (ground arith, s.0, refl)))
          (λ stop.
            let used : 0 < h.current_heap_size = ground arith in
            let top = root_of h in
            rw
              (
                get_elem?-at d h.elements 0 (omega (arith, v.used.room)),
                returns_cmp r top g (v.used.good 0 used),
              )
              (Returns-if (is_gt (cmp r top))
                (λ above. Returns-bind (pop_add-Exchanged order d h r v g used) λ h' s.
                  returns (
                    inr
                      (ground arith, inr (replaced 0 v used refl (not_le_of_gt r top above) s.0))))
                (λ below.
                  returns (inr (ground arith, inl (le_of_not_gt order r top below, refl, refl))))))

    known_or_new-Outcome :
        (top_k : ℕ) (known : Option F)
        → get h.docid_hashset r.doc_id ≡ known
        → Tracks h
        → 0 < top_k
        → top_k ≤ length h.elements
        → Returns
            (λ out. Outcome h r top_k out.0 out.1 known)
            (known_or_new result_ordering h r top_k known)
    unfolding known_or_new
    known_or_new-Outcome top_k none e t pos room = insert_new-Outcome top_k pos room
    known_or_new-Outcome top_k (some known) e t pos room =
        let tracked = t r.doc_id known e in
        let used : 0 < h.current_heap_size = omega (arith, tracked.in_use) in
        rw (get_elem?-at d h.elements 0 (omega (arith, v.used.room))) (
          Returns-if ((root_of h).doc_id == r.doc_id)
            (λ same.
              update_root-Outcome known (stored known tracked 0 used (ground arith)) (ground arith)
                used)
            (λ other. update_other-Outcome known tracked))

    -- On a valid heap whose hash set has, for each document that it knows, the score of an entry in
    -- use with that document and of every such entry, a call of `add_topk` with a good result and
    -- `0 < top_k ≤` the allocation returns. Either the heap has more than `top_k` entries, the result
    -- is not above the root and the call changes nothing, or the hash set decides. Where it does not
    -- know the document: with fewer than `top_k` entries, the result is one more entry of a valid
    -- heap; with `top_k` or more, it replaces the root if it is above it, and nothing changes if not.
    -- Where it knows the document, the result replaces an entry of that document with the known score
    -- if it is above that one, and nothing changes if not. The call reports `false` where nothing
    -- changes, and `true` else.
    pub add_topk-Changed :
        (top_k : ℕ)
        → Tracks h
        → 0 < top_k
        → top_k ≤ length h.elements
        → Returns (Changed h r top_k) (add_topk result_ordering h r top_k)
    unfolding add_topk
    add_topk-Changed top_k t pos room = elim (Bool-cases (ltb top_k h.current_heap_size)) [
      | inl over ↦
          let used : 0 < h.current_heap_size = ground arith in
          let top = root_of h in
          rw
            (
              over,
              get_elem?-at d h.elements 0 (omega (arith, v.used.room)),
              returns_cmp top r (v.used.good 0 used) g,
            )
            (Returns-if (is_ge (cmp top r))
              (λ full.
                returns (inl (ground arith, (le_of_not_lt order top r (ground arith), refl, refl))))
              (λ not_full.
                Returns-map (known_or_new-Outcome top_k _ refl t pos room) λ out o. inr o))
      | inr under ↦
          rw under (Returns-map (known_or_new-Outcome top_k _ refl t pos room) λ out o. inr o)
    ]
