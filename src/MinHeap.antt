-- ===== src/MinHeap.antt =====
-- src/seekstorm/min_heap.rs: the binary heap that keeps the top-k results, the least on top.
-- `elements` is allocated once, and `current_heap_size` of its entries are in use. The hash set is
-- an association list. The order of two results, `result_ordering`, is a parameter here: MinHeap/
-- Sorting.antt has the one of the source.
pub mod Order
pub mod Up
pub mod Down
pub mod Insert
pub mod Replace
pub mod TopK
pub mod Known
use seek_storm.Base.{
  ℕ, zero, suc, ◌+◌, ◌-◌, ◌*◌, ◌/◌, List, [], ◌∷◌, Bool, true, false, not, ◌&&◌, Option, none, some,
  Ordering, Run, ok, panic, out_of_fuel, ◌>>=◌, unwrap, load, store, length, replicate, ltb, ◌==◌,
  if◌then◌else◌,
}
use seek_storm.Base.Order.{is_lt, is_ge, is_gt}

pub record Result (F : Type 0) : Type 0 where
  pub doc_id : ℕ
  pub score : F

pub record MinHeap (F : Type 0) : Type 0 where
  pub elements : List (Result F)
  pub current_heap_size : ℕ
  pub docid_hashset : List (ℕ × F)

abbrev pub get_left_child_index : ℕ → ℕ
get_left_child_index element_index = 2 * element_index + 1

abbrev pub get_right_child_index : ℕ → ℕ
get_right_child_index element_index = 2 * element_index + 2

abbrev pub get_parent_index : ℕ → ℕ
get_parent_index element_index = (element_index - 1) / 2

abbrev pub has_left_child : ℕ → ℕ → Bool
has_left_child size element_index = ltb (get_left_child_index element_index) size

abbrev pub has_right_child : ℕ → ℕ → Bool
has_right_child size element_index = ltb (get_right_child_index element_index) size

abbrev pub is_root : ℕ → Bool
is_root element_index = element_index == 0

module _ {F : Type 0} where
  unfoldable pub new : F → ℕ → MinHeap F
  new zero_score size = record {
    elements = replicate size (record { doc_id = 0; score = zero_score });
    current_heap_size = 0;
    docid_hashset = [];
  }

  -- The map operations that the code calls.
  unfoldable pub get : List (ℕ × F) → ℕ → Option F
  get [] k = none
  get ((j, v) ∷ m) k = if j == k then some v else get m k

  unfoldable pub remove : List (ℕ × F) → ℕ → List (ℕ × F)
  remove [] k = []
  remove ((j, v) ∷ m) k = if j == k then remove m k else (j, v) ∷ remove m k

  abbrev pub is_empty : List (ℕ × F) → Bool
  is_empty [] = true
  is_empty (_ ∷ _) = false

  unfoldable pub swap : List (Result F) → ℕ → ℕ → Run (List (Result F))
  swap elements first_index second_index = do
    x ← load elements first_index
    y ← load elements second_index
    e ← store elements first_index y
    store e second_index x

  -- The search of `add_topk` for an entry with the document, up to the last entry in use:
  -- `index == size - 1` is written `index + 1 == size`, which is the same also where `size - 1` wraps.
  unfoldable pub find_loop : ℕ → List (Result F) → ℕ → ℕ → ℕ → Run (Option ℕ)
  find_loop zero elements size doc_id index = out_of_fuel
  find_loop (suc fuel) elements size doc_id index =
      let rest = find_loop fuel elements size doc_id (index + 1) in
      load elements index >>= λ e.
      if doc_id == e.doc_id then ok (some index) else if index + 1 == size then ok none else rest

-- `result_ordering` may panic, so a comparison is a run.
module _ {F : Type 0} (result_ordering : Result F → Result F → Run Ordering) where
  unfoldable pub heapify_up_loop : ℕ → List (Result F) → ℕ → Run (List (Result F))
  heapify_up_loop zero elements index = out_of_fuel
  heapify_up_loop (suc fuel) elements index =
      let parent_index = get_parent_index index in
      let rise = swap elements parent_index index >>= λ e. heapify_up_loop fuel e parent_index in
      let step : Run (List (Result F)) = do
        x ← load elements index
        y ← load elements parent_index
        o ← result_ordering x y
        if is_lt o then rise else ok elements
      in if is_root index then ok elements else step

  -- The index falls in each round, so its value is fuel enough.
  unfoldable pub heapify_up : MinHeap F → Run (MinHeap F)
  heapify_up h = do
    let index = h.current_heap_size - 1
    e ← heapify_up_loop (index + 1) h.elements index
    ok (record h { elements = e })

  unfoldable pub smaller_index : ℕ → List (Result F) → ℕ → Run ℕ
  smaller_index size elements index =
      if has_right_child size index
      then (do
        right ← load elements (get_right_child_index index)
        left ← load elements (get_left_child_index index)
        o ← result_ordering right left
        ok (if is_lt o then get_right_child_index index else get_left_child_index index))
      else ok (get_left_child_index index)

  unfoldable pub heapify_down_loop : ℕ → ℕ → List (Result F) → ℕ → Run (List (Result F))
  heapify_down_loop zero size elements index = out_of_fuel
  heapify_down_loop (suc fuel) size elements index =
      let step : Run (List (Result F)) = do
        smaller ← smaller_index size elements index
        x ← load elements smaller
        y ← load elements index
        o ← result_ordering x y
        let sink = swap elements smaller index >>= λ e. heapify_down_loop fuel size e smaller
        if is_ge o then ok elements else sink
      in if has_left_child size index then step else ok elements

  -- The distance to the end of the heap falls in each round.
  unfoldable pub heapify_down_index : MinHeap F → ℕ → Run (MinHeap F)
  heapify_down_index h index = do
    e ← heapify_down_loop (h.current_heap_size + 1) h.current_heap_size h.elements index
    ok (record h { elements = e })

  unfoldable pub heapify_down : MinHeap F → Run (MinHeap F)
  heapify_down h = do
    e ← heapify_down_loop (h.current_heap_size + 1) h.current_heap_size h.elements 0
    ok (record h { elements = e })

  unfoldable pub add : MinHeap F → Result F → Run (MinHeap F)
  add h result = do
    e ← store h.elements h.current_heap_size result
    heapify_up (record h { elements = e; current_heap_size = h.current_heap_size + 1 })

  unfoldable pub pop_add : MinHeap F → F → ℕ → Run (MinHeap F)
  pop_add h score doc_id = do
    top ← load h.elements 0
    let rest =
        if is_empty h.docid_hashset then h.docid_hashset else remove h.docid_hashset top.doc_id
    e ← store h.elements 0 (record { doc_id = doc_id; score = score })
    heapify_down (record h { elements = e; docid_hashset = rest })

  -- `add_topk` for a document that the hash set knows: it stands at the root,
  unfoldable pub update_root : MinHeap F → Result F → Result F → Run (MinHeap F × Bool)
  update_root h result root = do
    o ← result_ordering result root
    let replace : Run (MinHeap F × Bool) = do
      e ← store h.elements 0 (record root { score = result.score })
      h' ← heapify_down (record h { elements = e })
      ok (h', true)
    if is_gt o then replace else ok (h, false)

  -- or elsewhere, or no longer anywhere.
  unfoldable pub update_found : MinHeap F → Result F → Option ℕ → Run (MinHeap F × Bool)
  update_found h result none = pop_add h result.score result.doc_id >>= λ h'. ok (h', true)
  update_found h result (some index) = do
    old ← load h.elements index
    e ← store h.elements index (record old { score = result.score })
    h' ← heapify_down_index (record h { elements = e }) index
    ok (h', true)

  unfoldable pub update_other : MinHeap F → Result F → F → Run (MinHeap F × Bool)
  update_other h result known = do
    o ← result_ordering (record { doc_id = result.doc_id; score = known }) result
    let scan = find_loop (length h.elements + 1) h.elements h.current_heap_size result.doc_id 0
    let search = scan >>= λ found. update_found h result found
    if is_ge o then ok (h, false) else search

  -- The last part of `add_topk`: room left, a better result, or neither.
  unfoldable pub insert_new : MinHeap F → Result F → ℕ → Run (MinHeap F × Bool)
  insert_new h result top_k =
      if ltb h.current_heap_size top_k then (add h result >>= λ h'. ok (h', true)) else (do
        root ← load h.elements 0
        o ← result_ordering result root
        let replace = pop_add h result.score result.doc_id >>= λ h'. ok (h', true)
        if is_gt o then replace else ok (h, false))

  -- `add_topk` past its first test, with what the hash set says of the document.
  unfoldable pub known_or_new : MinHeap F → Result F → ℕ → Option F → Run (MinHeap F × Bool)
  known_or_new h result top_k none = insert_new h result top_k
  known_or_new h result top_k (some known) = do
    root ← load h.elements 0
    if root.doc_id == result.doc_id then update_root h result root else update_other h result known

  unfoldable pub add_topk : MinHeap F → Result F → ℕ → Run (MinHeap F × Bool)
  add_topk h result top_k = do
    full ←
        if ltb top_k h.current_heap_size
        then (do root ← load h.elements 0; o ← result_ordering root result; ok (is_ge o))
        else ok false
    if full then ok (h, false) else known_or_new h result top_k (get h.docid_hashset result.doc_id)
