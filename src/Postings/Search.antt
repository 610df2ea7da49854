-- ===== src/Postings/Search.antt =====
-- The search among the heads of a block finds a key among keys in strictly ascending order.
use seek_storm.Base.{
  ℕ, zero, suc, ◌+◌, ◌-◌, ◌*◌, ◌/◌, ◌≤◌, ◌<◌, List, Run, ok, Option, none, some, ◌≡◌, ◌≢◌, refl,
  ◌⊎◌, inl, inr, ap, arith, Ordering,
}
use seek_storm.Utils.{read_u64}
use seek_storm.Postings.Head.{key_head_size, search_loop, binary_search}

-- The search is right: it found the place of the key, or there is none.
pub data Finds (key : ℕ → ℕ) (len key_hash : ℕ) : Run (Option ℕ) → Type 0 where
  found : (i : ℕ) → i < len → key i ≡ key_hash → Finds key len key_hash (ok (some i))
  missing : ((i : ℕ) → i < len → key i ≢ key_hash) → Finds key len key_hash (ok none)

Ordering-cases : (o : Ordering) → (o ≡ Ordering.lt) ⊎ ((o ≡ Ordering.eq) ⊎ (o ≡ Ordering.gt))
Ordering-cases Ordering.lt = inl refl
Ordering-cases Ordering.eq = inr (inl refl)
Ordering-cases Ordering.gt = inr (inr refl)

abbrev middle : ℕ → ℕ → ℕ
middle left end = (left + (end - 1)) / 2

-- One turn of the loop.
module _ (byte_array : List ℕ) (fuel key_hash left end pivot : ℕ) where
  turn_over : end ≤ left → search_loop (suc fuel) byte_array key_hash left end ≡ ok none
  unfolding search_loop
  turn_over h = ground arith

  turn_less :
      left < end
      → read_u64 byte_array (middle left end * key_head_size) ≡ ok pivot
      → pivot < key_hash
      → search_loop (suc fuel) byte_array key_hash left end
        ≡ search_loop fuel byte_array key_hash (middle left end + 1) end
  unfolding search_loop
  turn_less h read less = ground arith

  turn_equal :
      left < end
      → read_u64 byte_array (middle left end * key_head_size) ≡ ok pivot
      → pivot ≡ key_hash
      → search_loop (suc fuel) byte_array key_hash left end ≡ ok (some (middle left end))
  unfolding search_loop
  turn_equal h read same = ground arith

  turn_greater :
      left < end
      → read_u64 byte_array (middle left end * key_head_size) ≡ ok pivot
      → key_hash < pivot
      → search_loop (suc fuel) byte_array key_hash left end
        ≡ search_loop fuel byte_array key_hash left (middle left end)
  unfolding search_loop
  turn_greater h read greater = ground arith

-- The tests of one turn.
three_ways : (a b : ℕ) → (a < b) ⊎ ((a ≡ b) ⊎ (b < a))
three_ways a b = omega arith

-- Keys that ascend below `len`.
ascends :
    (key : ℕ → ℕ) (len : ℕ)
    → ((i j : ℕ) → i < j → j < len → key i < key j)
    → (i j : ℕ) → i ≤ j
    → j < len
    → key i ≤ key j
ascends key len sorted i j h k = elim (three_ways i j) [
  | inl below ↦ omega (arith, sorted i j below k)
  | inr (inl same) ↦ omega (arith, ap key same)
  | inr (inr above) ↦ absurd (omega arith)
]

module _ (byte_array : List ℕ) (len : ℕ) (key : ℕ → ℕ) where
  search_loop-Finds :
      (fuel key_hash left end : ℕ)
      → ((i : ℕ) → i < len → read_u64 byte_array (i * key_head_size) ≡ ok (key i))
      → ((i j : ℕ) → i < j → j < len → key i < key j)
      → left ≤ end
      → end ≤ len
      → end < fuel + left
      → ((i : ℕ) → i < left → i < len → key i < key_hash)
      → ((i : ℕ) → end ≤ i → i < len → key_hash < key i)
      → Finds key len key_hash (search_loop fuel byte_array key_hash left end)
  search_loop-Finds zero key_hash left end reads sorted ordered inside enough below above =
      absurd (omega arith)
  search_loop-Finds (suc fuel) key_hash left end reads sorted ordered inside enough below above =
      elim (three_ways left end) [
        | inr over ↦ rw (turn_over byte_array fuel key_hash left end 0 (omega (arith, over))) (
            missing (λ i h e. elim (three_ways i left) [
              | inl low ↦ omega (arith, below i low h, e)
              | inr high ↦ omega (arith, above i (omega (arith, over, high, ordered)) h, e)
            ]))
        | inl more ↦
            let mid = middle left end in
            let inside_mid : mid < len = omega arith in
            let read = reads mid inside_mid in
            elim (three_ways (key mid) key_hash) [
              | inl less ↦
                  rw (turn_less byte_array fuel key_hash left end (key mid) more read less) (
                    search_loop-Finds fuel key_hash (mid + 1) end reads sorted (omega arith) inside
                      (omega arith)
                      (λ i h k.
                        omega (arith, less, ascends key len sorted i mid (omega arith) inside_mid))
                      above)
              | inr (inl same) ↦
                  rw (turn_equal byte_array fuel key_hash left end (key mid) more read same)
                    (found mid inside_mid same)
              | inr (inr greater) ↦
                  rw (turn_greater byte_array fuel key_hash left end (key mid) more read greater) (
                    search_loop-Finds fuel key_hash left mid reads sorted (omega arith)
                      (omega arith) (omega arith) below
                      (λ i h k. omega (arith, greater, ascends key len sorted mid i h k)))
            ]
      ]

  -- Where each of `len` heads begins with its key and the keys ascend strictly, binary_search
  -- returns: the place of the key, or that there is none if no head has it.
  pub binary_search-Finds :
      (key_hash : ℕ)
      → ((i : ℕ) → i < len → read_u64 byte_array (i * key_head_size) ≡ ok (key i))
      → ((i j : ℕ) → i < j → j < len → key i < key j)
      → Finds key len key_hash (binary_search byte_array len key_hash)
  unfolding binary_search
  binary_search-Finds key_hash reads sorted =
      search_loop-Finds (suc len) key_hash 0 len reads sorted (omega arith) (omega arith)
        (omega arith) (λ i h k. absurd (omega arith)) (λ i h k. absurd (omega arith))
