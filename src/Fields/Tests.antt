-- ===== src/Fields/Tests.antt =====
-- The round trip of a count of two bytes, in an index with three indexed fields.
use seek_storm.Base.{
  ℕ, ◌≤◌, ◌<◌, List, [], ◌∷◌, true, ok, ◌≡◌, ◌⊎◌, arith, replicate, get_elem?, refl,
}
use seek_storm.Fields.{
  write_field_vec, read_multifield_vec, write_fields, write_field, write_longest,
}
use seek_storm.Fields.RoundTrip.{read_multifield_vec-write_field_vec}

abbrev room : List ℕ
room = replicate 4 0

read_multifield_vec-write_field_vec_example :
    (result : List ℕ) × (q : ℕ) × (write_field_vec room 1 ((2, 300) ∷ []) 3 true 1 2
      ≡ ok (result, q))
    × ((i : ℕ) → (i < 1) ⊎ (q ≤ i) → get_elem? result i ≡ get_elem? room i)
    × (read_multifield_vec 3 2 3 2 [] result 1 ≡ ok ((2, 300) ∷ [], q))
read_multifield_vec-write_field_vec_example =
    read_multifield_vec-write_field_vec 3 2 1 2 3 300 room 1 (omega arith) (omega arith)
      (omega arith)

write_field_vec_bytes :
    write_field_vec room 1 ((2, 300) ∷ []) 3 true 1 2 ≡ ok (0 ∷ 66 ∷ 172 ∷ 0 ∷ [], 3)
unfolding write_field_vec write_fields write_field write_longest
write_field_vec_bytes = refl
