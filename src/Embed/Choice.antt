-- ===== src/Embed/Choice.antt =====
-- The positions that a posting is embedded for fit the bits they share out.
use native.Mathlib.Nat.{div-one}
use seek_storm.Base.{
  ℕ, zero, suc, ◌-◌, ◌*◌, ◌/◌, ◌≤◌, ◌<◌, List, [], ◌∷◌, Bool, true, false, ◌&&◌, ◌||◌, length, ltb,
  ◌==◌, if◌then◌else◌, ◌≡◌, refl, sym, ap, ◌∙◌, arith,
}
use seek_storm.Positions.Encode.{AllU16}
use seek_storm.Embed.{
  fits, embed_single, embed_longest, embed_fields, widths_1, widths_2, widths_3, widths_4,
}
use seek_storm.Embed.Pack.{Fits, lt_of_bit_length}

-- The shares of `n` positions in `r` bits.
abbrev shares : ℕ → ℕ → List ℕ
shares r zero = []
shares r (suc n) = (r / suc n) ∷ shares (r - r / suc n) n

length-shares : (r n : ℕ) → length (shares r n) ≡ n
length-shares r zero = refl
length-shares r (suc n) = ap suc (length-shares (r - r / suc n) n)

length-fits : (ws ps : List ℕ) → fits ws ps ≡ true → length ps ≡ length ws
unfolding fits
length-fits [] [] h = refl
length-fits [] (p ∷ ps) h = ground arith
length-fits (w ∷ ws) [] h = ground arith
length-fits (w ∷ ws) (p ∷ ps) h = ap suc (length-fits ws ps (ground arith))

fits-Fits :
    (r p : ℕ) (ps : List ℕ)
    → AllU16 (p ∷ ps)
    → fits (shares r (length (p ∷ ps))) (p ∷ ps) ≡ true
    → Fits r (p ∷ ps)
unfolding fits
fits-Fits r p [] u16 h =
    (lt_of_bit_length 16 p (r / 1) u16.0 (ground arith), omega (arith, div-one r))
fits-Fits r p (q ∷ ps) u16 h = (
  lt_of_bit_length 16 p (r / suc (suc (length ps))) u16.0 (ground arith),
  fits-Fits (r - r / suc (suc (length ps))) q ps u16.1 (ground arith),
)

-- One to `most` positions that fit `r` bits.
abbrev pub Embedded : ℕ → ℕ → List ℕ → Type 0
Embedded r most ps = (1 ≤ length ps) × (length ps ≤ most) × Fits r ps

shared :
    (r n most : ℕ) (ws ps : List ℕ)
    → AllU16 ps
    → ws ≡ shares r (suc n)
    → suc n ≤ most
    → fits ws ps ≡ true
    → Embedded r most ps
shared r n most ws [] u16 e le h = absurd (omega (arith, length-fits ws [] h ∙ ap length e))
shared r n most ws (p ∷ ps) u16 e le h =
    let count : length (p ∷ ps) ≡ suc n =
      length-fits ws (p ∷ ps) h ∙ ap length e ∙ length-shares r (suc n) in
    let same : shares r (length (p ∷ ps)) ≡ ws = ap (shares r) count ∙ sym e in
    (omega arith, omega arith, fits-Fits r p ps u16 (ap (λ w. fits w (p ∷ ps)) same ∙ h))

either : (a b : Bool) {C : Type 0} → (a || b) ≡ true → (a ≡ true → C) → (b ≡ true → C) → C
either true b h f g = f refl
either false b h f g = g h

both : (a b : Bool) → (a && b) ≡ true → (a ≡ true) × (b ≡ true)
both true b h = (refl, h)
both false b h = (h, ground arith)

module _ (ps : List ℕ) (u16 : AllU16 ps) where
  -- One way to share out the bits, before the others.
  way :
      (r n most : ℕ) (ws : List ℕ) (b : Bool)
      → ws ≡ shares r (suc n)
      → suc n ≤ most
      → (b ≡ true → Embedded r most ps)
      → (fits ws ps || b) ≡ true
      → Embedded r most ps
  way r n most ws b e le rest h = either (fits ws ps) b h (shared r n most ws ps u16 e le) rest

  last_way :
      (r n most : ℕ) (ws : List ℕ)
      → ws ≡ shares r (suc n)
      → suc n ≤ most
      → fits ws ps ≡ true
      → Embedded r most ps
  last_way r n most ws e le = shared r n most ws ps u16 e le

  pub embed_single-Embedded :
      (embed_single 2 ps ≡ true → Embedded 14 2 ps) × (embed_single 3 ps ≡ true → Embedded 21 4 ps)
  unfolding embed_single
  embed_single-Embedded = (
    way 14 0 2 (14 ∷ []) _ refl (omega arith) (last_way 14 1 2 (7 ∷ 7 ∷ []) refl (omega arith)),
    way 21 0 4 (21 ∷ []) _ refl (omega arith) (
        way 21 1 4 (10 ∷ 11 ∷ []) _ refl (omega arith) (
          way 21 2 4 (7 ∷ 7 ∷ 7 ∷ []) _ refl (omega arith)
            (last_way 21 3 4 (5 ∷ 5 ∷ 5 ∷ 6 ∷ []) refl (omega arith)))),
  )

  pub embed_longest-Embedded :
      (embed_longest 2 ps ≡ true → Embedded 13 2 ps)
      × (embed_longest 3 ps ≡ true → Embedded 20 4 ps)
  unfolding embed_longest
  embed_longest-Embedded = (
    way 13 0 2 (13 ∷ []) _ refl (omega arith) (last_way 13 1 2 (6 ∷ 7 ∷ []) refl (omega arith)),
    way 20 0 4 (20 ∷ []) _ refl (omega arith) (
        way 20 1 4 (10 ∷ 10 ∷ []) _ refl (omega arith) (
          way 20 2 4 (6 ∷ 7 ∷ 7 ∷ []) _ refl (omega arith)
            (last_way 20 3 4 (5 ∷ 5 ∷ 5 ∷ 5 ∷ []) refl (omega arith)))),
  )

swapped : (r a b : ℕ) → r - b - a ≡ r - a - b
swapped r a b = omega arith

widths-shares :
    (r : ℕ)
    → (widths_1 r ≡ shares r 1)
      × (widths_2 r ≡ shares r 2)
      × (widths_3 r ≡ shares r 3)
      × (widths_4 r ≡ shares r 4)
widths-shares r = (
  rw div-one refl,
  rw div-one refl,
  rw (div-one, swapped r (r / 3) ((r - r / 3) / 2)) refl,
  rw (div-one, swapped r (r / 4) ((r - r / 4) / 3)) refl,
)

module _ (ps : List ℕ) (u16 : AllU16 ps) (nonempty_field_count id_bits : ℕ) where
  abbrev pub most_2 : ℕ
  most_2 = if nonempty_field_count == 1 then 3 else 2

  abbrev pub most_3 : ℕ
  most_3 = if nonempty_field_count == 1 then 4 else 3

  ways_2 :
      (r : ℕ)
      → (fits (widths_1 r) ps
          || (fits (widths_2 r) ps || (nonempty_field_count == 1 && fits (widths_3 r) ps)))
        ≡ true
      → Embedded r most_2 ps
  ways_2 r =
      let w = widths-shares r in
      way ps u16 r 0 most_2 (widths_1 r) _ w.0 (ground arith) (
        way ps u16 r 1 most_2 (widths_2 r) _ w.1 (ground arith) (λ h.
          let one = both _ _ h in last_way ps u16 r 2 most_2 (widths_3 r) w.2 (ground arith) one.1))

  ways_3 :
      (r : ℕ)
      → (fits (widths_1 r) ps
          || (fits (widths_2 r) ps
              || (fits (widths_3 r) ps || (nonempty_field_count == 1 && fits (widths_4 r) ps))))
        ≡ true
      → Embedded r most_3 ps
  ways_3 r =
      let w = widths-shares r in
      way ps u16 r 0 most_3 (widths_1 r) _ w.0 (ground arith) (
        way ps u16 r 1 most_3 (widths_2 r) _ w.1 (ground arith) (
          way ps u16 r 2 most_3 (widths_3 r) _ w.2 (ground arith) (λ h.
            let one = both _ _ h in
            last_way ps u16 r 3 most_3 (widths_4 r) w.3 (ground arith) one.1)))

  pub embed_fields-Embedded :
      (embed_fields 2 nonempty_field_count id_bits ps ≡ true
        → (nonempty_field_count * id_bits < 12)
          × Embedded (12 - nonempty_field_count * id_bits) most_2 ps)
      × (embed_fields 3 nonempty_field_count id_bits ps ≡ true
          → (nonempty_field_count * id_bits < 19)
            × Embedded (19 - nonempty_field_count * id_bits) most_3 ps)
  unfolding embed_fields
  embed_fields-Embedded = (
    λ h.
        let parts = both (ltb (nonempty_field_count * id_bits) 12) _ h in
        (ground arith, ways_2 (12 - nonempty_field_count * id_bits) parts.1),
    λ h.
        let parts = both (ltb (nonempty_field_count * id_bits) 19) _ h in
        (ground arith, ways_3 (19 - nonempty_field_count * id_bits) parts.1),
  )
