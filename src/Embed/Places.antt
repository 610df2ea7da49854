-- ===== src/Embed/Places.antt =====
-- The positions that a rank pointer is split into are those that were packed.
use seek_storm.Base.{
  ℕ, ◌+◌, ◌-◌, ◌*◌, ◌/◌, ◌^◌, ◌≤◌, List, [], ◌∷◌, ◌++◌, length, take, ◌≡◌, refl, ap, ◌∙◌, arith,
  ◌==◌, if◌then◌else◌,
}
use seek_storm.Embed.Decode.{positions_1, positions_2, positions_3, positions_4, no_positions}
use seek_storm.Embed.Pack.{packed}
use seek_storm.Embed.Unpack.{unpack, unpack-packed}
use seek_storm.Embed.Choice.{Embedded}

-- Positions as the four of a rank pointer.
abbrev pub four : List ℕ → List ℕ
four positions = take 4 (positions ++ no_positions)

-- `count` positions.
abbrev pub places : ℕ → ℕ → ℕ → List ℕ
places count rank b =
    if count == 1
    then positions_1 rank b
    else if count == 2
    then positions_2 rank b
    else if count == 3
    then positions_3 rank b
    else positions_4 rank b

-- A shift by the bits of the positions that follow.
behind_2 : (b b1 b2 : ℕ) → b2 ≤ b - b1 → b2 + (b - b1 - b2) ≡ b - b1
behind_2 b b1 b2 h = omega arith

behind_3 : (b b1 b2 b3 : ℕ) → b2 ≤ b - b1 → b3 ≤ b - b1 - b2 → b2 + b3 + (b - b1 - b2 - b3) ≡ b - b1
behind_3 b b1 b2 b3 h g = omega arith

module _ (rank b : ℕ) where
  positions_3-unpack : positions_3 rank b ≡ four (unpack b 3 rank)
  unfolding unpack
  positions_3-unpack = rw (behind_2 b (b / 3) ((b - b / 3) / 2) (omega arith)) refl

  positions_4-unpack : positions_4 rank b ≡ four (unpack b 4 rank)
  unfolding unpack
  positions_4-unpack =
      let b1 : ℕ = b / 4 in
      let b2 : ℕ = (b - b1) / 3 in
      let b3 : ℕ = (b - b1 - b2) / 2 in
      rw (behind_3 b b1 b2 b3 (omega arith) (omega arith), behind_2 (b - b1) b2 b3 (omega arith))
        refl

pub places-packed :
    (b x rank : ℕ) (positions : List ℕ)
    → Embedded b 4 positions
    → rank ≡ x * 2 ^ b + packed b positions
    → places (length positions) rank b ≡ four positions
unfolding unpack
places-packed b x rank [] embedded e = absurd (omega (arith, embedded.0))
places-packed b x rank (p ∷ []) embedded e =
    ap (λ k. four (unpack b 1 k)) e ∙ ap four (unpack-packed b x (p ∷ []) embedded.2)
places-packed b x rank (p ∷ q ∷ []) embedded e =
    ap (λ k. four (unpack b 2 k)) e ∙ ap four (unpack-packed b x (p ∷ q ∷ []) embedded.2)
places-packed b x rank (p ∷ q ∷ r ∷ []) embedded e =
    positions_3-unpack rank b
    ∙ ap (λ k. four (unpack b 3 k)) e
    ∙ ap four (unpack-packed b x (p ∷ q ∷ r ∷ []) embedded.2)
places-packed b x rank (p ∷ q ∷ r ∷ s ∷ []) embedded e =
    positions_4-unpack rank b
    ∙ ap (λ k. four (unpack b 4 k)) e
    ∙ ap four (unpack-packed b x (p ∷ q ∷ r ∷ s ∷ []) embedded.2)
places-packed b x rank (p ∷ q ∷ r ∷ s ∷ t ∷ positions) embedded e =
    absurd (omega (arith, embedded.1))
