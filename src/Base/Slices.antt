-- ===== src/Base/Slices.antt =====
-- Slices: what `v[a..b]` reads, what `copy_from_slice` writes, and where bytes stand in a buffer.
use Prim.Native.Nat.{ℕ, zero, suc, ◌+◌, ◌≤◌, ◌<◌}
use mathlib.Core.Path.{◌≡◌, refl, ap, ap₂, ◌∙◌, sym}
use mathlib.Core.Logic.{◌⊎◌}
use mathlib.Core.List.{List, [], ◌∷◌, ◌++◌}
use mathlib.Core.Option.{some, some-injective}
use native.Mathlib.Omega.{arith}
use seek_storm.Base.Lists.{length, get_elem?, set, take, drop}

module _ {ℓ} {A : Type ℓ} where
  abbrev pub slice : List A → ℕ → ℕ → List A
  slice xs pos n = take n (drop pos xs)

  unfoldable pub overwrite : List A → ℕ → List A → List A
  overwrite [] pos bs = []
  overwrite (x ∷ xs) (suc pos) bs = x ∷ overwrite xs pos bs
  overwrite (x ∷ xs) zero [] = x ∷ xs
  overwrite (x ∷ xs) zero (b ∷ bs) = b ∷ overwrite xs zero bs

  -- The elements of `bs` stand in `xs` from `pos` on.
  abbrev pub At : List A → ℕ → List A → Type ℓ
  At xs pos [] = Unit
  At xs pos (b ∷ bs) = (get_elem? xs pos ≡ some b) × At xs (suc pos) bs

  pub length-overwrite :
      (xs : List A) (pos : ℕ) (bs : List A) → length (overwrite xs pos bs) ≡ length xs
  unfolding overwrite
  length-overwrite [] pos bs = refl
  length-overwrite (x ∷ xs) (suc pos) bs = ap suc (length-overwrite xs pos bs)
  length-overwrite (x ∷ xs) zero [] = refl
  length-overwrite (x ∷ xs) zero (b ∷ bs) = ap suc (length-overwrite xs zero bs)

  pub overwrite-nil : (xs : List A) (pos : ℕ) → overwrite xs pos [] ≡ xs
  unfolding overwrite
  overwrite-nil [] pos = refl
  overwrite-nil (x ∷ xs) (suc pos) = ap (◌∷◌ x) (overwrite-nil xs pos)
  overwrite-nil (x ∷ xs) zero = refl

  pub set-overwrite : (xs : List A) (pos : ℕ) (b : A) → set xs pos b ≡ overwrite xs pos (b ∷ [])
  unfolding overwrite
  set-overwrite [] pos b = refl
  set-overwrite (x ∷ xs) (suc pos) b = ap (◌∷◌ x) (set-overwrite xs pos b)
  set-overwrite (x ∷ xs) zero b = rw overwrite-nil

  -- Two writes, the second just past the first, are one.
  pub overwrite-append :
      (xs : List A) (pos next : ℕ) (bs cs : List A)
      → next ≡ pos + length bs
      → overwrite (overwrite xs pos bs) next cs ≡ overwrite xs pos (bs ++ cs)
  unfolding overwrite
  overwrite-append [] pos next bs cs e = refl
  overwrite-append (x ∷ xs) (suc pos) zero bs cs e = absurd (omega arith)
  overwrite-append (x ∷ xs) (suc pos) (suc next) bs cs e =
      ap (◌∷◌ x) (overwrite-append xs pos next bs cs (omega arith))
  overwrite-append (x ∷ xs) zero zero [] cs e = refl
  overwrite-append (x ∷ xs) zero (suc next) [] cs e = absurd (omega arith)
  overwrite-append (x ∷ xs) zero zero (b ∷ bs) cs e = absurd (omega arith)
  overwrite-append (x ∷ xs) zero (suc next) (b ∷ bs) cs e =
      ap (◌∷◌ b) (overwrite-append xs zero next bs cs (omega arith))

  -- A write changes nothing before it and nothing behind it.
  pub get_elem?-overwrite_frame :
      (xs : List A) (pos : ℕ) (bs : List A) (i : ℕ)
      → (i < pos) ⊎ (pos + length bs ≤ i)
      → get_elem? (overwrite xs pos bs) i ≡ get_elem? xs i
  unfolding overwrite
  get_elem?-overwrite_frame [] pos bs i h = refl
  get_elem?-overwrite_frame (x ∷ xs) (suc pos) bs zero h = refl
  get_elem?-overwrite_frame (x ∷ xs) (suc pos) bs (suc i) h =
      get_elem?-overwrite_frame xs pos bs i (omega arith)
  get_elem?-overwrite_frame (x ∷ xs) zero [] i h = refl
  get_elem?-overwrite_frame (x ∷ xs) zero (b ∷ bs) zero h = absurd (omega arith)
  get_elem?-overwrite_frame (x ∷ xs) zero (b ∷ bs) (suc i) h =
      get_elem?-overwrite_frame xs zero bs i (omega arith)

  pub At-cons :
      (x : A) (xs : List A) (pos : ℕ) (bs : List A) → At xs pos bs → At (x ∷ xs) (suc pos) bs
  At-cons x xs pos [] h = h
  At-cons x xs pos (b ∷ bs) h = (h.0, At-cons x xs (suc pos) bs h.1)

  pub At-uncons :
      (x : A) (xs : List A) (pos : ℕ) (bs : List A) → At (x ∷ xs) (suc pos) bs → At xs pos bs
  At-uncons x xs pos [] h = h
  At-uncons x xs pos (b ∷ bs) h = (h.0, At-uncons x xs (suc pos) bs h.1)

  pub At-overwrite :
      (xs : List A) (pos : ℕ) (bs : List A)
      → pos + length bs ≤ length xs
      → At (overwrite xs pos bs) pos bs
  unfolding overwrite
  At-overwrite [] pos [] h = tt
  At-overwrite [] pos (b ∷ bs) h = absurd (omega arith)
  At-overwrite (x ∷ xs) (suc pos) bs h =
      At-cons x (overwrite xs pos bs) pos bs (At-overwrite xs pos bs (omega arith))
  At-overwrite (x ∷ xs) zero [] h = tt
  At-overwrite (x ∷ xs) zero (b ∷ bs) h =
      (refl, At-cons b (overwrite xs zero bs) zero bs (At-overwrite xs zero bs (omega arith)))

  pub At-overwrite_frame :
      (xs : List A) (pos : ℕ) (bs : List A) (p : ℕ) (cs : List A)
      → (p + length cs ≤ pos) ⊎ (pos + length bs ≤ p)
      → At xs p cs
      → At (overwrite xs pos bs) p cs
  At-overwrite_frame xs pos bs p [] h a = tt
  At-overwrite_frame xs pos bs p (c ∷ cs) h a = (
    rw (get_elem?-overwrite_frame xs pos bs p (omega arith)) a.0,
    At-overwrite_frame xs pos bs (suc p) cs (omega arith) a.1,
  )

  pub At-append :
      (xs : List A) (pos : ℕ) (bs cs : List A)
      → At xs pos (bs ++ cs)
      → At xs pos bs × At xs (pos + length bs) cs
  At-append xs pos [] cs a = (tt, let e : pos + 0 ≡ pos = omega arith in rw e a)
  At-append xs pos (b ∷ bs) cs a =
      let ih = At-append xs (suc pos) bs cs a.1 in
      let e : pos + suc (length bs) ≡ suc pos + length bs = omega arith in ((a.0, ih.0), rw e ih.1)

  pub At-agree :
      (xs ys : List A) (pos : ℕ) (bs : List A)
      → ((i : ℕ) → pos ≤ i → get_elem? ys i ≡ get_elem? xs i)
      → At xs pos bs
      → At ys pos bs
  At-agree xs ys pos [] same a = tt
  At-agree xs ys pos (b ∷ bs) same a =
      (same pos (omega arith) ∙ a.0, At-agree xs ys (suc pos) bs (λ i h. same i (omega arith)) a.1)

  -- Writing what is there already.
  pub overwrite-same :
      (xs : List A) (pos : ℕ) (bs : List A) → At xs pos bs → overwrite xs pos bs ≡ xs
  unfolding overwrite
  overwrite-same [] pos bs a = refl
  overwrite-same (x ∷ xs) (suc pos) bs a =
      ap (◌∷◌ x) (overwrite-same xs pos bs (At-uncons x xs pos bs a))
  overwrite-same (x ∷ xs) zero [] a = refl
  overwrite-same (x ∷ xs) zero (b ∷ bs) a =
      ap₂ (◌∷◌) (sym (some-injective _ _ a.0))
        (overwrite-same xs zero bs (At-uncons x xs zero bs a.1))

  pub slice_of_At :
      (xs : List A) (pos : ℕ) (bs : List A) → At xs pos bs → slice xs pos (length bs) ≡ bs
  slice_of_At [] pos [] a = refl
  slice_of_At [] pos (b ∷ bs) a = cc
  slice_of_At (x ∷ xs) zero [] a = refl
  slice_of_At (x ∷ xs) zero (b ∷ bs) a =
      ap₂ (◌∷◌) (some-injective _ _ a.0) (slice_of_At xs zero bs (At-uncons x xs zero bs a.1))
  slice_of_At (x ∷ xs) (suc pos) bs a = slice_of_At xs pos bs (At-uncons x xs pos bs a)

  pub At-bound :
      (xs : List A) (pos : ℕ) (b : A) (bs : List A)
      → At xs pos (b ∷ bs)
      → pos + length (b ∷ bs) ≤ length xs
  At-bound [] pos b bs a = cc
  At-bound (x ∷ xs) zero b [] a = omega arith
  At-bound (x ∷ xs) zero b (c ∷ bs) a =
      omega (arith, At-bound xs zero c bs (At-uncons x xs zero (c ∷ bs) a.1))
  At-bound (x ∷ xs) (suc pos) b bs a =
      omega (arith, At-bound xs pos b bs (At-uncons x xs pos (b ∷ bs) a))
