-- ===== src/Base/Outcome.antt =====
-- How a call of the Rust code ends: a returned value, a panic, or the model's fuel running out.
use mathlib.Core.Path.{◌≡◌, refl}
use mathlib.Core.Bool.{Bool, true, false}
use mathlib.Core.Option.{Option, none, some}
use mathlib.Core.List.{List}
use Prim.Native.Nat.{ℕ}
use seek_storm.Base.Tests.{ltb, if◌then◌else◌}
use seek_storm.Base.Lists.{length, get_elem?, set}

pub data Run {ℓ} (A : Type ℓ) : Type ℓ where
  ok : A → Run A
  panic out_of_fuel : Run A

infixl 5 ◌>>=◌
abbrev pub ◌>>=◌ {ℓ κ} : {A : Type ℓ} {B : Type κ} → Run A → (A → Run B) → Run B
ok a >>= f = f a
panic >>= f = panic
out_of_fuel >>= f = out_of_fuel

abbrev pub unwrap {ℓ} : {A : Type ℓ} → Option A → Run A
unwrap (some a) = ok a
unwrap none = panic

-- `a[i]` and `a[i] = v` on a slice.
abbrev pub load {ℓ} : {A : Type ℓ} → List A → ℕ → Run A
load a i = unwrap (get_elem? a i)

abbrev pub store {ℓ} : {A : Type ℓ} → List A → ℕ → A → Run (List A)
store a i v = if ltb i (length a) then ok (set a i v) else panic

-- The run returns a value, and the value satisfies `P`: neither a panic nor a lack of fuel.
pub data Returns {ℓ κ} {A : Type ℓ} (P : A → Type κ) : Run A → Type (ℓ ⊔ κ) where
  returns : {v : A} → P v → Returns P (ok v)

pub ok-injective {ℓ} : {A : Type ℓ} {a b : A} → ok a ≡ ok b → a ≡ b
ok-injective e = cc

module _ {ℓ κ} {A : Type ℓ} {P : A → Type κ} where
  -- The value of such a run.
  pub Returns-inv : {m : Run A} → Returns P m → (v : A) × (m ≡ ok v) × P v
  Returns-inv (returns holds) = (_, refl, holds)

  -- Both branches of a test.
  pub Returns-if :
      {yes_run no_run : Run A} (test : Bool)
      → (test ≡ true → Returns P yes_run)
      → (test ≡ false → Returns P no_run)
      → Returns P (if test then yes_run else no_run)
  Returns-if false when_true when_false = when_false refl
  Returns-if true when_true when_false = when_true refl

  -- A weaker condition, and the next step of a chain.
  pub Returns-map {κ'} :
      {Q : A → Type κ'} {m : Run A} → Returns P m → ((v : A) → P v → Q v) → Returns Q m
  Returns-map (returns holds) weaken = returns (weaken _ holds)

  pub Returns-bind {ℓ' κ'} :
      {B : Type ℓ'} {Q : B → Type κ'} {m : Run A} {next : A → Run B}
      → Returns P m
      → ((v : A) → P v → Returns Q (next v))
      → Returns Q (m >>= next)
  Returns-bind (returns holds) rest = rest _ holds
