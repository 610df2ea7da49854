-- ===== src/Floats.antt =====
-- The operations on f32 and f64 that the code calls, as a parameter: the arithmetic of floats is not
-- defined here. `from_bits` is `from_le_bytes` on the number that the bytes stand for, `of_i32` is
-- `as f64`, `to_i32` is `as i32`. `Numbers` is what the Rust documentation says of `partial_cmp`.
use seek_storm.Base.{ℕ, Option, Ordering}
use seek_storm.Base.Int.{ℤ}
use seek_storm.Base.Order.{FloatOrder}

pub record Floats : Type 1 where
  pub F32 : Type 0
  pub f32_from_bits : ℕ → F32
  pub f32_partial_cmp : F32 → F32 → Option Ordering
  pub F64 : Type 0
  pub from_bits : ℕ → F64
  pub partial_cmp : F64 → F64 → Option Ordering
  pub of_i32 : ℤ → F64
  pub to_i32 : F64 → ℤ
  pub add : F64 → F64 → F64
  pub sub : F64 → F64 → F64
  pub mul : F64 → F64 → F64
  pub div : F64 → F64 → F64
  pub cos : F64 → F64
  pub sqrt : F64 → F64
  pub two : F64
  pub ten_million : F64
  pub earth_radius_km : F64
  pub earth_radius_mi : F64
  pub deg2rad : F64

pub record Numbers (floats : Floats) : Type 1 where
  pub f32_order : FloatOrder floats.f32_partial_cmp
  pub f64_order : FloatOrder floats.partial_cmp
