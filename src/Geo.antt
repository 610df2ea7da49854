-- ===== src/Geo.antt =====
-- src/seekstorm/geo_search.rs: points as Morton codes, distances, and the range of codes that a
-- radius filter reads. A u64 is a number with its wrap-around written out. The branches for CPUs
-- with pdep and pext are calls of intrinsics and are left out; the portable code is modelled.
use seek_storm.Base.{ℕ, ◌*◌, ◌/◌, ◌%◌, ◌^◌, bit_and, bit_or, bit_xor, Ordering}
use seek_storm.Base.Int.{to_signed, from_signed}
use seek_storm.Base.Order.{or_equal}
use seek_storm.Floats.{Floats}

-- `x << k` and `x >> k` on u64.
abbrev pub shl : ℕ → ℕ → ℕ
shl x k = x * 2 ^ k % 2 ^ 64

abbrev pub shr : ℕ → ℕ → ℕ
shr x k = x / 2 ^ k

unfoldable pub encode_morton_64_bit : ℕ → ℕ
encode_morton_64_bit x =
    let x1 = bit_and (bit_or x (shl x 32)) 0x00000000ffffffff in
    let x2 = bit_and (bit_or x1 (shl x1 16)) 0x0000FFFF0000FFFF in
    let x3 = bit_and (bit_or x2 (shl x2 8)) 0x00FF00FF00FF00FF in
    let x4 = bit_and (bit_or x3 (shl x3 4)) 0x0F0F0F0F0F0F0F0F in
    let x5 = bit_and (bit_or x4 (shl x4 2)) 0x3333333333333333 in
    bit_and (bit_or x5 (shl x5 1)) 0x5555555555555555

-- `encode_morton_2_d` behind its conversion of the coordinates to u32.
unfoldable pub interleave : ℕ → ℕ → ℕ
interleave x_u32 y_u32 = bit_or (shl (encode_morton_64_bit y_u32) 1) (encode_morton_64_bit x_u32)

unfoldable pub decode_morton_64_bit : ℕ → ℕ
decode_morton_64_bit code =
    let x = bit_and code 0x5555555555555555 in
    let x1 = bit_and (bit_xor x (shr x 1)) 0x3333333333333333 in
    let x2 = bit_and (bit_xor x1 (shr x1 2)) 0x0F0F0F0F0F0F0F0F in
    let x3 = bit_and (bit_xor x2 (shr x2 4)) 0x00FF00FF00FF00FF in
    let x4 = bit_and (bit_xor x3 (shr x3 8)) 0x0000FFFF0000FFFF in
    bit_and (bit_xor x4 (shr x4 16)) 0x00000000FFFFFFFF

-- The two `as u32` conversions of `decode_morton_2_d`.
unfoldable pub decode_x : ℕ → ℕ
decode_x code = decode_morton_64_bit code % 2 ^ 32

unfoldable pub decode_y : ℕ → ℕ
decode_y code = decode_morton_64_bit (shr code 1) % 2 ^ 32

pub data SortOrder : Type 0 where
  ascending descending : SortOrder

pub data DistanceUnit : Type 0 where
  kilometers miles : DistanceUnit

module _ (floats : Floats) where
  open floats use {
    F64, partial_cmp, of_i32, to_i32, add, sub, mul, div, cos, sqrt, two, ten_million,
    earth_radius_km, earth_radius_mi, deg2rad,
  }

  -- A `Vec<f64>` of latitude and longitude.
  pub record Point : Type 0 where
    pub lat : F64
    pub lon : F64

  unfoldable pub encode_morton_2_d : Point → ℕ
  encode_morton_2_d point =
      let x_u32 = from_signed (2 ^ 31) (to_i32 (mul point.lat ten_million)) in
      let y_u32 = from_signed (2 ^ 31) (to_i32 (mul point.lon ten_million)) in
      interleave x_u32 y_u32

  unfoldable pub decode_morton_2_d : ℕ → Point
  decode_morton_2_d code = record {
    lat = div (of_i32 (to_signed (2 ^ 31) (decode_x code))) ten_million;
    lon = div (of_i32 (to_signed (2 ^ 31) (decode_y code))) ten_million;
  }

  unfoldable pub simplified_distance : Point → Point → F64
  simplified_distance point1 point2 =
      let x =
        mul (sub point2.lon point1.lon) (cos (div (mul deg2rad (add point1.lat point2.lat)) two)) in
      let y = sub point2.lat point1.lat in add (mul x x) (mul y y)

  unfoldable pub morton_ordering : ℕ → ℕ → Point → SortOrder → Ordering
  morton_ordering morton1 morton2 base_point order =
      let distance1 = simplified_distance (decode_morton_2_d morton1) base_point in
      let distance2 = simplified_distance (decode_morton_2_d morton2) base_point in
      elim order [
        | descending ↦ or_equal (partial_cmp distance1 distance2)
        | ascending ↦ or_equal (partial_cmp distance2 distance1)
      ]

  abbrev earth_radius : DistanceUnit → F64
  earth_radius kilometers = earth_radius_km
  earth_radius miles = earth_radius_mi

  unfoldable pub euclidian_distance : Point → Point → DistanceUnit → F64
  euclidian_distance point1 point2 unit =
      let x =
        mul (mul deg2rad (sub point2.lon point1.lon))
          (cos (div (mul deg2rad (add point1.lat point2.lat)) two)) in
      let y = mul deg2rad (sub point2.lat point1.lat) in
      mul (earth_radius unit) (sqrt (add (mul x x) (mul y y)))

  -- The range of codes, from the first to before the second.
  pub record MortonRange : Type 0 where
    pub start : ℕ
    pub stop : ℕ

  unfoldable pub point_distance_to_morton_range : Point → F64 → DistanceUnit → MortonRange
  point_distance_to_morton_range point distance unit =
      let radius = earth_radius unit in
      let lat_delta = div distance (mul deg2rad radius) in
      let lon_delta = div distance (mul (mul deg2rad radius) (cos (mul deg2rad point.lat))) in
      let low : Point = record { lat = sub point.lat lat_delta; lon = sub point.lon lon_delta } in
      let high : Point = record { lat = add point.lat lat_delta; lon = add point.lon lon_delta } in
      record { start = encode_morton_2_d low; stop = encode_morton_2_d high }
