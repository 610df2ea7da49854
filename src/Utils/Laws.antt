-- ===== src/Utils/Laws.antt =====
-- What the readers and writers of utils.rs do: round trips, frames, bounds.
use native.Mathlib.Nat.{pow-suc}
use seek_storm.Base.{
  ℕ, zero, suc, ◌+◌, ◌/◌, ◌%◌, ◌^◌, ◌≤◌, ◌<◌, ◌≡◌, refl, ap, List, ok, length, arith, slice,
  overwrite, At, slice_of_At, At-bound,
}
use seek_storm.Utils.{to_le_bytes, from_le_bytes, write_slice, read_slice, to_array, read_le}

pub length-to_le_bytes : (k v : ℕ) → length (to_le_bytes k v) ≡ k
unfolding to_le_bytes
length-to_le_bytes zero v = refl
length-to_le_bytes (suc k) v = ap suc (length-to_le_bytes k (v / 256))

pub from_le_bytes-to_le_bytes : (k v : ℕ) → v < 256 ^ k → from_le_bytes (to_le_bytes k v) ≡ v
unfolding to_le_bytes from_le_bytes
from_le_bytes-to_le_bytes zero v h = omega arith
from_le_bytes-to_le_bytes (suc k) v h =
    omega
      (arith, pow-suc 256 k, from_le_bytes-to_le_bytes k (v / 256) (omega (arith, pow-suc 256 k)))

pub write_slice-ok :
    (vec8 : List ℕ) (pos : ℕ) (bytes : List ℕ)
    → pos + length bytes ≤ length vec8
    → write_slice vec8 pos bytes ≡ ok (overwrite vec8 pos bytes)
unfolding write_slice
write_slice-ok vec8 pos bytes h = ground arith

-- Where the bytes of `v` stand, the reader of as many bytes returns `v`.
pub read_le-At :
    (vec8 : List ℕ) (pos k v : ℕ)
    → At vec8 pos (to_le_bytes (suc k) v)
    → v < 256 ^ suc k
    → read_le vec8 pos (suc k) ≡ ok v
unfolding read_le read_slice to_array
read_le-At vec8 pos k v a h =
    ground (arith, slices, bound, size, from_le_bytes-to_le_bytes (suc k) v)
  where
    size : length (to_le_bytes (suc k) v) ≡ suc k
    size = length-to_le_bytes (suc k) v

    bound : pos + length (to_le_bytes (suc k) v) ≤ length vec8
    bound = unfold to_le_bytes in At-bound vec8 pos (v % 256) (to_le_bytes k (v / 256)) a

    slices : slice vec8 pos (suc k) ≡ to_le_bytes (suc k) v
    slices = rw size at (slice_of_At vec8 pos (to_le_bytes (suc k) v) a)
