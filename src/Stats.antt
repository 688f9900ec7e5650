-- ===== src/Stats.antt =====
-- The uint64 and int64 arithmetic of pkg/driver/utils.go, and `getVolumeStats` over a statfs answer.
pub mod Laws
use csi_driver_ipfs.Base.{ℕ, ◌-◌, ◌*◌, ◌/◌, ◌%◌, ◌^◌, Bool, ◌||◌, leb, ltb, ◌==◌, if◌then◌else◌}
use csi_driver_ipfs.Driver.{Statfs}

-- math.MaxInt64
abbrev pub max_int64 : ℕ
max_int64 = 2 ^ 63 - 1

abbrev pub uint64_mod : ℕ
uint64_mod = 2 ^ 64

unfoldable pub subtract_uint64_saturating : ℕ → ℕ → ℕ
subtract_uint64_saturating a b = if leb a b then 0 else a - b

unfoldable pub uint64_to_int64_saturating : ℕ → ℕ
uint64_to_int64_saturating v = if ltb max_int64 v then max_int64 else v

-- `a * b` is a uint64 product, which wraps around.
unfoldable pub multiply_uint64_to_int64 : ℕ → ℕ → ℕ
multiply_uint64_to_int64 a b =
    if a == 0 || b == 0
    then 0
    else if ltb (max_int64 / b) a
    then max_int64
    else (a * b) % uint64_mod

pub record VolumeStats : Type 0 where
  pub available_bytes : ℕ
  pub total_bytes : ℕ
  pub used_bytes : ℕ
  pub available_inodes : ℕ
  pub total_inodes : ℕ
  pub used_inodes : ℕ

unfoldable pub stats_of : Statfs → VolumeStats
stats_of stat = record {
  available_bytes = multiply_uint64_to_int64 stat.bavail stat.bsize;
  total_bytes = multiply_uint64_to_int64 stat.blocks stat.bsize;
  used_bytes =
      multiply_uint64_to_int64 (subtract_uint64_saturating stat.blocks stat.bfree) stat.bsize;
  available_inodes = uint64_to_int64_saturating stat.ffree;
  total_inodes = uint64_to_int64_saturating stat.files;
  used_inodes = uint64_to_int64_saturating (subtract_uint64_saturating stat.files stat.ffree);
}
