-- ===== src/Stats/Laws.antt =====
-- The saturating operations are the exact ones, cut off at the largest int64.
use native.Mathlib.Nat.{mod-eq_of_lt, add-mul}
use csi_driver_ipfs.Base.{
  ℕ, zero, suc, ◌+◌, ◌-◌, ◌*◌, ◌/◌, ◌≤◌, ◌<◌, min, ◌≡◌, ap, arith, ltb, ltb→lt, Bool-cases, inl,
  inr,
}
use csi_driver_ipfs.Driver.{Statfs}
use csi_driver_ipfs.Stats.{
  max_int64, uint64_mod, subtract_uint64_saturating, uint64_to_int64_saturating,
  multiply_uint64_to_int64, stats_of,
}

pub subtract_uint64_saturating_lem : (a b : ℕ) → subtract_uint64_saturating a b ≡ a - b
unfolding subtract_uint64_saturating
subtract_uint64_saturating_lem a b = ground arith

pub uint64_to_int64_saturating_lem : (v : ℕ) → uint64_to_int64_saturating v ≡ min v max_int64
unfolding uint64_to_int64_saturating
uint64_to_int64_saturating_lem v = ground arith

above_quotient : (m a b : ℕ) → 0 < b → m / b < a → m < a * b
above_quotient m a b h k = grind arith

below_quotient : (m a b : ℕ) → 0 < b → a ≤ m / b → a * b ≤ m
below_quotient m a b h k = grind arith

-- Whatever the two factors, the product is the exact one, cut off at the largest int64: it does not
-- wrap around.
pub multiply_uint64_to_int64_lem : (a b : ℕ) → multiply_uint64_to_int64 a b ≡ min (a * b) max_int64
unfolding multiply_uint64_to_int64
multiply_uint64_to_int64_lem zero b = omega arith
multiply_uint64_to_int64_lem (suc a) zero = ground arith
multiply_uint64_to_int64_lem (suc a) (suc b) = elim (Bool-cases (ltb (max_int64 / suc b) (suc a))) [
  | inl big ↦
      let above = above_quotient max_int64 (suc a) (suc b) (omega arith) (ltb→lt _ _ big) in
      rw big (ground (arith, above))
  | inr small ↦
      let below : suc a * suc b ≤ max_int64 =
        below_quotient max_int64 (suc a) (suc b) (omega arith) (ground (arith, small)) in
      rw small (
        rw (mod-eq_of_lt {n = suc a * suc b} {m = uint64_mod} (omega arith))
          (ground (arith, below)))
]

mul_mono : (a b c : ℕ) → a ≤ b → a * c ≤ b * c
mul_mono a b c h = grind arith

mul_split : (a b c : ℕ) → b ≤ a → (a - b) * c + b * c ≡ a * c
mul_split a b c h = rw (← add-mul (a - b) b c) (ap (λ (n : ℕ). n * c) (omega arith))

ruleset saturating =
    (subtract_uint64_saturating_lem, uint64_to_int64_saturating_lem, multiply_uint64_to_int64_lem)

-- The bytes and inodes of a file system, of any size: no figure passes the largest int64, and no
-- more is used than there is.
pub stats_of_bounds :
    (stat : Statfs)
    → ((stats_of stat).used_bytes ≤ (stats_of stat).total_bytes)
      × ((stats_of stat).total_bytes ≤ max_int64)
      × ((stats_of stat).available_bytes ≤ max_int64)
      × ((stats_of stat).used_inodes ≤ (stats_of stat).total_inodes)
      × ((stats_of stat).total_inodes ≤ max_int64)
      × ((stats_of stat).available_inodes ≤ max_int64)
unfolding stats_of
stats_of_bounds stat =
    simp saturating
      (omega (arith, mul_mono (stat.blocks - stat.bfree) stat.blocks stat.bsize (omega arith)))

-- A file system whose size in bytes and number of inodes fit an int64: the figures are exact, and
-- what is used and what is free make the total.
pub stats_of_exact :
    (stat : Statfs)
    → stat.blocks * stat.bsize ≤ max_int64
    → stat.files ≤ max_int64
    → stat.bfree ≤ stat.blocks
    → stat.bavail ≤ stat.blocks
    → stat.ffree ≤ stat.files
    → ((stats_of stat).total_bytes ≡ stat.blocks * stat.bsize)
      × ((stats_of stat).available_bytes ≡ stat.bavail * stat.bsize)
      × ((stats_of stat).used_bytes + stat.bfree * stat.bsize ≡ (stats_of stat).total_bytes)
      × ((stats_of stat).used_inodes + (stats_of stat).available_inodes
          ≡ (stats_of stat).total_inodes)
unfolding stats_of
stats_of_exact stat bytes inodes free avail ffree = simp saturating (
    omega (
      arith,
      mul_mono stat.bavail stat.blocks stat.bsize avail,
      mul_split stat.blocks stat.bfree stat.bsize free,
    ))

abbrev pub capped : ℕ → ℕ
capped n = min n max_int64

-- The figures of a file system of any size, in uint64 counts that wrap around nowhere: each is the
-- exact figure, cut off at the largest int64. What is used is what is not free, and nothing where
-- more is said to be free than there is.
pub stats_of-capped :
    (stat : Statfs)
    → stats_of stat ≡ record {
      available_bytes = capped (stat.bavail * stat.bsize);
      total_bytes = capped (stat.blocks * stat.bsize);
      used_bytes = capped ((stat.blocks - stat.bfree) * stat.bsize);
      available_inodes = capped stat.ffree;
      total_inodes = capped stat.files;
      used_inodes = capped (stat.files - stat.ffree);
    }
unfolding stats_of
stats_of-capped stat = simp saturating
