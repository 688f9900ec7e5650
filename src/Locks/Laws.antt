-- ===== src/Locks/Laws.antt =====
-- What a test of the lock set answers after each method.
use csi_driver_ipfs.Base.{◌≡◌, true, false, ◌||◌, [], ◌∷◌, arith, if◌then◌else◌}
use csi_driver_ipfs.Text.{Text, text_eq, text_eq_iff}
use csi_driver_ipfs.Locks.{VolumeLocks, is_held, try_acquire, release}

pub is_held-release :
    (key k : Text) (locks : VolumeLocks)
    → is_held k (release key locks) ≡ (if text_eq key k then false else is_held k locks)
unfolding is_held release
is_held-release key k [] = ground arith
is_held-release key k (j ∷ locks) =
    ground
      (arith, is_held-release key k locks, text_eq_iff key k, text_eq_iff j key, text_eq_iff j k)

-- A key is held after TryAcquire if it was held before, or is the key that was asked for; the
-- answer is true exactly when that key was free.
pub try_acquire_lem :
    (key k : Text) (locks : VolumeLocks)
    → ((try_acquire key locks).0 ≡ (if is_held key locks then false else true))
      × (is_held k (try_acquire key locks).1 ≡ text_eq key k || is_held k locks)
unfolding try_acquire is_held
try_acquire_lem key k locks = ground (arith, text_eq_iff key k)
