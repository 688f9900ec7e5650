-- ===== src/Locks.antt =====
-- pkg/driver/lock/volumelocks.go. The mutex makes each method one step; the map is the set of its
-- keys.
pub mod Laws
pub mod Interleaving
pub mod Progress
pub mod Keys
use csi_driver_ipfs.Base.{Bool, true, false, ◌||◌, List, [], ◌∷◌, if◌then◌else◌}
use csi_driver_ipfs.Text.{Text, text_eq}

abbrev pub VolumeLocks : Type 0
VolumeLocks = List Text

-- NewVolumeLocks
abbrev pub new_volume_locks : VolumeLocks
new_volume_locks = []

-- `_, held := vl.locks[key]`
unfoldable pub is_held : Text → VolumeLocks → Bool
is_held key [] = false
is_held key (k ∷ locks) = text_eq k key || is_held key locks

unfoldable pub try_acquire : Text → VolumeLocks → Bool × VolumeLocks
try_acquire key locks = if is_held key locks then (false, locks) else (true, key ∷ locks)

unfoldable pub release : Text → VolumeLocks → VolumeLocks
release key [] = []
release key (k ∷ locks) = let rest = release key locks in if text_eq k key then rest else k ∷ rest
