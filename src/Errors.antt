-- ===== src/Errors.antt =====
-- Go's error values: what `errors.Is` finds in them, and the text of an error that comes from code
-- outside this repository. The context that `fmt.Errorf("...: %w", err)` puts in front is left out.
use csi_driver_ipfs.Base.{Bool, true, false, Exec.Exec}
use csi_driver_ipfs.Text.{Text}

pub data Error : Type 0 where
  external : Text → Error
  wrapped : Error → Error
  pv_not_found : Error
  snapshot_store_unavailable : Error

-- errors.Is(err, store.ErrPVNotFound)
unfoldable pub is_pv_not_found : Error → Bool
is_pv_not_found (external text) = false
is_pv_not_found (wrapped e) = is_pv_not_found e
is_pv_not_found pv_not_found = true
is_pv_not_found snapshot_store_unavailable = false

-- errors.Is(err, errSnapshotStoreUnavailable)
unfoldable pub is_snapshot_store_unavailable : Error → Bool
is_snapshot_store_unavailable (external text) = false
is_snapshot_store_unavailable (wrapped e) = is_snapshot_store_unavailable e
is_snapshot_store_unavailable pv_not_found = false
is_snapshot_store_unavailable snapshot_store_unavailable = true

-- A call of the world outside, which answers and may change.
abbrev pub Op : Type 0 → Type 0 → Type 0
Op W A = Exec W Error A
