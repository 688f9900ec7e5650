-- ===== src/Controller/Delete.antt =====
-- `DeleteVolume` and `DeleteSnapshot` of pkg/driver/controller.go.
use csi_driver_ipfs.Base.{true, ◌++◌, [], ℕ, Result, ok, err, if◌then◌else◌}
use csi_driver_ipfs.Base.Exec.{return, fail, ◌>>=◌, attempt}
use csi_driver_ipfs.Text.{Text, lit, is_empty}
use csi_driver_ipfs.Errors.{Error, is_pv_not_found, is_snapshot_store_unavailable}
use csi_driver_ipfs.Csi.{invalid_argument, internal, failed_precondition}
use csi_driver_ipfs.Store.{VolumeAttributes}
use csi_driver_ipfs.Driver.{Driver}
use csi_driver_ipfs.Driver.Calls
use csi_driver_ipfs.Driver.Calls.{Method, with_lock}
use csi_driver_ipfs.Controller.References.{
  is_referenced, unpin_logged, cid_reference_usage, cleanup_volume_in_ipfs,
}

module _ {W : Type 0} (d : Driver W) where
  abbrev pub delete_found : Result Error VolumeAttributes → Method W Unit
  delete_found (ok attrs) = cleanup_volume_in_ipfs d attrs
  delete_found (err e) = if is_pv_not_found e then return tt else fail internal

  -- What runs under the volume's lock.
  unfoldable pub delete_locked : Text → Method W Unit
  delete_locked volume_id = do
    attrs ← attempt (Calls.get_volume_attributes d volume_id)
    delete_found attrs

  unfoldable pub delete_volume : Text → Method W Unit
  delete_volume volume_id =
      if is_empty volume_id
      then fail invalid_argument
      else with_lock volume_id (delete_locked volume_id)

  abbrev pub delete_unused : Text → Result Error (ℕ × ℕ) → Method W Unit
  delete_unused snapshot_id (err e) =
      if is_snapshot_store_unavailable e then fail failed_precondition else fail internal
  delete_unused snapshot_id (ok usage) =
      if is_referenced usage then return tt else unpin_logged d snapshot_id

  -- What runs under the snapshot's lock.
  unfoldable pub delete_snapshot_locked : Text → Method W Unit
  delete_snapshot_locked snapshot_id = do
    usage ← attempt (cid_reference_usage d snapshot_id [] true)
    delete_unused snapshot_id usage

  unfoldable pub delete_snapshot : Text → Method W Unit
  delete_snapshot snapshot_id =
      if is_empty snapshot_id
      then fail invalid_argument
      else with_lock (lit "delete-snapshot-" ++ snapshot_id) (delete_snapshot_locked snapshot_id)
