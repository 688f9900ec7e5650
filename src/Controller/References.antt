-- ===== src/Controller/References.antt =====
-- `cidReferenceUsage` and `cleanupVolumeInIPFS` of pkg/driver/utils.go.
pub mod Count
use csi_driver_ipfs.Base.{
  ℕ, zero, ◌+◌, ◌-◌, ◌<◌, Bool, true, false, not, ◌&&◌, ◌||◌, Option, none, some, List, [], ◌∷◌,
  Result, ok, err, length, ltb, if◌then◌else◌,
}
use csi_driver_ipfs.Base.Exec.{return, fail, ◌>>=◌, ◌>>◌, or_else, attempt}
use csi_driver_ipfs.Text.{Text, lit, is_empty, text_eq}
use csi_driver_ipfs.Dict.{get}
use csi_driver_ipfs.Errors.{Error, wrapped, snapshot_store_unavailable}
use csi_driver_ipfs.Store.{VolumeAttributes, SnapshotEntry, SnapshotStore}
use csi_driver_ipfs.Driver.{Driver, param_cid, param_mfs_path, param_read_only}
use csi_driver_ipfs.Driver.Calls
use csi_driver_ipfs.Driver.Calls.{Method, Part}
use csi_driver_ipfs.Controller.Create.{is_pinning_enabled}

-- The tests of the loop, which pass over a volume that does not count.
unfoldable pub is_reference : Text → Text → VolumeAttributes → Bool
is_reference cid excluded_volume_id v =
    not (text_eq v.volume_id excluded_volume_id)
    && not (not (text_eq (get param_cid v.attributes) cid) || not (is_pinning_enabled v.attributes))

unfoldable pub count_references : Text → Text → List VolumeAttributes → ℕ
count_references cid excluded_volume_id [] = 0
count_references cid excluded_volume_id (v ∷ volumes) =
    (if is_reference cid excluded_volume_id v then 1 else 0)
    + count_references cid excluded_volume_id volumes

-- `if excludeOneSnapshot && snapshotRefs > 0 { snapshotRefs-- }`
abbrev pub less_one : Bool → ℕ → ℕ
less_one exclude_one_snapshot refs = if exclude_one_snapshot && ltb 0 refs then refs - 1 else refs

-- volumeRefs > 0 || snapshotRefs > 0
abbrev pub is_referenced : ℕ × ℕ → Bool
is_referenced (volume_refs, snapshot_refs) = ltb 0 volume_refs || ltb 0 snapshot_refs

module _ {W : Type 0} (d : Driver W) where
  abbrev pub snapshot_usage : Option (SnapshotStore W) → Text → Bool → ℕ → Part W (ℕ × ℕ)
  snapshot_usage none cid exclude_one_snapshot volume_refs =
      if exclude_one_snapshot then fail snapshot_store_unavailable else return (volume_refs, 0)
  snapshot_usage (some store) cid exclude_one_snapshot volume_refs = do
    snapshots ← or_else (Calls.list_snapshots d store cid []) wrapped
    return (volume_refs, less_one exclude_one_snapshot (length snapshots))

  unfoldable pub cid_reference_usage : Text → Text → Bool → Part W (ℕ × ℕ)
  cid_reference_usage cid excluded_volume_id exclude_one_snapshot = do
    volumes ← or_else (Calls.list_volumes d) wrapped
    snapshot_usage d.snapshots cid exclude_one_snapshot
        (count_references cid excluded_volume_id volumes)

  -- An unpin whose error is only logged.
  abbrev pub unpin_logged : Text → Method W Unit
  unpin_logged cid = do attempt (Calls.unpin_cid d cid); return tt

  abbrev pub unpin_unless_used : Text → Result Error (ℕ × ℕ) → Method W Unit
  unpin_unless_used cid (err e) = return tt
  unpin_unless_used cid (ok usage) = if is_referenced usage then return tt else unpin_logged cid

  unfoldable pub release_cid : VolumeAttributes → Method W Unit
  release_cid attrs =
      let cid = get param_cid attrs.attributes in
      if not (is_empty cid) && is_pinning_enabled attrs.attributes
      then (do
        usage ← attempt (cid_reference_usage cid attrs.volume_id false)
        unpin_unless_used cid usage)
      else return tt

  unfoldable pub remove_tree : VolumeAttributes → Method W Unit
  remove_tree attrs =
      let mfs_path = get param_mfs_path attrs.attributes in
      let read_only = text_eq (get param_read_only attrs.attributes) (lit "true") in
      if not (is_empty mfs_path) && not read_only
      then (do attempt (Calls.rm_mfs d mfs_path); return tt)
      else return tt

  unfoldable pub cleanup_volume_in_ipfs : VolumeAttributes → Method W Unit
  cleanup_volume_in_ipfs attrs = do release_cid attrs; remove_tree attrs
