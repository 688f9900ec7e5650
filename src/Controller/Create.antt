-- ===== src/Controller/Create.antt =====
-- `CreateVolume` of pkg/driver/controller.go, with `snapshotSourceID` and `restoreSnapshotToMFS`.
pub mod Content
pub mod Outcome
pub mod Default
pub mod Restore
pub mod Again
use csi_driver_ipfs.Base.{
  Bool, true, false, not, ◌&&◌, Option, none, some, List, [], ◌∷◌, ◌++◌, Result, ok, err,
  if◌then◌else◌,
}
use csi_driver_ipfs.Base.Exec.{return, fail, ◌>>=◌, ◌>>◌, or_else, attempt}
use csi_driver_ipfs.Text.{Text, lit, is_empty, text_eq}
use csi_driver_ipfs.Dict.{Dict, get, put}
use csi_driver_ipfs.Sanitize.{sanitize_volume_id, volume_id}
use csi_driver_ipfs.MfsPath.{PathError, slash, normalize_mfs_path}
use csi_driver_ipfs.Errors.{Error}
use csi_driver_ipfs.Csi.{
  Code, invalid_argument, not_found, internal, ContentSource, snapshot, volume, unset,
  CreateVolumeRequest, Volume,
}
use csi_driver_ipfs.Driver.{
  Driver, param_cid, param_pinning, param_mfs_path, param_read_only, pin_failure_policy_best_effort,
}
use csi_driver_ipfs.Driver.Calls
use csi_driver_ipfs.Driver.Calls.{Method, lift, with_lock}
use csi_driver_ipfs.Controller.Capacity.{parse_capacity_from_request, default_capacity_bytes}

-- The empty text where there is no snapshot source.
unfoldable pub snapshot_source_id : Option ContentSource → Result Code Text
snapshot_source_id none = ok []
snapshot_source_id (some (snapshot none)) = err invalid_argument
snapshot_source_id (some (snapshot (some id))) = if is_empty id then err invalid_argument else ok id
snapshot_source_id (some volume) = err invalid_argument
snapshot_source_id (some unset) = err invalid_argument

-- `if err != nil { return status.Error(codes.InvalidArgument, err.Error()) }`
abbrev pub or_invalid : Result PathError Text → Result Code Text
or_invalid (ok path) = ok path
or_invalid (err e) = err invalid_argument

abbrev pub as_internal : Error → Code
as_internal e = internal

-- fmt.Sprintf("%t", b)
abbrev pub bool_text : Bool → Text
bool_text b = if b then lit "true" else lit "false"

-- params[paramPinning] != "false"
unfoldable pub is_pinning_enabled : Dict → Bool
is_pinning_enabled attrs = not (text_eq (get param_pinning attrs) (lit "false"))

-- The volume context: the parameters with the three keys set.
abbrev pub context_of : CreateVolumeRequest → Text → Dict
context_of req mfs_path =
    let cid = get param_cid req.parameters in
    put param_read_only (bool_text (not (is_empty cid)))
      (put param_mfs_path mfs_path (put param_cid cid req.parameters))

abbrev pub volume_of : CreateVolumeRequest → Text → Text → Volume
volume_of req snapshot_id mfs_path = record {
  volume_id = volume_id req.name;
  capacity_bytes = parse_capacity_from_request req.capacity_range default_capacity_bytes;
  volume_context = context_of req mfs_path;
  content_source = if not (is_empty snapshot_id) then some snapshot_id else none;
}

module _ {W : Type 0} (d : Driver W) where
  -- The pin of a read-only volume: a failure is an error, or is passed over under best-effort.
  pin : Text → Method W Unit
  pin cid = do
    pinned ← attempt (Calls.pin_cid d cid)
    elim pinned [
      | ok _ ↦ return tt
      | err e ↦
          if text_eq d.cfg.pin_failure_policy pin_failure_policy_best_effort
          then return tt
          else fail internal
    ]

  -- `case cid != ""`
  prepare_cid : Text → Bool → Method W Unit
  prepare_cid cid pinning = do
    exists ← or_else (Calls.stat_cid d cid) as_internal
    if not exists then fail not_found else if pinning then pin cid else return tt

  -- `case mfsPath != ""` and `default`, which differ in the path that is normalized.
  prepare_mfs : Text → Method W Text
  prepare_mfs raw_path = do
    mfs_path ← lift (or_invalid (normalize_mfs_path raw_path d.cfg.mfs_root))
    or_else (Calls.mkdir_mfs d mfs_path) as_internal
    return mfs_path

  -- The path that a read-write volume asks for.
  abbrev pub raw_mfs_path : CreateVolumeRequest → Text
  raw_mfs_path req =
      if is_empty (get param_mfs_path req.parameters)
      then d.cfg.mfs_root ++ slash ∷ sanitize_volume_id req.name
      else get param_mfs_path req.parameters

  -- The switch over the volume's kind. It returns the MFS path of the volume.
  unfoldable pub prepare : CreateVolumeRequest → Method W Text
  unfolding pin prepare_cid prepare_mfs
  prepare req =
      if not (is_empty (get param_cid req.parameters))
      then (do
        prepare_cid (get param_cid req.parameters) (is_pinning_enabled req.parameters)
        return (get param_mfs_path req.parameters))
      else prepare_mfs (raw_mfs_path req)

  -- The deferred removal of the temporary directory; its error is only logged.
  abbrev pub discard : Text → Result Code Unit → Method W Unit
  discard dir result = do attempt (Calls.remove_all d dir); lift result

  abbrev pub restore_into : Text → Text → Text → Method W Unit
  restore_into snapshot_id dir mfs_path = do
    or_else (Calls.get_cid_content d snapshot_id dir) as_internal
    or_else (Calls.import_to_mfs d dir mfs_path) as_internal

  unfoldable pub restore_snapshot_to_mfs : Text → Text → Method W Unit
  restore_snapshot_to_mfs snapshot_id mfs_path = do
    exists ← or_else (Calls.stat_cid d snapshot_id) as_internal
    if not exists then fail not_found else do
      dir ← or_else (Calls.mkdir_temp d) as_internal
      restored ← attempt (restore_into snapshot_id dir mfs_path)
      discard dir restored

  abbrev pub restore_if : Text → Text → Method W Unit
  restore_if snapshot_id mfs_path =
      if not (is_empty snapshot_id) then restore_snapshot_to_mfs snapshot_id mfs_path else return tt

  -- What runs under the volume's lock.
  unfoldable pub provision : CreateVolumeRequest → Text → Method W Volume
  provision req snapshot_id = do
    mfs_path ← prepare req
    restore_if snapshot_id mfs_path
    return (volume_of req snapshot_id mfs_path)

  unfoldable pub create_volume : CreateVolumeRequest → Method W Volume
  create_volume req = if is_empty req.name then fail invalid_argument else do
    snapshot_id ← lift (snapshot_source_id req.content_source)
    if not (is_empty snapshot_id) && not (is_empty (get param_cid req.parameters))
        then fail invalid_argument
        else with_lock (volume_id req.name) (provision req snapshot_id)
