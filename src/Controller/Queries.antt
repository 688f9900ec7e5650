-- ===== src/Controller/Queries.antt =====
-- The methods of pkg/driver/controller.go that read, and those that only answer.
pub mod Laws
pub mod Snapshots
use csi_driver_ipfs.Base.{
  ℕ, ◌-◌, ◌*◌, ◌^◌, Bool, true, false, not, ◌&&◌, ◌||◌, Option, none, some, List, [], ◌∷◌, ◌++◌,
  map, Result, ok, err, ltb, leb, if◌then◌else◌,
}
use csi_driver_ipfs.Base.Int.{ℤ, pos, negsuc, is_zero, is_positive}
use csi_driver_ipfs.Base.Exec.{return, fail, ◌>>=◌, ◌>>◌, or_else, attempt}
use csi_driver_ipfs.Text.{Text, lit, is_empty}
use csi_driver_ipfs.Dict.{get}
use csi_driver_ipfs.Errors.{Error, is_pv_not_found}
use csi_driver_ipfs.Csi.{
  Code, invalid_argument, not_found, internal, unimplemented, CapacityRange, AccessMode,
  single_node_writer, single_node_reader_only, multi_node_reader_only, VolumeCapability, Volume,
  Snapshot, ControllerCapability,
}
use csi_driver_ipfs.Store.{VolumeAttributes}
use csi_driver_ipfs.Driver.{Driver, State, RepoStat, param_mfs_path}
use csi_driver_ipfs.Driver.Calls
use csi_driver_ipfs.Driver.Calls.{Method, with_lock}
use csi_driver_ipfs.Controller.Create.{as_internal}
use csi_driver_ipfs.Controller.Capacity.{parse_capacity_from_request}

-- `if errors.Is(err, store.ErrPVNotFound) { return NotFound }; return Internal`
abbrev pub read_error : Error → Code
read_error e = if is_pv_not_found e then not_found else internal

-- The cases of the switch over the access mode.
unfoldable pub is_supported_mode : AccessMode → Bool
is_supported_mode multi_node_reader_only = true
is_supported_mode single_node_writer = true
is_supported_mode single_node_reader_only = true
is_supported_mode _ = false

-- ValidateVolumeCapabilitiesResponse: the capabilities confirmed, if any, or a message that names
-- an access mode.
pub data Validation : Type 0 where
  confirmed : Option (List VolumeCapability) → Validation
  unsupported : AccessMode → Validation

-- The loop over the capabilities. `answer` is what will be confirmed.
unfoldable pub validate_loop :
    List VolumeCapability → Option (List VolumeCapability) → List VolumeCapability → Validation
validate_loop all answer [] = confirmed answer
validate_loop all answer (capability ∷ rest) = elim capability.access_mode [
  | none ↦ validate_loop all answer rest
  | some mode ↦
      let next = validate_loop all (some all) rest in
      if is_supported_mode mode then next else unsupported mode
]

abbrev pub is_nil {ℓ} : {A : Type ℓ} → List A → Bool
is_nil [] = true
is_nil (x ∷ xs) = false

-- int64(v) of a uint64: the bits of a two's complement number.
unfoldable pub to_int64 : ℕ → ℤ
to_int64 v = if ltb v (2 ^ 63) then pos v else negsuc (2 ^ 64 - 1 - v)

unfoldable pub available_capacity : RepoStat → ℤ
available_capacity stat =
    to_int64 (if leb stat.storage_max stat.repo_size then 0 else stat.storage_max - stat.repo_size)

pub record Expansion : Type 0 where
  pub capacity_bytes : ℤ
  pub node_expansion_required : Bool

unfoldable pub build_controller_capabilities : List ControllerCapability
build_controller_capabilities =
    ControllerCapability.create_delete_volume ∷ ControllerCapability.list_volumes
    ∷ ControllerCapability.get_capacity ∷ ControllerCapability.create_delete_snapshot
    ∷ ControllerCapability.list_snapshots ∷ ControllerCapability.expand_volume ∷ []

unfoldable pub controller_get_capabilities : {W : Type 0} → Method W (List ControllerCapability)
controller_get_capabilities = return build_controller_capabilities

unfoldable pub controller_expand_volume :
    {W : Type 0} → Text → Option CapacityRange → Method W Expansion
controller_expand_volume volume_id capacity_range =
    let size_bytes = parse_capacity_from_request capacity_range (pos 0) in
    if is_empty volume_id
    then fail invalid_argument
    else if not (is_positive size_bytes)
    then fail invalid_argument
    else return (record { capacity_bytes = size_bytes; node_expansion_required = true })

unfoldable pub controller_modify_volume : {W : Type 0} → Text → Method W Unit
controller_modify_volume volume_id = if is_empty volume_id then fail invalid_argument else return tt

-- ControllerPublishVolume and ControllerUnpublishVolume.
abbrev pub controller_publish_volume : {W : Type 0} → Method W Unit
controller_publish_volume = fail unimplemented

abbrev pub controller_unpublish_volume : {W : Type 0} → Method W Unit
controller_unpublish_volume = fail unimplemented

-- `sizeBytes := attrs.Capacity; if sizeBytes == 0 { 1 GiB }`
abbrev pub snapshot_size : ℤ → ℤ
snapshot_size capacity = if is_zero capacity then pos (1 * 1024 * 1024 * 1024) else capacity

module _ {W : Type 0} (d : Driver W) where
  unfoldable pub validate_volume_capabilities : Text → List VolumeCapability → Method W Validation
  validate_volume_capabilities volume_id capabilities =
      if is_empty volume_id
      then fail invalid_argument
      else if is_nil capabilities
      then fail invalid_argument
      else do
        or_else (Calls.get_volume_attributes d volume_id) read_error
        return (validate_loop capabilities none capabilities)

  unfoldable pub controller_get_volume : Text → Method W Volume
  controller_get_volume volume_id = if is_empty volume_id then fail invalid_argument else do
    attrs ← or_else (Calls.get_volume_attributes d volume_id) read_error
    return (record {
      volume_id = attrs.volume_id;
      capacity_bytes = attrs.capacity;
      volume_context = attrs.attributes;
      content_source = none;
    })

  unfoldable pub get_capacity : Method W ℤ
  get_capacity = do
    stat ← or_else (Calls.get_repo_stat d) as_internal
    return (available_capacity stat)

  -- timestamppb.Now()
  abbrev now : Method W ℤ
  now s = (ok (d.host.now s.world), s)

  abbrev pub snapshot_path : VolumeAttributes → Text → Method W Snapshot
  snapshot_path attrs source_volume_id =
      let mfs_path = get param_mfs_path attrs.attributes in
      if is_empty mfs_path then fail invalid_argument else do
        cid ← or_else (Calls.resolve_mfs_cid d mfs_path) as_internal
        attempt (Calls.pin_cid d cid)
        time ← now
        return (record {
          snapshot_id = cid;
          source_volume_id = source_volume_id;
          creation_time = some time;
          ready_to_use = true;
          size_bytes = snapshot_size attrs.capacity;
        })

  -- What runs under the snapshot name's lock.
  unfoldable pub create_snapshot_locked : Text → Method W Snapshot
  create_snapshot_locked source_volume_id = do
    attrs ← or_else (Calls.get_volume_attributes d source_volume_id) read_error
    snapshot_path attrs source_volume_id

  unfoldable pub create_snapshot : Text → Text → Method W Snapshot
  create_snapshot name source_volume_id =
      if is_empty name
      then fail invalid_argument
      else if is_empty source_volume_id
      then fail invalid_argument
      else with_lock (lit "snapshot-" ++ name) (create_snapshot_locked source_volume_id)
