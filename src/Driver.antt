-- ===== src/Driver.antt =====
-- pkg/driver/driver.go: the driver, what it calls, and its state. The methods are in Controller,
-- Node and Identity.
pub mod Calls
pub mod Events
use csi_driver_ipfs.Base.{ℕ, Bool, Option, List, [], not, ◌&&◌, ok, err, Result, if◌then◌else◌}
use csi_driver_ipfs.Base.Int.{ℤ}
use csi_driver_ipfs.Text.{Text, lit, is_empty, text_eq}
use csi_driver_ipfs.Errors.{Error, Op}
use csi_driver_ipfs.Store.{VolumeAttributes, VolumeStore, SnapshotEntry, SnapshotStore}
use csi_driver_ipfs.Locks.{VolumeLocks}

abbrev pub param_cid : Text
param_cid = lit "cid"

abbrev pub param_pinning : Text
param_pinning = lit "pinning"

abbrev pub param_mfs_path : Text
param_mfs_path = lit "mfspath"

abbrev pub param_read_only : Text
param_read_only = lit "readonly"

abbrev pub pin_failure_policy_strict : Text
pin_failure_policy_strict = lit "strict"

abbrev pub pin_failure_policy_best_effort : Text
pin_failure_policy_best_effort = lit "best-effort"

pub record Config : Type 0 where
  pub driver_name : Text
  pub node_id : Text
  pub version : Text
  pub mount_dir : Text
  pub mfs_root : Text
  pub pin_failure_policy : Text

-- pkg/ipfs/client.go: RepoStatResult, in uint64.
pub record RepoStat : Type 0 where
  pub repo_size : ℕ
  pub storage_max : ℕ
  pub num_objects : ℕ

-- pkg/ipfs/client.go: the interface Client, as far as the driver calls it.
pub record IpfsClient (W : Type 0) : Type 0 where
  pub ping : Op W Unit
  pub stat_cid : Text → Op W Bool
  pub get_cid_content : Text → Text → Op W Unit
  pub pin_cid : Text → Op W Unit
  pub unpin_cid : Text → Op W Unit
  pub mkdir_mfs : Text → Op W Unit
  pub rm_mfs : Text → Op W Unit
  pub export_mfs : Text → Text → Op W Unit
  pub import_to_mfs : Text → Text → Op W Unit
  pub resolve_mfs_cid : Text → Op W Text
  pub get_repo_stat : Op W RepoStat

-- syscall.Statfs_t: block counts in uint64.
pub record Statfs : Type 0 where
  pub bsize : ℕ
  pub blocks : ℕ
  pub bfree : ℕ
  pub bavail : ℕ
  pub files : ℕ
  pub ffree : ℕ

-- What the driver takes from the operating system, and from k8s.io/mount-utils.
-- `is_likely_not_mount_point` also says whether its error is one of os.IsNotExist.
pub record Host (W : Type 0) : Type 0 where
  pub mkdir_temp : Op W Text
  pub mkdir_all : Text → Op W Unit
  pub remove_all : Text → Op W Unit
  pub read_dir : Text → Op W (List Text)
  pub statfs : Text → Op W Statfs
  pub now : W → ℤ
  pub is_not_exist : Error → Bool
  pub is_likely_not_mount_point : Text → Op W Bool
  pub mount : Text → Text → List Text → Op W Unit
  pub cleanup_mount_point : Text → Op W Unit

pub record Driver (W : Type 0) : Type 0 where
  pub cfg : Config
  pub ipfs : IpfsClient W
  pub volumes : VolumeStore W
  pub snapshots : Option (SnapshotStore W)
  pub host : Host W

pub data ConfigError : Type 0 where
  empty_driver_name empty_node_id invalid_pin_failure_policy : ConfigError

-- `if cfg.PinFailurePolicy == "" { cfg.PinFailurePolicy = pinFailurePolicyStrict }`
abbrev pub default_policy : Text → Text
default_policy policy = if is_empty policy then pin_failure_policy_strict else policy

unfoldable pub new_driver :
    {W : Type 0}
    → Config
    → IpfsClient W
    → VolumeStore W
    → Option (SnapshotStore W)
    → Host W
    → Result ConfigError (Driver W)
new_driver cfg ipfs volumes snapshots host =
    let policy = default_policy cfg.pin_failure_policy in
    if is_empty cfg.driver_name
    then err empty_driver_name
    else if is_empty cfg.node_id
    then err empty_node_id
    else if not (text_eq policy pin_failure_policy_strict)
        && not (text_eq policy pin_failure_policy_best_effort)
    then err invalid_pin_failure_policy
    else ok (record {
      cfg = record cfg { pin_failure_policy = policy };
      ipfs = ipfs;
      volumes = volumes;
      snapshots = snapshots;
      host = host;
    })

-- The calls that a method makes, each with what was answered.
pub data Event : Type 0 where
  pinged : Result Error Unit → Event
  cid_stated : Text → Result Error Bool → Event
  cid_fetched : Text → Text → Result Error Unit → Event
  cid_pinned : Text → Result Error Unit → Event
  cid_unpinned : Text → Result Error Unit → Event
  mfs_made : Text → Result Error Unit → Event
  mfs_removed : Text → Result Error Unit → Event
  mfs_exported : Text → Text → Result Error Unit → Event
  mfs_imported : Text → Text → Result Error Unit → Event
  mfs_resolved : Text → Result Error Text → Event
  repo_stated : Result Error RepoStat → Event
  volume_read : Text → Result Error VolumeAttributes → Event
  volumes_listed : Result Error (List VolumeAttributes) → Event
  snapshots_listed : Text → Text → Result Error (List SnapshotEntry) → Event
  temp_made : Result Error Text → Event
  directory_made : Text → Result Error Unit → Event
  path_removed : Text → Result Error Unit → Event
  directory_read : Text → Result Error (List Text) → Event
  filesystem_stated : Text → Result Error Statfs → Event
  mount_point_tested : Text → Result Error Bool → Event
  mounted : Text → Text → List Text → Result Error Unit → Event
  mount_point_cleaned : Text → Result Error Unit → Event

-- The driver's own state is its lock set. The world is all that answers the calls; `events` lists
-- the calls so far, the last one first, and no method reads it.
pub record State (W : Type 0) : Type 0 where
  pub locks : VolumeLocks
  pub events : List Event
  pub world : W

-- The state in which a method begins.
abbrev pub begin : {W : Type 0} → VolumeLocks → W → State W
begin locks world = record { locks = locks; events = []; world = world }
