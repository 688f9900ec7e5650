-- ===== src/Store.antt =====
-- pkg/driver/store: the interfaces through which the driver reads PersistentVolumes and
-- VolumeSnapshotContents.
pub mod Volumes
pub mod Snapshots
use csi_driver_ipfs.Base.{Bool, List}
use csi_driver_ipfs.Base.Int.{ℤ}
use csi_driver_ipfs.Text.{Text}
use csi_driver_ipfs.Dict.{Dict}
use csi_driver_ipfs.Errors.{Op}

pub record VolumeAttributes : Type 0 where
  pub volume_id : Text
  pub capacity : ℤ
  pub attributes : Dict

pub record VolumeStore (W : Type 0) : Type 0 where
  pub get_volume_attributes : Text → Op W VolumeAttributes
  pub list_volumes : Text → Op W (List VolumeAttributes)

pub record SnapshotEntry : Type 0 where
  pub snapshot_id : Text
  pub source_volume_id : Text
  pub ready_to_use : Bool
  pub creation_time : ℤ
  pub size_bytes : ℤ

-- `list_snapshots driver_name snapshot_id source_volume_id`
pub record SnapshotStore (W : Type 0) : Type 0 where
  pub list_snapshots : Text → Text → Text → Op W (List SnapshotEntry)
