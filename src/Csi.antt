-- ===== src/Csi.antt =====
-- The CSI messages (github.com/container-storage-interface/spec) that the driver reads and writes,
-- and the gRPC status codes it answers with. The wording of a status is left out.
use csi_driver_ipfs.Base.{Bool, Option, List}
use csi_driver_ipfs.Base.Int.{ℤ}
use csi_driver_ipfs.Text.{Text}
use csi_driver_ipfs.Dict.{Dict}

pub data Code : Type 0 where
  invalid_argument not_found internal aborted unimplemented failed_precondition unavailable : Code

pub record CapacityRange : Type 0 where
  pub required_bytes : ℤ
  pub limit_bytes : ℤ

-- The `oneof` of a VolumeContentSource. The snapshot message may be absent.
pub data ContentSource : Type 0 where
  snapshot : Option Text → ContentSource
  volume : ContentSource
  unset : ContentSource

pub record CreateVolumeRequest : Type 0 where
  pub name : Text
  pub parameters : Dict
  pub capacity_range : Option CapacityRange
  pub content_source : Option ContentSource

-- `content_source` is the ID of a snapshot source.
pub record Volume : Type 0 where
  pub volume_id : Text
  pub capacity_bytes : ℤ
  pub volume_context : Dict
  pub content_source : Option Text

pub data AccessMode : Type 0 where
  unknown single_node_writer single_node_reader_only multi_node_reader_only multi_node_single_writer
        multi_node_multi_writer single_node_single_writer single_node_multi_writer :
      AccessMode

-- The parts of a VolumeCapability that the driver reads: the access mode, and the mount flags.
pub record VolumeCapability : Type 0 where
  pub access_mode : Option AccessMode
  pub mount_flags : Option (List Text)

pub record Snapshot : Type 0 where
  pub snapshot_id : Text
  pub source_volume_id : Text
  pub creation_time : Option ℤ
  pub ready_to_use : Bool
  pub size_bytes : ℤ

pub data ControllerCapability : Type 0 where
  create_delete_volume list_volumes get_capacity create_delete_snapshot list_snapshots
        expand_volume :
      ControllerCapability

pub data NodeCapability : Type 0 where
  stage_unstage_volume get_volume_stats expand_volume : NodeCapability
