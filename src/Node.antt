-- ===== src/Node.antt =====
-- pkg/driver/node.go: the node service. Options has the mount options, Content the fetch of a
-- volume's content, and this file the methods.
pub mod Options
pub mod Content
pub mod Staging
pub mod Publishing
pub mod Emptied
pub mod Unstaging
use csi_driver_ipfs.Base.{
  ℕ, Bool, true, false, not, ◌&&◌, Option, List, [], ◌∷◌, ◌++◌, Result, ok, err, if◌then◌else◌,
}
use csi_driver_ipfs.Base.Int.{ℤ}
use csi_driver_ipfs.Base.Exec.{return, fail, ◌>>=◌, ◌>>◌, or_else, attempt}
use csi_driver_ipfs.Text.{Text, lit, is_empty, text_eq}
use csi_driver_ipfs.Dict.{Dict, get}
use csi_driver_ipfs.Errors.{Error}
use csi_driver_ipfs.MfsPath.{slash, clean}
use csi_driver_ipfs.Csi.{
  Code, invalid_argument, internal, CapacityRange, VolumeCapability, NodeCapability,
}
use csi_driver_ipfs.Store.{VolumeAttributes}
use csi_driver_ipfs.Stats.{VolumeStats, stats_of}
use csi_driver_ipfs.Driver.{Driver, param_mfs_path, param_read_only}
use csi_driver_ipfs.Driver.Calls
use csi_driver_ipfs.Driver.Calls.{Method}
use csi_driver_ipfs.Controller.Create.{as_internal}
use csi_driver_ipfs.Controller.Capacity.{parse_capacity_from_request, default_capacity_bytes}
use csi_driver_ipfs.Node.Options.{build_mount_options}
use csi_driver_ipfs.Node.Content.{join_path, fetch_content_to_path}

unfoldable pub build_node_capabilities : List NodeCapability
build_node_capabilities =
    NodeCapability.stage_unstage_volume ∷ NodeCapability.get_volume_stats
    ∷ NodeCapability.expand_volume ∷ []

unfoldable pub node_get_capabilities : {W : Type 0} → Method W (List NodeCapability)
node_get_capabilities = return build_node_capabilities

pub record PublishRequest : Type 0 where
  pub volume_id : Text
  pub target_path : Text
  pub staging_target_path : Text
  pub read_only : Bool
  pub volume_context : Dict
  pub mount_flags : Option (List Text)

unfoldable pub node_expand_volume : {W : Type 0} → Text → Option CapacityRange → Method W ℤ
node_expand_volume volume_path capacity_range =
    if is_empty volume_path
    then fail invalid_argument
    else return (parse_capacity_from_request capacity_range default_capacity_bytes)

-- The MFS path to import into, of what the store answered; empty for none.
unfoldable pub import_path : Result Error VolumeAttributes → Text
import_path (err e) = []
import_path (ok attrs) =
    if text_eq (get param_read_only attrs.attributes) (lit "true")
    then []
    else get param_mfs_path attrs.attributes

module _ {W : Type 0} (d : Driver W) where
  unfoldable pub node_stage_volume : Text → Text → Dict → Method W Unit
  node_stage_volume volume_id staging_path volume_context =
      if is_empty volume_id
      then fail invalid_argument
      else if is_empty staging_path
      then fail invalid_argument
      else do
        or_else (Calls.mkdir_all d staging_path) as_internal
        fetch_content_to_path d volume_context staging_path

  unfoldable pub import_staged : Text → Text → Method W Unit
  import_staged staging_path mfs_path =
      if is_empty mfs_path
      then return tt
      else or_else (Calls.import_to_mfs d staging_path mfs_path) as_internal

  unfoldable pub node_unstage_volume : Text → Text → Method W Unit
  node_unstage_volume volume_id staging_path =
      if is_empty volume_id
      then fail invalid_argument
      else if is_empty staging_path
      then fail invalid_argument
      else do
        attrs ← attempt (Calls.get_volume_attributes d volume_id)
        import_staged staging_path (import_path attrs)
        attempt (Calls.cleanup_mount_point d staging_path)
        return tt

  -- The source to mount: the staging path, or a directory of its own that is filled here.
  unfoldable pub publish_source : PublishRequest → Method W Text
  publish_source req =
      if not (is_empty req.staging_target_path)
      then return req.staging_target_path
      else let source = join_path d.cfg.mount_dir req.volume_id in
        do
          or_else (Calls.mkdir_all d source) as_internal
          fetch_content_to_path d req.volume_context source
          return source

  -- `mounter.IsLikelyNotMountPoint`, where a target that does not exist is made and is none.
  unfoldable pub is_not_mounted : Text → Result Error Bool → Method W Bool
  is_not_mounted target_path (ok not_mounted) = return not_mounted
  is_not_mounted target_path (err e) =
      if not (d.host.is_not_exist e)
      then fail internal
      else do or_else (Calls.mkdir_all d target_path) as_internal; return true

  unfoldable pub mount_source : PublishRequest → Text → Bool → Method W Unit
  mount_source req source not_mounted =
      if not not_mounted
      then return tt
      else or_else
          (Calls.mount d source req.target_path (build_mount_options req.read_only req.mount_flags))
          as_internal

  unfoldable pub node_publish_volume : PublishRequest → Method W Unit
  node_publish_volume req =
      if is_empty req.volume_id
      then fail invalid_argument
      else if is_empty req.target_path
      then fail invalid_argument
      else do
        source ← publish_source req
        or_else (Calls.mkdir_all d req.target_path) as_internal
        tested ← attempt (Calls.is_likely_not_mount_point d req.target_path)
        not_mounted ← is_not_mounted req.target_path tested
        mount_source req source not_mounted

  unfoldable pub node_unpublish_volume : Text → Text → Method W Unit
  node_unpublish_volume volume_id target_path =
      if is_empty volume_id
      then fail invalid_argument
      else if is_empty target_path
      then fail invalid_argument
      else or_else (Calls.cleanup_mount_point d target_path) as_internal

  abbrev pub node_get_info : Method W Text
  node_get_info = return d.cfg.node_id

  -- The two usage entries, in bytes and in inodes, are the fields of the stats.
  unfoldable pub node_get_volume_stats : Text → Text → Method W VolumeStats
  node_get_volume_stats volume_id volume_path =
      if is_empty volume_id
      then fail invalid_argument
      else if is_empty volume_path
      then fail invalid_argument
      else do stat ← or_else (Calls.statfs d volume_path) as_internal; return (stats_of stat)
