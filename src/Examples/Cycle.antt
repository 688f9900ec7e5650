-- ===== src/Examples/Cycle.antt =====
-- The theorem on the life of a read-write volume, at an input.
use csi_driver_ipfs.Base.{◌≡◌, refl, none, List, [], ◌∷◌, Result, ok}
use csi_driver_ipfs.Base.Int.{pos}
use csi_driver_ipfs.Text.{Text, lit, text_eq}
use csi_driver_ipfs.Text.Prefix.{has_prefix}
use csi_driver_ipfs.Dict.{get, put}
use csi_driver_ipfs.Errors.{Error}
use csi_driver_ipfs.Csi.{CreateVolumeRequest, Volume}
use csi_driver_ipfs.Store.{VolumeAttributes}
use csi_driver_ipfs.Locks.{is_held, try_acquire}
use csi_driver_ipfs.MfsPath.{
  is_abs, split, join, back_up, step, resolve, elements, render, clean, absolute,
  normalize_mfs_path,
}
use csi_driver_ipfs.MfsPath.Under.{IsUnder}
use csi_driver_ipfs.Driver.{
  Driver, mfs_exported, mfs_imported, mount_point_cleaned, volume_read, directory_made,
}
use csi_driver_ipfs.Driver.Calls.{with_lock}
use csi_driver_ipfs.Driver.Events.{made}
use csi_driver_ipfs.Controller.Create.{
  snapshot_source_id, is_pinning_enabled, prepare, provision, volume_of, create_volume,
}
use csi_driver_ipfs.Controller.Delete.{delete_volume}
use csi_driver_ipfs.Controller.Deletion.Volumes.{Deleted}
use csi_driver_ipfs.Node.{import_path, import_staged, node_stage_volume, node_unstage_volume}
use csi_driver_ipfs.Node.Content.{
  fetch_content_to_path, refill, ensure_empty_directory, remove_entries,
}
use csi_driver_ipfs.Node.Staging.{emptied}
use csi_driver_ipfs.Lifecycle.{lifecycle_read_write}
use csi_driver_ipfs.Examples.{driver_of, store_of, request, start}

abbrev asked : CreateVolumeRequest
asked = request ((lit "mfspath", lit "/csi/a/../b") ∷ []) none

abbrev created : Volume
created = volume_of asked [] (lit "/csi/b")

abbrev kept : VolumeAttributes
kept = record {
  volume_id = created.volume_id;
  capacity = pos 0;
  attributes = created.volume_context;
}

abbrev keeper : Driver Unit
keeper = driver_of (lit "/csi") (store_of kept (kept ∷ [])) none

lifecycle_read_write_example :
    (path : Text) × IsUnder (lit "/csi") path
    × (made (create_volume keeper asked start).1.events ≡ path ∷ [])
    × ((entries : List Text) × ((node_stage_volume keeper
            (lit "b")
            (lit "/stage")
            created.volume_context
            start).1.events
          ≡ mfs_exported path (lit "/stage") (ok tt)
            ∷ emptied (lit "/stage") entries (directory_made (lit "/stage") (ok tt) ∷ [])))
    × ((r : Result Error Unit) × ((node_unstage_volume keeper
            (lit "b")
            (lit "/stage")
            start).1.events
          ≡ mount_point_cleaned (lit "/stage") r
            ∷ mfs_imported (lit "/stage") path (ok tt)
            ∷ volume_read (lit "b") (ok kept)
            ∷ []))
    × Deleted (delete_volume keeper (lit "b") start) [] (path ∷ [])
unfolding create_volume snapshot_source_id with_lock try_acquire is_held provision prepare
    is_pinning_enabled text_eq get is_abs split join back_up step resolve elements render clean
    absolute normalize_mfs_path has_prefix node_stage_volume fetch_content_to_path refill
    ensure_empty_directory remove_entries node_unstage_volume import_path import_staged put
lifecycle_read_write_example =
    lifecycle_read_write keeper keeper asked [] [] tt tt tt created kept (lit "b") (lit "/stage")
      start start tt refl refl refl refl refl refl refl refl refl refl
