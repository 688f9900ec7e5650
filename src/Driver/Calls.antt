-- ===== src/Driver/Calls.antt =====
-- How a method of the driver calls what is outside it, and how it holds a volume lock.
use csi_driver_ipfs.Base.{Bool, List, ◌∷◌, Result, err, if◌then◌else◌}
use csi_driver_ipfs.Base.Exec.{Exec}
use csi_driver_ipfs.Text.{Text}
use csi_driver_ipfs.Csi.{Code, aborted}
use csi_driver_ipfs.Errors.{Error, Op}
use csi_driver_ipfs.Locks.{try_acquire, release}
use csi_driver_ipfs.Store.{VolumeAttributes, SnapshotEntry, SnapshotStore}
use csi_driver_ipfs.Driver

-- A method, and a part of one that fails with a Go error.
abbrev pub Method : Type 0 → Type 0 → Type 0
Method W A = Exec (Driver.State W) Code A

abbrev pub Part : Type 0 → Type 0 → Type 0
Part W A = Exec (Driver.State W) Error A

abbrev pub call : {W A : Type 0} → Op W A → (Result Error A → Driver.Event) → Part W A
call op event s =
    ((op s.world).0, record s { events = event (op s.world).0 ∷ s.events; world = (op s.world).1 })

-- A value that a pure check returned.
abbrev pub lift : {W A : Type 0} → Result Code A → Method W A
lift r s = (r, s)

-- `if !d.volumeLocks.TryAcquire(key) { return Aborted }; defer d.volumeLocks.Release(key)`
abbrev pub released :
    {W A : Type 0} → Text → Result Code A × Driver.State W → Result Code A × Driver.State W
released key (r, s) = (r, record s { locks = release key s.locks })

unfoldable pub with_lock : {W A : Type 0} → Text → Method W A → Method W A
with_lock key body s =
    if (try_acquire key s.locks).0
    then released key (body (record s { locks = (try_acquire key s.locks).1 }))
    else (err aborted, s)

module _ {W : Type 0} (d : Driver.Driver W) where
  abbrev pub ping : Part W Unit
  ping = call d.ipfs.ping Driver.pinged

  abbrev pub stat_cid : Text → Part W Bool
  stat_cid cid = call (d.ipfs.stat_cid cid) (Driver.cid_stated cid)

  abbrev pub get_cid_content : Text → Text → Part W Unit
  get_cid_content cid dest = call (d.ipfs.get_cid_content cid dest) (Driver.cid_fetched cid dest)

  abbrev pub pin_cid : Text → Part W Unit
  pin_cid cid = call (d.ipfs.pin_cid cid) (Driver.cid_pinned cid)

  abbrev pub unpin_cid : Text → Part W Unit
  unpin_cid cid = call (d.ipfs.unpin_cid cid) (Driver.cid_unpinned cid)

  abbrev pub mkdir_mfs : Text → Part W Unit
  mkdir_mfs path = call (d.ipfs.mkdir_mfs path) (Driver.mfs_made path)

  abbrev pub rm_mfs : Text → Part W Unit
  rm_mfs path = call (d.ipfs.rm_mfs path) (Driver.mfs_removed path)

  abbrev pub export_mfs : Text → Text → Part W Unit
  export_mfs path dest = call (d.ipfs.export_mfs path dest) (Driver.mfs_exported path dest)

  abbrev pub import_to_mfs : Text → Text → Part W Unit
  import_to_mfs source path =
      call (d.ipfs.import_to_mfs source path) (Driver.mfs_imported source path)

  abbrev pub resolve_mfs_cid : Text → Part W Text
  resolve_mfs_cid path = call (d.ipfs.resolve_mfs_cid path) (Driver.mfs_resolved path)

  abbrev pub get_repo_stat : Part W Driver.RepoStat
  get_repo_stat = call d.ipfs.get_repo_stat Driver.repo_stated

  abbrev pub get_volume_attributes : Text → Part W VolumeAttributes
  get_volume_attributes id = call (d.volumes.get_volume_attributes id) (Driver.volume_read id)

  abbrev pub list_volumes : Part W (List VolumeAttributes)
  list_volumes = call (d.volumes.list_volumes d.cfg.driver_name) Driver.volumes_listed

  abbrev pub list_snapshots : SnapshotStore W → Text → Text → Part W (List SnapshotEntry)
  list_snapshots store id volume =
      call (store.list_snapshots d.cfg.driver_name id volume) (Driver.snapshots_listed id volume)

  abbrev pub mkdir_temp : Part W Text
  mkdir_temp = call d.host.mkdir_temp Driver.temp_made

  abbrev pub mkdir_all : Text → Part W Unit
  mkdir_all path = call (d.host.mkdir_all path) (Driver.directory_made path)

  abbrev pub remove_all : Text → Part W Unit
  remove_all path = call (d.host.remove_all path) (Driver.path_removed path)

  abbrev pub read_dir : Text → Part W (List Text)
  read_dir path = call (d.host.read_dir path) (Driver.directory_read path)

  abbrev pub statfs : Text → Part W Driver.Statfs
  statfs path = call (d.host.statfs path) (Driver.filesystem_stated path)

  abbrev pub is_likely_not_mount_point : Text → Part W Bool
  is_likely_not_mount_point path =
      call (d.host.is_likely_not_mount_point path) (Driver.mount_point_tested path)

  abbrev pub mount : Text → Text → List Text → Part W Unit
  mount source target options =
      call (d.host.mount source target options) (Driver.mounted source target options)

  abbrev pub cleanup_mount_point : Text → Part W Unit
  cleanup_mount_point path =
      call (d.host.cleanup_mount_point path) (Driver.mount_point_cleaned path)
