-- ===== src/Examples.antt =====
-- A driver over a world without state whose calls all succeed, on which the children run the
-- theorems.
mod Creation
mod Removal
mod Serving
mod Stores
mod Client
mod Listening
mod Starting
mod Mirroring
mod Disk
mod Restoring
mod Cycle
mod Caching
use csi_driver_ipfs.Base.{
  ℕ, ◌-◌, ◌^◌, true, false, Option, none, some, List, [], ◌∷◌, Result, ok, err,
}
use csi_driver_ipfs.Base.Int.{pos}
use csi_driver_ipfs.Text.{Text, lit}
use csi_driver_ipfs.Dict.{Dict}
use csi_driver_ipfs.Errors.{Error, external, Op}
use csi_driver_ipfs.Csi.{CreateVolumeRequest, ContentSource}
use csi_driver_ipfs.Store.{VolumeAttributes, VolumeStore, SnapshotEntry, SnapshotStore}
use csi_driver_ipfs.Driver.{Config, IpfsClient, Host, Driver, State, begin}

abbrev pub done : {W : Type 0} → Op W Unit
done w = (ok tt, w)

abbrev pub client : IpfsClient Unit
client = record {
  ping = done;
  stat_cid = λ cid w. (ok true, w);
  get_cid_content = λ cid dest. done;
  pin_cid = λ cid. done;
  unpin_cid = λ cid. done;
  mkdir_mfs = λ path. done;
  rm_mfs = λ path. done;
  export_mfs = λ path dest. done;
  import_to_mfs = λ source path. done;
  resolve_mfs_cid = λ path w. (ok (lit "bafyroot"), w);
  get_repo_stat =
      λ w. (ok (record { repo_size = 7; storage_max = 2 ^ 64 - 1; num_objects = 1 }), w);
}

abbrev pub host : {W : Type 0} → Host W
host = record {
  mkdir_temp = λ w. (ok (lit "/tmp/restore"), w);
  mkdir_all = λ path. done;
  remove_all = λ path. done;
  read_dir = λ path w. (ok (lit "old" ∷ []), w);
  statfs = λ path w. (err (external (lit "no statfs")), w);
  now = λ w. pos 1700000000;
  is_not_exist = λ e. false;
  is_likely_not_mount_point = λ path w. (ok true, w);
  mount = λ source target options. done;
  cleanup_mount_point = λ path. done;
}

abbrev pub config : Text → Config
config root = record {
  driver_name = lit "ipfs.csi";
  node_id = lit "node";
  version = lit "v1";
  mount_dir = lit "/mnt";
  mfs_root = root;
  pin_failure_policy = lit "strict";
}

-- A read-only volume and a read-write volume.
abbrev pub by_cid : VolumeAttributes
by_cid = record {
  volume_id = lit "a";
  capacity = pos 5;
  attributes = (lit "cid", lit "bafy") ∷ (lit "readonly", lit "true") ∷ [];
}

abbrev pub by_path : VolumeAttributes
by_path = record {
  volume_id = lit "b";
  capacity = pos 0;
  attributes = (lit "mfspath", lit "/csi/b") ∷ [];
}

abbrev pub store_of : {W : Type 0} → VolumeAttributes → List VolumeAttributes → VolumeStore W
store_of found all = record {
  get_volume_attributes = λ id w. (ok found, w);
  list_volumes = λ name w. (ok all, w);
}

abbrev pub entry : SnapshotEntry
entry = record {
  snapshot_id = lit "bafy";
  source_volume_id = lit "b";
  ready_to_use = true;
  creation_time = pos 1;
  size_bytes = pos 2;
}

abbrev pub snapshots_are : List SnapshotEntry → SnapshotStore Unit
snapshots_are es = record { list_snapshots = λ name id volume w. (ok es, w) }

abbrev pub driver_of : Text → VolumeStore Unit → Option (SnapshotStore Unit) → Driver Unit
driver_of root volumes snapshots = record {
  cfg = config root;
  ipfs = client;
  volumes = volumes;
  snapshots = snapshots;
  host = host;
}

abbrev pub driver : Driver Unit
driver = driver_of (lit "/csi") (store_of by_path (by_path ∷ [])) none

abbrev pub start : State Unit
start = begin [] tt

abbrev pub request : Dict → Option ContentSource → CreateVolumeRequest
request parameters source = record {
  name = lit "Data";
  parameters = parameters;
  capacity_range = none;
  content_source = source;
}
