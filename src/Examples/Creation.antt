-- ===== src/Examples/Creation.antt =====
-- The theorems on CreateVolume and CreateSnapshot, at an input.
use csi_driver_ipfs.Controller.Create.Default.{create_volume_default_lem}
use csi_driver_ipfs.Controller.Locking.{locks_restored}
use csi_driver_ipfs.Controller.Delete.{delete_volume, delete_snapshot}
use csi_driver_ipfs.Controller.Create.Again.{create_volume_again}
use csi_driver_ipfs.Base.{◌++◌, ◌≡◌, refl, none, some, [], ◌∷◌, ok, err}
use csi_driver_ipfs.Text.{lit, text_eq, text_eq-false}
use csi_driver_ipfs.Dict.{get}
use csi_driver_ipfs.Csi.{CreateVolumeRequest, Volume, snapshot, invalid_argument}
use csi_driver_ipfs.Locks.{is_held, try_acquire}
use csi_driver_ipfs.Sanitize.{volume_id}
use csi_driver_ipfs.MfsPath.{
  is_abs, split, join, back_up, step, resolve, elements, render, clean, absolute,
  normalize_mfs_path,
}
use csi_driver_ipfs.Text.Prefix.{has_prefix}
use csi_driver_ipfs.Base.Int.{pos}
use csi_driver_ipfs.Driver.{volume_read}
use csi_driver_ipfs.Driver.Calls.{with_lock}
use csi_driver_ipfs.Driver.Events.{confirmed, pinned, made}
use csi_driver_ipfs.Controller.Create.{
  snapshot_source_id, is_pinning_enabled, prepare, restore_snapshot_to_mfs, provision, volume_of,
  create_volume,
}
use csi_driver_ipfs.Controller.Create.Content.{
  confirmed-create_volume, create_volume_pinned, create_volume_read_write, create_volume_context,
}
use csi_driver_ipfs.Controller.Create.Restore.{
  IsTidy, create_volume-IsTidy, create_volume_restored, restored_from,
}
use csi_driver_ipfs.Errors.{Error}
use csi_driver_ipfs.Base.{Result}
use csi_driver_ipfs.Text.{Text}
use csi_driver_ipfs.Driver.{mfs_made}
use csi_driver_ipfs.Controller.Create.Default.{IsDefault}
use csi_driver_ipfs.Controller.Queries.{create_snapshot}
use csi_driver_ipfs.Controller.Queries.Snapshots.{
  snapshot_outcome, snapshot_calls, create_snapshot_found,
}
use csi_driver_ipfs.MfsPath.Under.{IsUnder}
use csi_driver_ipfs.Examples.{driver_of, driver, request, start, by_path, store_of}

abbrev cid_request : CreateVolumeRequest
cid_request = request ((lit "cid", lit "bafy") ∷ []) none

abbrev cid_volume : Volume
cid_volume = volume_of cid_request [] []

cid_created : (create_volume driver cid_request start).0 ≡ ok cid_volume
unfolding create_volume snapshot_source_id with_lock try_acquire is_held provision prepare
    is_pinning_enabled text_eq get
cid_created = refl

confirmed-create_volume_example :
    confirmed (create_volume driver cid_request start).1.events ≡ lit "bafy" ∷ []
unfolding get text_eq
confirmed-create_volume_example =
    confirmed-create_volume driver cid_request [] tt cid_volume cid_created refl

create_volume_pinned_example :
    pinned (create_volume driver cid_request start).1.events ≡ lit "bafy" ∷ []
unfolding get text_eq is_pinning_enabled
create_volume_pinned_example =
    create_volume_pinned driver cid_request [] tt cid_volume cid_created refl refl refl

create_volume_context_example :
    (cid_volume.volume_id ≡ volume_id (lit "Data"))
    × (get (lit "cid") cid_volume.volume_context ≡ get (lit "cid") cid_request.parameters)
    × (get (lit "readonly") cid_volume.volume_context ≡ lit "true")
    × (get (lit "pinning") cid_volume.volume_context ≡ get (lit "pinning") cid_request.parameters)
unfolding get text_eq
create_volume_context_example =
    create_volume_context driver cid_request [] tt cid_volume cid_created (lit "pinning")
      (text_eq-false _ _ refl) (text_eq-false _ _ refl) (text_eq-false _ _ refl)

create_volume-IsTidy_example : IsTidy (create_volume driver cid_request start).1
create_volume-IsTidy_example = create_volume-IsTidy driver cid_request [] tt

abbrev path_request : CreateVolumeRequest
path_request =
    request ((lit "mfspath", lit "/csi/a/../b") ∷ []) (some (snapshot (some (lit "bafy"))))

abbrev path_volume : Volume
path_volume = volume_of path_request (lit "bafy") (lit "/csi/b")

path_created : (create_volume driver path_request start).0 ≡ ok path_volume
unfolding create_volume snapshot_source_id with_lock try_acquire is_held provision prepare
    is_pinning_enabled text_eq get restore_snapshot_to_mfs is_abs split join back_up step resolve
    elements render clean absolute normalize_mfs_path has_prefix
path_created = refl

create_volume_read_write_example :
    (made (create_volume driver path_request start).1.events
      ≡ get (lit "mfspath") path_volume.volume_context ∷ [])
    × IsUnder (lit "/csi") (get (lit "mfspath") path_volume.volume_context)
unfolding get text_eq is_abs
create_volume_read_write_example =
    create_volume_read_write driver path_request [] tt path_volume path_created refl refl

create_volume_restored_example :
    (dir : Text) × (r : Result Error Unit) × ((create_volume driver path_request start).1.events
      ≡ restored_from
          (lit "bafy")
          dir
          (get (lit "mfspath") path_volume.volume_context)
          r
          (mfs_made (get (lit "mfspath") path_volume.volume_context) (ok tt) ∷ []))
    × (path_volume.content_source ≡ some (lit "bafy"))
unfolding snapshot_source_id
create_volume_restored_example =
    create_volume_restored driver path_request [] tt path_volume (lit "bafy") path_created refl refl

abbrev plain_request : CreateVolumeRequest
plain_request = request [] none

plain-IsDefault : IsDefault plain_request
unfolding snapshot_source_id get
plain-IsDefault = record { named = refl; no_source = refl; no_cid = refl; no_path = refl }

create_snapshot_found_example :
    ((create_snapshot driver (lit "snap") (lit "b") start).0
      ≡ snapshot_outcome by_path (lit "b") (ok (lit "bafyroot")) (λ cid. pos 1700000000))
    × ((create_snapshot driver (lit "snap") (lit "b") start).1.events
        ≡ snapshot_calls (lit "/csi/b") (ok (lit "bafyroot")) (λ cid. ok tt)
          ++ volume_read (lit "b") (ok by_path) ∷ [])
unfolding is_held get text_eq
create_snapshot_found_example =
    create_snapshot_found driver (lit "snap") (lit "b") start by_path tt refl refl refl refl
      (ok (lit "bafyroot")) tt refl

locks_restored_example :
    (is_held (lit "other") (create_volume driver cid_request start).1.locks
      ≡ is_held (lit "other") start.locks)
    × (is_held (lit "other") (delete_volume driver (lit "b") start).1.locks
        ≡ is_held (lit "other") start.locks)
    × (is_held (lit "other") (create_snapshot driver (lit "snap") (lit "b") start).1.locks
        ≡ is_held (lit "other") start.locks)
    × (is_held (lit "other") (delete_snapshot driver (lit "b") start).1.locks
        ≡ is_held (lit "other") start.locks)
locks_restored_example =
    locks_restored driver cid_request (lit "snap") (lit "b") (lit "b") start (lit "other")

create_volume_again_example : path_volume ≡ path_volume
create_volume_again_example =
    create_volume_again driver driver path_request [] [] tt tt path_volume path_volume refl
      path_created path_created

create_volume_default_lem_example :
    (create_volume (driver_of (lit "//") (store_of by_path []) none) plain_request start).0
    ≡ err invalid_argument
unfolding is_held is_abs elements resolve split step text_eq
create_volume_default_lem_example =
    create_volume_default_lem (driver_of (lit "//") (store_of by_path []) none) plain_request [] tt
      plain-IsDefault refl refl
