-- ===== src/Examples/Removal.antt =====
-- The theorems on DeleteVolume, DeleteSnapshot and the lock set, at an input.
use csi_driver_ipfs.Locks.Keys.{keys, calls_commute}
use csi_driver_ipfs.Locks.Progress.{Ends, Reach_progress}
use csi_driver_ipfs.Locks.Interleaving.{Holder}
use csi_driver_ipfs.Base.{true, ◌⊎◌}
use csi_driver_ipfs.Base.{◌≡◌, refl, inl, inr, none, some, [], ◌∷◌, arith}
use csi_driver_ipfs.Text.{Text, lit, text_eq, text_eq-false}
use csi_driver_ipfs.Dict.{get}
use csi_driver_ipfs.Store.{VolumeAttributes}
use csi_driver_ipfs.Locks.{is_held, try_acquire, release}
use csi_driver_ipfs.Locks.Interleaving.{
  System, Reach, start, next, enter, turned_away, leave, IsConsistent, Reach-IsConsistent,
}
use csi_driver_ipfs.Driver.{Driver}
use csi_driver_ipfs.Driver.Events.{unpinned, removed}
use csi_driver_ipfs.Controller.Create.{is_pinning_enabled}
use csi_driver_ipfs.Controller.Delete.{delete_volume, delete_snapshot}
use csi_driver_ipfs.Controller.References.Count.{References}
use csi_driver_ipfs.Controller.Deletion.Usage.{by_volume, by_volumes, by_both, by_snapshot}
use csi_driver_ipfs.Controller.Deletion.Volumes.{
  Deleted, delete_volume_in_use, delete_volume_unused,
}
use csi_driver_ipfs.Controller.Deletion.Snapshots.{delete_snapshot_in_use, delete_snapshot_unused}
use csi_driver_ipfs.Examples.{driver_of, driver, store_of, by_cid, by_path, entry, snapshots_are}
use csi_driver_ipfs.Examples as Toy

-- A second volume with the CID of the first.
abbrev twin : VolumeAttributes
twin = record by_cid { volume_id = lit "c" }

abbrev shared : Driver Unit
shared = driver_of (lit "/csi") (store_of by_cid (by_cid ∷ twin ∷ [])) none

twin-References : References (lit "bafy") (lit "a") twin
unfolding get text_eq
twin-References = record {
  other = text_eq-false _ _ refl;
  same_cid = refl;
  pinned = text_eq-false _ _ refl;
}

delete_volume_in_use_example : Deleted (delete_volume shared (lit "a") Toy.start) [] []
unfolding is_held get text_eq
delete_volume_in_use_example =
    delete_volume_in_use shared (lit "a") [] tt by_cid tt refl refl refl
      (by_volume (by_cid ∷ twin ∷ []) tt refl (inr (inl twin-References)))

abbrev alone : Driver Unit
alone = driver_of (lit "/csi") (store_of by_cid (by_cid ∷ by_path ∷ [])) none

delete_volume_unused_example :
    Deleted (delete_volume alone (lit "a") Toy.start) (lit "bafy" ∷ []) []
unfolding is_held get text_eq is_pinning_enabled
delete_volume_unused_example =
    delete_volume_unused alone (lit "a") [] tt by_cid tt refl refl refl refl refl (
      by_volumes (by_cid ∷ by_path ∷ []) tt refl
        (
          (λ r. r.other refl),
          (
            (λ r. text_eq-false (get (lit "cid") by_path.attributes) (lit "bafy") refl r.same_cid),
            tt,
          ),
        )
        refl refl)

-- Two snapshots with one CID.
abbrev two_owners : Driver Unit
two_owners =
    driver_of (lit "/csi") (store_of by_path []) (some (snapshots_are (entry ∷ entry ∷ [])))

delete_snapshot_in_use_example :
    (unpinned (delete_snapshot two_owners (lit "bafy") Toy.start).1.events ≡ [])
    × (removed (delete_snapshot two_owners (lit "bafy") Toy.start).1.events ≡ [])
unfolding is_held
delete_snapshot_in_use_example = delete_snapshot_in_use two_owners (lit "bafy") [] tt refl refl (
    by_snapshot [] tt (snapshots_are (entry ∷ entry ∷ [])) (entry ∷ entry ∷ []) tt refl refl refl
      (omega arith))

abbrev last_owner : Driver Unit
last_owner = driver_of (lit "/csi") (store_of by_path []) (some (snapshots_are (entry ∷ [])))

delete_snapshot_unused_example :
    Deleted (delete_snapshot last_owner (lit "bafy") Toy.start) (lit "bafy" ∷ []) []
unfolding is_held
delete_snapshot_unused_example =
    delete_snapshot_unused last_owner (lit "bafy") [] tt refl refl
      (by_both [] tt (snapshots_are (entry ∷ [])) (entry ∷ []) tt refl tt refl refl (omega arith))

-- A call takes a key, a second one is turned away, and the first one ends.
abbrev busy_key : Text
busy_key = lit "ipfs-volume-data"

abbrev taken : System
taken = record { locks = busy_key ∷ []; holders = record { call = 1; key = busy_key } ∷ [] }

abbrev freed : System
freed = record { locks = release busy_key (busy_key ∷ []); holders = [] }

entered : Reach taken
unfolding try_acquire is_held
entered = next start (enter 1 busy_key refl refl)

refused : Reach taken
unfolding try_acquire is_held text_eq
refused = next entered (turned_away 2 busy_key refl refl)

Reach-IsConsistent_example : IsConsistent freed
Reach-IsConsistent_example =
    Reach-IsConsistent (next refused (leave [] (record { call = 1; key = busy_key }) [] refl refl))

Reach_progress_example :
    ((try_acquire busy_key taken.locks).0 ≡ true)
    ⊎ ((h : Holder) × (t : System) × (h.key ≡ busy_key)
        × Ends h taken t
        × ((try_acquire busy_key t.locks).0 ≡ true))
Reach_progress_example = Reach_progress busy_key refused

calls_commute_example :
    ((try_acquire (lit "b") (try_acquire busy_key taken.locks).1).0
      ≡ (try_acquire (lit "b") taken.locks).0)
    × ((try_acquire (lit "b") (release busy_key taken.locks)).0
        ≡ (try_acquire (lit "b") taken.locks).0)
    × (keys (try_acquire (lit "b") (try_acquire busy_key taken.locks).1).1
        ≡ keys (try_acquire busy_key (try_acquire (lit "b") taken.locks).1).1)
    × (keys (try_acquire (lit "b") (release busy_key taken.locks)).1
        ≡ keys (release busy_key (try_acquire (lit "b") taken.locks).1))
    × (keys (release (lit "b") (release busy_key taken.locks))
        ≡ keys (release busy_key (release (lit "b") taken.locks)))
unfolding text_eq
calls_commute_example =
    calls_commute busy_key (lit "b") (text_eq-false busy_key (lit "b") refl) taken.locks
