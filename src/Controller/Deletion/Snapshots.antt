-- ===== src/Controller/Deletion/Snapshots.antt =====
-- What DeleteSnapshot does, by the answers it gets.
use csi_driver_ipfs.Base.{◌≡◌, true, false, [], ◌∷◌, ◌++◌, arith}
use csi_driver_ipfs.Text.{Text, lit, is_empty}
use csi_driver_ipfs.Locks.{VolumeLocks, is_held}
use csi_driver_ipfs.Driver.{Driver, State, begin}
use csi_driver_ipfs.Driver.Events.{unpinned, removed}
use csi_driver_ipfs.Controller.Delete.{delete_snapshot_locked, delete_snapshot}
use csi_driver_ipfs.Controller.Locking.{locked, with_lock-free}
use csi_driver_ipfs.Controller.Deletion.Usage.{
  InUse, Unused, usage_in_use, usage_unused, usage-events,
}
use csi_driver_ipfs.Controller.Deletion.Volumes.{Deleted}

abbrev pub snapshot_key : Text → Text
snapshot_key id = lit "delete-snapshot-" ++ id

module _ {W : Type 0} (d : Driver W) (id : Text) (locks : VolumeLocks) (w : W)
    (named : is_empty id ≡ false) (free : is_held (snapshot_key id) locks ≡ false) where
  abbrev inside : State W
  inside = locked (snapshot_key id) (begin locks w)

  delete_as_body :
      ((delete_snapshot d id (begin locks w)).0 ≡ (delete_snapshot_locked d id inside).0)
      × ((delete_snapshot d id (begin locks w)).1.events
          ≡ (delete_snapshot_locked d id inside).1.events)
  unfolding delete_snapshot
  delete_as_body = rw named (with_lock-free _ (delete_snapshot_locked d id) (begin locks w) free)

  -- DeleteSnapshot of an unlocked snapshot, with an ID that is not empty, whose CID is still in
  -- use, or where that cannot be found out: it unpins nothing and removes no tree.
  pub delete_snapshot_in_use :
      InUse d id [] true w
      → (unpinned (delete_snapshot d id (begin locks w)).1.events ≡ [])
        × (removed (delete_snapshot d id (begin locks w)).1.events ≡ [])
  unfolding delete_snapshot_locked
  delete_snapshot_in_use used =
      rw delete_as_body.1
        (ground (arith, usage_in_use d id [] true inside used, usage-events d id [] true inside))

  -- DeleteSnapshot of an unlocked snapshot, with an ID that is not empty, that is the only one
  -- with its CID, where no volume refers to the CID: it succeeds, unpins the CID once and removes
  -- no tree.
  pub delete_snapshot_unused :
      Unused d id [] true w → Deleted (delete_snapshot d id (begin locks w)) (id ∷ []) []
  unfolding delete_snapshot_locked
  delete_snapshot_unused unused =
      rw (delete_as_body.0, delete_as_body.1)
        (ground (arith, usage_unused d id [] true inside unused, usage-events d id [] true inside))
