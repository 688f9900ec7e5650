-- ===== src/Controller/Deletion/Usage.antt =====
-- What the reference check finds, in terms of the answers that the cluster gives.
use csi_driver_ipfs.Base.{
  ℕ, ◌≤◌, ◌<◌, ◌≡◌, refl, Bool, true, false, none, some, List, [], arith, All, Any, Result, ok, err,
  length, if◌then◌else◌,
}
use csi_driver_ipfs.Text.{Text}
use csi_driver_ipfs.Errors.{Error}
use csi_driver_ipfs.Store.{VolumeAttributes, SnapshotEntry, SnapshotStore}
use csi_driver_ipfs.Driver.{Driver, State}
use csi_driver_ipfs.Driver.Events.{unpinned, removed}
use csi_driver_ipfs.Controller.References.{is_referenced, cid_reference_usage}
use csi_driver_ipfs.Controller.References.Count.{
  References, count_references-pos, count_references-zero,
}

-- The snapshots that do not count: the one to be deleted.
abbrev pub spared : Bool → ℕ
spared one = if one then 1 else 0

module _ {W : Type 0} (d : Driver W) (cid excluded : Text) (one : Bool) (w : W) where
  -- The answers after which a CID stays pinned: a list cannot be read, another volume refers to
  -- the CID, or more snapshots than the spared one have it. Without a snapshot store a snapshot
  -- cannot be checked.
  pub data InUse : Type 0 where
    volumes_unknown :
        (e : Error) (w₂ : W) → d.volumes.list_volumes d.cfg.driver_name w ≡ (err e, w₂) → InUse
    by_volume :
        (vs : List VolumeAttributes) (w₂ : W)
        → d.volumes.list_volumes d.cfg.driver_name w ≡ (ok vs, w₂)
        → Any (References cid excluded) vs
        → InUse
    snapshots_unknown :
        (vs : List VolumeAttributes) (w₂ : W) (store : SnapshotStore W) (e : Error) (w₃ : W)
        → d.volumes.list_volumes d.cfg.driver_name w ≡ (ok vs, w₂)
        → d.snapshots ≡ some store
        → store.list_snapshots d.cfg.driver_name cid [] w₂ ≡ (err e, w₃)
        → InUse
    by_snapshot :
        (vs : List VolumeAttributes) (w₂ : W) (store : SnapshotStore W) (es : List SnapshotEntry)
        (w₃ : W)
        → d.volumes.list_volumes d.cfg.driver_name w ≡ (ok vs, w₂)
        → d.snapshots ≡ some store
        → store.list_snapshots d.cfg.driver_name cid [] w₂ ≡ (ok es, w₃)
        → spared one < length es
        → InUse
    no_store :
        (vs : List VolumeAttributes) (w₂ : W)
        → d.volumes.list_volumes d.cfg.driver_name w ≡ (ok vs, w₂)
        → d.snapshots ≡ none
        → one ≡ true
        → InUse

  -- The answers after which nothing refers to a CID.
  pub data Unused : Type 0 where
    by_volumes :
        (vs : List VolumeAttributes) (w₂ : W)
        → d.volumes.list_volumes d.cfg.driver_name w ≡ (ok vs, w₂)
        → All (λ v. ¬ (References cid excluded v)) vs
        → d.snapshots ≡ none
        → one ≡ false
        → Unused
    by_both :
        (vs : List VolumeAttributes) (w₂ : W) (store : SnapshotStore W) (es : List SnapshotEntry)
        (w₃ : W)
        → d.volumes.list_volumes d.cfg.driver_name w ≡ (ok vs, w₂)
        → All (λ v. ¬ (References cid excluded v)) vs
        → d.snapshots ≡ some store
        → store.list_snapshots d.cfg.driver_name cid [] w₂ ≡ (ok es, w₃)
        → length es ≤ spared one
        → Unused

abbrev pub keeps_pin : Result Error (ℕ × ℕ) → Bool
keeps_pin (err e) = true
keeps_pin (ok usage) = is_referenced usage

module _ {W : Type 0} (d : Driver W) (cid excluded : Text) (one : Bool) (s : State W) where
  pub usage_in_use :
      InUse d cid excluded one s.world
      → keeps_pin (cid_reference_usage d cid excluded one s).0 ≡ true
  unfolding cid_reference_usage
  usage_in_use (volumes_unknown e w₂ list) = rw list refl
  usage_in_use (by_volume vs w₂ list refers) =
      ground (arith, count_references-pos cid excluded vs refers)
  usage_in_use (snapshots_unknown vs w₂ store e w₃ list has asked) = rw (list, has) (rw asked refl)
  usage_in_use (by_snapshot vs w₂ store es w₃ list has asked many) =
      rw (list, has) (rw asked (ground arith))
  usage_in_use (no_store vs w₂ list has is_one) = rw (list, has, is_one) refl

  pub usage_unused :
      Unused d cid excluded one s.world → (cid_reference_usage d cid excluded one s).0 ≡ ok (0, 0)
  unfolding cid_reference_usage
  usage_unused (by_volumes vs w₂ list free has two) =
      rw (list, has, two) (rw (count_references-zero cid excluded vs free) refl)
  usage_unused (by_both vs w₂ store es w₃ list free has asked few) =
      rw (list, has) (rw asked (ground (arith, count_references-zero cid excluded vs free)))

  pub usage-events :
      (unpinned (cid_reference_usage d cid excluded one s).1.events ≡ unpinned s.events)
      × (removed (cid_reference_usage d cid excluded one s).1.events ≡ removed s.events)
  unfolding cid_reference_usage
  usage-events = ground arith
