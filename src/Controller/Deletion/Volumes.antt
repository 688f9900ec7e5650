-- ===== src/Controller/Deletion/Volumes.antt =====
-- What DeleteVolume does, by the answers it gets.
use mathlib.Core.List.{append-nil}
use csi_driver_ipfs.Base.{
  ◌≡◌, refl, ◌∙◌, true, false, ◌||◌, List, [], ◌∷◌, ◌++◌, arith, Result, ok, err, if◌then◌else◌,
}
use csi_driver_ipfs.Text.{Text, lit, is_empty, text_eq}
use csi_driver_ipfs.Dict.{get}
use csi_driver_ipfs.Errors.{Error, is_pv_not_found}
use csi_driver_ipfs.Csi.{Code, internal}
use csi_driver_ipfs.Store.{VolumeAttributes}
use csi_driver_ipfs.Locks.{VolumeLocks, is_held}
use csi_driver_ipfs.Driver.{
  Driver, State, begin, volume_read, param_cid, param_mfs_path, param_read_only,
}
use csi_driver_ipfs.Driver.Events.{unpinned, removed}
use csi_driver_ipfs.Controller.Create.{is_pinning_enabled}
use csi_driver_ipfs.Controller.References.{release_cid, remove_tree, cleanup_volume_in_ipfs}
use csi_driver_ipfs.Controller.Delete.{delete_locked, delete_volume}
use csi_driver_ipfs.Controller.Locking.{with_lock-free}
use csi_driver_ipfs.Controller.Deletion.Usage.{
  InUse, Unused, usage_in_use, usage_unused, usage-events,
}

-- The MFS tree that goes with a volume: that of a read-write volume.
abbrev pub tree_of : VolumeAttributes → List Text
tree_of attrs =
    if is_empty (get param_mfs_path attrs.attributes)
      || text_eq (get param_read_only attrs.attributes) (lit "true")
    then []
    else get param_mfs_path attrs.attributes ∷ []

module _ {W : Type 0} (d : Driver W) (attrs : VolumeAttributes) (s : State W) where
  remove_tree_lem :
      ((remove_tree d attrs s).0 ≡ ok tt)
      × (unpinned (remove_tree d attrs s).1.events ≡ unpinned s.events)
      × (removed (remove_tree d attrs s).1.events ≡ tree_of attrs ++ removed s.events)
  unfolding remove_tree
  remove_tree_lem = ground arith

  release_cid_in_use :
      InUse d (get param_cid attrs.attributes) attrs.volume_id false s.world
      → ((release_cid d attrs s).0 ≡ ok tt)
        × (unpinned (release_cid d attrs s).1.events ≡ unpinned s.events)
        × (removed (release_cid d attrs s).1.events ≡ removed s.events)
  unfolding release_cid
  release_cid_in_use used = ground (
    arith,
    usage_in_use d (get param_cid attrs.attributes) attrs.volume_id false s used,
    usage-events d (get param_cid attrs.attributes) attrs.volume_id false s,
  )

  release_cid_unused :
      is_empty (get param_cid attrs.attributes) ≡ false
      → is_pinning_enabled attrs.attributes ≡ true
      → Unused d (get param_cid attrs.attributes) attrs.volume_id false s.world
      → ((release_cid d attrs s).0 ≡ ok tt)
        × (unpinned (release_cid d attrs s).1.events
            ≡ get param_cid attrs.attributes ∷ unpinned s.events)
        × (removed (release_cid d attrs s).1.events ≡ removed s.events)
  unfolding release_cid
  release_cid_unused named pinning free = ground (
    arith,
    usage_unused d (get param_cid attrs.attributes) attrs.volume_id false s free,
    usage-events d (get param_cid attrs.attributes) attrs.volume_id false s,
  )

-- What a deletion did: it succeeded, and the pins and MFS trees that it asked to be removed.
abbrev pub Deleted : {W : Type 0} → Result Code Unit × State W → List Text → List Text → Type 0
Deleted (r, s) pins trees = (r ≡ ok tt) × (unpinned s.events ≡ pins) × (removed s.events ≡ trees)

module _ {W : Type 0} (d : Driver W) (attrs : VolumeAttributes) (s : State W)
    (pins : List Text) where
  cleanup_lem :
      ((release_cid d attrs s).0 ≡ ok tt)
      → unpinned (release_cid d attrs s).1.events ≡ pins
      → removed (release_cid d attrs s).1.events ≡ []
      → Deleted (cleanup_volume_in_ipfs d attrs s) pins (tree_of attrs)
  unfolding cleanup_volume_in_ipfs
  cleanup_lem h p t =
      ground (arith, remove_tree_lem d attrs (release_cid d attrs s).1, append-nil (tree_of attrs))

module _ {W : Type 0} (d : Driver W) (id : Text) (locks : VolumeLocks) (w : W)
    (attrs : VolumeAttributes) (w₁ : W) (named : is_empty id ≡ false)
    (free : is_held id locks ≡ false)
    (read : d.volumes.get_volume_attributes id w ≡ (ok attrs, w₁)) where
  -- The state after the volume was read.
  abbrev after_read : State W
  after_read = record { locks = id ∷ locks; events = volume_read id (ok attrs) ∷ []; world = w₁ }

  delete_as_cleanup :
      ((delete_volume d id (begin locks w)).0 ≡ (cleanup_volume_in_ipfs d attrs after_read).0)
      × ((delete_volume d id (begin locks w)).1.events
          ≡ (cleanup_volume_in_ipfs d attrs after_read).1.events)
  unfolding delete_volume delete_locked
  delete_as_cleanup =
      let ran = with_lock-free id (delete_locked d id) (begin locks w) free in
      rw named (ran.0 ∙ rw read refl, ran.1 ∙ rw read refl)

  delete_as :
      (pins trees : List Text)
      → Deleted (cleanup_volume_in_ipfs d attrs after_read) pins trees
      → Deleted (delete_volume d id (begin locks w)) pins trees
  delete_as pins trees h = rw (delete_as_cleanup.0, delete_as_cleanup.1) h

  -- DeleteVolume of a volume that is found under an ID that is not empty, unlocked, and whose CID
  -- is still in use or cannot be checked: it succeeds, unpins nothing, and removes the MFS tree of
  -- a read-write volume and no other.
  pub delete_volume_in_use :
      InUse d (get param_cid attrs.attributes) attrs.volume_id false w₁
      → Deleted (delete_volume d id (begin locks w)) [] (tree_of attrs)
  delete_volume_in_use used =
      let h = release_cid_in_use d attrs after_read used in
      delete_as [] (tree_of attrs) (cleanup_lem d attrs after_read [] h.0 h.1 h.2)

  -- DeleteVolume of a volume without a CID, which needs no look at the references.
  pub delete_volume_no_cid :
      is_empty (get param_cid attrs.attributes) ≡ true
      → Deleted (delete_volume d id (begin locks w)) [] (tree_of attrs)
  unfolding release_cid
  delete_volume_no_cid unnamed =
      delete_as [] (tree_of attrs)
        (cleanup_lem d attrs after_read [] (rw unnamed refl) (rw unnamed refl) (rw unnamed refl))

  -- DeleteVolume of a volume with a CID that is found under an ID that is not empty, unlocked and
  -- pinned, and whose CID nothing else uses: it succeeds, unpins the CID once, and removes the MFS
  -- tree of a read-write volume.
  pub delete_volume_unused :
      is_empty (get param_cid attrs.attributes) ≡ false
      → is_pinning_enabled attrs.attributes ≡ true
      → Unused d (get param_cid attrs.attributes) attrs.volume_id false w₁
      → Deleted
          (delete_volume d id (begin locks w))
          (get param_cid attrs.attributes ∷ [])
          (tree_of attrs)
  delete_volume_unused named_cid pinning unused =
      let h = release_cid_unused d attrs after_read named_cid pinning unused in
      delete_as (get param_cid attrs.attributes ∷ []) (tree_of attrs)
        (cleanup_lem d attrs after_read _ h.0 h.1 h.2)

-- A volume that is unlocked and cannot be read, under an ID that is not empty: where there is no
-- such volume DeleteVolume succeeds, on any other error it answers Internal, and it changes
-- nothing in either case.
pub delete_volume_unread :
    {W : Type 0} (d : Driver W) (id : Text) (locks : VolumeLocks) (w : W) (e : Error) (w₁ : W)
    → is_empty id ≡ false
    → is_held id locks ≡ false
    → d.volumes.get_volume_attributes id w ≡ (err e, w₁)
    → ((delete_volume d id (begin locks w)).0 ≡ (if is_pv_not_found e then ok tt else err internal))
      × ((delete_volume d id (begin locks w)).1.events ≡ volume_read id (err e) ∷ [])
unfolding delete_volume delete_locked
delete_volume_unread d id locks w e w₁ named free read =
    let ran = with_lock-free id (delete_locked d id) (begin locks w) free in
    rw named (ran.0 ∙ rw read (ground arith), ran.1 ∙ rw read (ground arith))
