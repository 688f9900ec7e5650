-- ===== src/Controller/Deletion/Cache.antt =====
-- DeleteVolume over the volume store of the cluster cache.
use csi_driver_ipfs.Base.{
  ◌≡◌, refl, ap, ◌∙◌, inl, inr, true, false, List, [], ◌∷◌, Result, ok, err, All, Any, Bool-cases,
}
use csi_driver_ipfs.Text.{Text, is_empty}
use csi_driver_ipfs.Dict.{get}
use csi_driver_ipfs.Errors.{Error}
use csi_driver_ipfs.Store.{VolumeAttributes, VolumeStore}
use csi_driver_ipfs.Store.Volumes.{
  PersistentVolume, Lister, pv_to_attributes, has_driver, has_handle, cons_ok, volumes_of,
  list_volumes, get_volume_attributes, pv_store,
}
use csi_driver_ipfs.Store.Volumes.Laws.{
  IsCached, Holds, get_volume_attributes_lem, get_volume_attributes_absent,
}
use csi_driver_ipfs.Locks.{VolumeLocks, is_held}
use csi_driver_ipfs.Driver.{Driver, begin, volume_read, param_cid}
use csi_driver_ipfs.Driver.Events.{unpinned}
use csi_driver_ipfs.Controller.Delete.{delete_volume}
use csi_driver_ipfs.Controller.References.Count.{References}
use csi_driver_ipfs.Controller.Deletion.Usage.{InUse, by_volume}
use csi_driver_ipfs.Controller.Deletion.Volumes.{delete_volume_in_use, delete_volume_unread}

-- A PersistentVolume of the driver other than the one with the ID, that has the CID and was not
-- created with pinning off.
abbrev pub Shares : Text → Text → Text → PersistentVolume → Type 0
Shares name cid id pv =
    (v : VolumeAttributes) × (has_driver name pv ≡ true)
    × (pv_to_attributes pv ≡ ok v)
    × References cid id v

listed :
    (name cid id : Text) (all : List PersistentVolume)
    → Any (Shares name cid id) all
    → Any (References cid id) (volumes_of name all)
unfolding volumes_of
listed name cid id [] h = absurd h
listed name cid id (pv ∷ all) (inl (v, ours, read, refers)) = rw (ours, read) (inl refers)
listed name cid id (pv ∷ all) (inr later) =
    let rest = listed name cid id all later in
    elim (Bool-cases (has_driver name pv)) [
      | inr other ↦ rw other rest
      | inl ours ↦ rw ours (skip (pv_to_attributes pv) rest)
    ]
  where
    skip :
        (r : Result Error VolumeAttributes)
        → Any (References cid id) (volumes_of name all)
        → Any (References cid id) (cons_ok r (volumes_of name all))
    skip (ok v) there = inr there
    skip (err e) there = there

list_volumes_cached :
    {W : Type 0} (lister : Lister W) (all : List PersistentVolume) (w : W)
    → IsCached lister all w
    → (name : Text) → list_volumes lister name w ≡ (ok (volumes_of name all), w)
unfolding list_volumes
list_volumes_cached lister all w cached name = rw cached.lists refl

module _ {W : Type 0} (d : Driver W) (lister : Lister W) (all : List PersistentVolume) (w : W)
    (locks : VolumeLocks) (id cid : Text) (over : d.volumes ≡ pv_store lister)
    (cached : IsCached lister all w) (named : is_empty id ≡ false) (free : is_held id locks ≡ false)
    (has_cid : (a : VolumeAttributes) → Holds id all a → get param_cid a.attributes ≡ cid)
    (shared : Any (Shares d.cfg.driver_name cid id) all) where
  in_use : InUse d cid id false w
  in_use =
      by_volume (volumes_of d.cfg.driver_name all) w
        (ap (λ (s : VolumeStore W). s.list_volumes d.cfg.driver_name w) over
          ∙ list_volumes_cached lister all w cached d.cfg.driver_name)
        (listed d.cfg.driver_name cid id all shared)

  read :
      (answer : Result Error VolumeAttributes × W)
      → get_volume_attributes lister id w ≡ answer
      → d.volumes.get_volume_attributes id w ≡ answer
  read answer e = ap (λ (s : VolumeStore W). s.get_volume_attributes id w) over ∙ e

  -- DeleteVolume of a driver over a synced cluster cache, of a volume that is unlocked, under an ID
  -- that is not empty, while the cache has another PersistentVolume of the driver with the CID of
  -- the volume and with pinning on: it succeeds and unpins nothing, whether the volume is in the
  -- cache itself or not.
  pub delete_volume_spares :
      ((delete_volume d id (begin locks w)).0 ≡ ok tt)
      × (unpinned (delete_volume d id (begin locks w)).1.events ≡ [])
  delete_volume_spares = elim (get_volume_attributes_lem lister all w cached id named) [
    | inl (a, found, held) ↦
        let used : InUse d (get param_cid a.attributes) a.volume_id false w =
          rw (has_cid a held, held.0) in_use in
        let done = delete_volume_in_use d id locks w a w named free (read (ok a, w) found) used in
        (done.0, done.1)
    | inr (absent, (e, fails, missing)) ↦
        let done = delete_volume_unread d id locks w e w named free (read (err e, w) fails) in
        (done.0 ∙ rw missing refl, ap unpinned done.1)
  ]

-- DeleteVolume of a driver over a synced cluster cache, under an ID that is not empty, unlocked and
-- not the handle of any PersistentVolume of the cache, as when the volume was deleted before: it
-- succeeds, and the one call that it makes is the look-up, which finds nothing.
pub delete_volume_absent :
    {W : Type 0} (d : Driver W) (lister : Lister W) (all : List PersistentVolume) (w : W)
    (locks : VolumeLocks) (id : Text)
    → d.volumes ≡ pv_store lister
    → IsCached lister all w
    → is_empty id ≡ false
    → is_held id locks ≡ false
    → All (λ pv. has_handle id pv ≡ false) all
    → ((delete_volume d id (begin locks w)).0 ≡ ok tt)
      × ((e : Error) × ((delete_volume d id (begin locks w)).1.events
            ≡ volume_read id (err e) ∷ []))
delete_volume_absent d lister all w locks id over cached named free absent =
    let (e, fails, missing) = get_volume_attributes_absent lister all w cached id absent in
    let read : d.volumes.get_volume_attributes id w ≡ (err e, w) =
      ap (λ (s : VolumeStore _). s.get_volume_attributes id w) over ∙ fails in
    let done = delete_volume_unread d id locks w e w named free read in
    (done.0 ∙ rw missing refl, (e, done.1))
