-- ===== src/Examples/Caching.antt =====
-- The theorems on DeleteVolume over the cluster cache, at inputs.
use csi_driver_ipfs.Base.{List}
use csi_driver_ipfs.Base.Int.{pos}
use csi_driver_ipfs.Errors.{external}
use csi_driver_ipfs.Store.Volumes.{
  PersistentVolume, Lister, pv_to_attributes, csi_attributes, has_driver, pv_store,
}
use csi_driver_ipfs.Store.Volumes.Laws.{IsCached, Holds}
use csi_driver_ipfs.Controller.Deletion.Cache.{Shares, delete_volume_spares, delete_volume_absent}
use csi_driver_ipfs.Errors.{Error}
use csi_driver_ipfs.Driver.{volume_read}
use csi_driver_ipfs.Store.Volumes.{has_handle}
use csi_driver_ipfs.Base.{◌≡◌, refl, inl, inr, none, some, [], ◌∷◌, ok, err, arith}
use csi_driver_ipfs.Text.{Text, lit, text_eq, text_eq-false}
use csi_driver_ipfs.Dict.{get}
use csi_driver_ipfs.Store.{VolumeAttributes}
use csi_driver_ipfs.Locks.{is_held}
use csi_driver_ipfs.Driver.{Driver}
use csi_driver_ipfs.Driver.Events.{unpinned}
use csi_driver_ipfs.Controller.Delete.{delete_volume}
use csi_driver_ipfs.Examples.{driver_of, driver, store_of, by_cid, by_path, entry, snapshots_are}
use csi_driver_ipfs.Examples as Toy

-- Two PersistentVolumes with one CID, in the cache.
abbrev volume_of : Text → PersistentVolume
volume_of id = record {
  name = id;
  csi = some (record {
    driver = lit "ipfs.csi";
    volume_handle = id;
    volume_attributes = (lit "cid", lit "bafy") ∷ [];
  });
  storage = none;
}

abbrev cache : List PersistentVolume
cache = volume_of (lit "a") ∷ volume_of (lit "c") ∷ []

abbrev lister : Lister Unit
lister = record { get = λ name w. (err (external (lit "not found")), w); list = λ w. (ok cache, w) }

lister-IsCached : IsCached lister cache tt
lister-IsCached = record { lists = refl; gets = λ name. inl (external (lit "not found"), refl) }

abbrev over_cache : Driver Unit
over_cache = driver_of (lit "/csi") (pv_store lister) none

attributes_of :
    (id : Text) (a : VolumeAttributes)
    → pv_to_attributes (volume_of id) ≡ ok a
    → get (lit "cid") a.attributes ≡ lit "bafy"
unfolding pv_to_attributes csi_attributes get text_eq
attributes_of id a e = ground arith

cid_of :
    (a : VolumeAttributes) → Holds (lit "a") cache a → get (lit "cid") a.attributes ≡ lit "bafy"
cid_of a (same, inl (here, read)) = attributes_of (lit "a") a read
cid_of a (same, inr (inl (here, read))) = attributes_of (lit "c") a read
cid_of a (same, inr (inr none_left)) = absurd none_left

shares : Shares (lit "ipfs.csi") (lit "bafy") (lit "a") (volume_of (lit "c"))
unfolding has_driver pv_to_attributes csi_attributes get text_eq
shares = (
  record { volume_id = lit "c"; capacity = pos 0; attributes = (lit "cid", lit "bafy") ∷ [] },
  refl,
  refl,
  record { other = text_eq-false _ _ refl; same_cid = refl; pinned = text_eq-false _ _ refl },
)

delete_volume_spares_example :
    ((delete_volume over_cache (lit "a") Toy.start).0 ≡ ok tt)
    × (unpinned (delete_volume over_cache (lit "a") Toy.start).1.events ≡ [])
unfolding is_held
delete_volume_spares_example =
    delete_volume_spares over_cache lister cache tt [] (lit "a") (lit "bafy") refl lister-IsCached
      refl refl cid_of (inr (inl shares))

delete_volume_absent_example :
    ((delete_volume over_cache (lit "z") Toy.start).0 ≡ ok tt)
    × ((e : Error) × ((delete_volume over_cache (lit "z") Toy.start).1.events
          ≡ volume_read (lit "z") (err e) ∷ []))
unfolding is_held has_handle text_eq
delete_volume_absent_example =
    delete_volume_absent over_cache lister cache tt [] (lit "z") refl lister-IsCached refl refl
      (refl, (refl, tt))
