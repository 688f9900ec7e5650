-- ===== src/Examples/Stores.antt =====
-- The theorems on the stores, paths and names, at an input.
use csi_driver_ipfs.Store.Volumes.Laws.{get_volume_attributes_lem}
use csi_driver_ipfs.MfsPath.Accepted.{normalize_mfs_path_iff}
use csi_driver_ipfs.MfsPath.{slash}
use csi_driver_ipfs.Base.{List, ◌↔◌, ◌++◌, ◌≢◌}
use csi_driver_ipfs.Base.{
  ◌≡◌, refl, ◌⊎◌, inl, inr, Bool, true, false, none, some, [], ◌∷◌, Result, ok, err, All, Any,
}
use csi_driver_ipfs.Base.Int.{pos}
use csi_driver_ipfs.Text.{Text, lit, text_eq}
use csi_driver_ipfs.Text.Prefix.{has_prefix}
use csi_driver_ipfs.Errors.{Error, external, is_pv_not_found}
use csi_driver_ipfs.Store.{VolumeAttributes}
use csi_driver_ipfs.Store.Volumes.{PersistentVolume, Lister, has_handle, get_volume_attributes}
use csi_driver_ipfs.Store.Volumes.Laws.{IsCached, Holds}
use csi_driver_ipfs.Store.Snapshots.{SnapshotContent, snapshots_of}
use csi_driver_ipfs.Store.Snapshots.Laws.{Selects, snapshots_of-Selects}
use csi_driver_ipfs.MfsPath.{
  is_abs, split, join, back_up, step, resolve, elements, render, clean, absolute,
  normalize_mfs_path,
}
use csi_driver_ipfs.MfsPath.Under.{IsUnder, normalize_mfs_path-IsUnder}

abbrev pv : PersistentVolume
pv = record {
  name = lit "pv-1";
  csi = some (record { driver = lit "ipfs.csi"; volume_handle = lit "a"; volume_attributes = [] });
  storage = some (pos 5);
}

-- A lister that knows the volume by its name, which is not its handle.
abbrev get_by_name : Bool → Result Error PersistentVolume
get_by_name true = ok pv
get_by_name false = err (external (lit "not found"))

abbrev lister : Lister Unit
lister = record {
  get = λ name w. (get_by_name (text_eq name (lit "pv-1")), w);
  list = λ w. (ok (pv ∷ []), w);
}

answers :
    (b : Bool)
    → ((e : Error) × (get_by_name b ≡ err e))
      ⊎ ((p : PersistentVolume) × (get_by_name b ≡ ok p) × Any (λ q. q ≡ p) (pv ∷ []))
answers true = inr (pv, refl, inl refl)
answers false = inl (external (lit "not found"), refl)

lister-IsCached : IsCached lister (pv ∷ []) tt
lister-IsCached = record {
  lists = refl;
  gets = λ name. elim (answers (text_eq name (lit "pv-1"))) [
    | inl (e, found) ↦ inl (e, rw found refl)
    | inr (p, found, member) ↦ inr (p, rw found refl, member)
  ];
}

abbrev content : Text → SnapshotContent
content handle = record {
  driver = lit "ipfs.csi";
  source_volume_handle = some (lit "b");
  source_snapshot_handle = some handle;
  status = none;
}

snapshots_of-Selects_example :
    Selects (lit "ipfs.csi") (lit "bafy") [] (content (lit "bafy") ∷ content (lit "other") ∷ []) (
      snapshots_of
        (lit "ipfs.csi")
        (lit "bafy")
        []
        (content (lit "bafy") ∷ content (lit "other") ∷ []))
snapshots_of-Selects_example =
    snapshots_of-Selects (lit "ipfs.csi") (lit "bafy") []
      (content (lit "bafy") ∷ content (lit "other") ∷ [])

normalize_mfs_path-IsUnder_example : IsUnder (lit "/csi") (lit "/csi/b")
unfolding is_abs split join back_up step resolve elements render clean absolute normalize_mfs_path
    text_eq has_prefix
normalize_mfs_path-IsUnder_example =
    normalize_mfs_path-IsUnder (lit "/csi/a/../b") (lit "/csi") refl refl

get_volume_attributes_lem_example :
    ((a : VolumeAttributes) × (get_volume_attributes lister (lit "a") tt ≡ (ok a, tt))
      × Holds (lit "a") (pv ∷ []) a)
    ⊎ (All (λ p. has_handle (lit "a") p ≡ false) (pv ∷ [])
        × ((e : Error) × (get_volume_attributes lister (lit "a") tt ≡ (err e, tt))
            × (is_pv_not_found e ≡ true)))
get_volume_attributes_lem_example =
    get_volume_attributes_lem lister (pv ∷ []) tt lister-IsCached (lit "a") refl

csi-filled : elements (lit "/csi") ≢ []
unfolding elements is_abs resolve split step text_eq
csi-filled h = cc

normalize_mfs_path_iff_example :
    (normalize_mfs_path (lit "/csi/a/../b") (lit "/csi") ≡ ok (lit "/csi/b")) ↔ (
      (extra : List Text) × (elements (lit "/csi/a/../b") ≡ elements (lit "/csi") ++ extra)
      × (lit "/csi/b" ≡ slash ∷ join (elements (lit "/csi/a/../b"))))
unfolding is_abs
normalize_mfs_path_iff_example =
    normalize_mfs_path_iff (lit "/csi/a/../b") (lit "/csi") (lit "/csi/b") refl csi-filled refl
