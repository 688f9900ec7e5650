-- ===== src/Store/Volumes.antt =====
-- pkg/driver/store/persistent_volume.go: the volume store over a PersistentVolume lister.
pub mod Laws
use csi_driver_ipfs.Base.{
  Bool, true, false, ◌&&◌, Option, none, some, List, [], ◌∷◌, Result, ok, err, if◌then◌else◌,
}
use csi_driver_ipfs.Base.Int.{ℤ, pos}
use csi_driver_ipfs.Base.Exec.{return, fail, ◌>>=◌, or_else, attempt}
use csi_driver_ipfs.Text.{Text, lit, is_empty, text_eq}
use csi_driver_ipfs.Dict.{Dict}
use csi_driver_ipfs.Errors.{Error, external, wrapped, pv_not_found, Op}
use csi_driver_ipfs.Store.{VolumeAttributes, VolumeStore}

-- The parts of Kubernetes' PersistentVolume that the store reads.
pub record CsiSource : Type 0 where
  pub driver : Text
  pub volume_handle : Text
  pub volume_attributes : Dict

pub record PersistentVolume : Type 0 where
  pub name : Text
  pub csi : Option CsiSource
  pub storage : Option ℤ

-- The lister of Kubernetes' client library: `get` by name, and `list` of everything.
pub record Lister (W : Type 0) : Type 0 where
  pub get : Text → Op W PersistentVolume
  pub list : Op W (List PersistentVolume)

abbrev pub storage_or_zero : Option ℤ → ℤ
storage_or_zero none = pos 0
storage_or_zero (some q) = q

unfoldable pub csi_attributes : PersistentVolume → CsiSource → VolumeAttributes
csi_attributes pv csi = record {
  volume_id = if is_empty csi.volume_handle then pv.name else csi.volume_handle;
  capacity = storage_or_zero pv.storage;
  attributes = csi.volume_attributes;
}

unfoldable pub pv_to_attributes : PersistentVolume → Result Error VolumeAttributes
unfolding csi_attributes
pv_to_attributes pv = elim pv.csi [
  | none ↦ err (external (lit "PV has no CSI spec"))
  | some csi ↦ ok (csi_attributes pv csi)
]

-- pv.Spec.CSI != nil && pv.Spec.CSI.VolumeHandle == volumeID
unfoldable pub has_handle : Text → PersistentVolume → Bool
has_handle id pv = elim pv.csi [ none ↦ false | some csi ↦ text_eq csi.volume_handle id ]

-- The loop of GetVolumeAttributes.
unfoldable pub find_handle : Text → List PersistentVolume → Result Error VolumeAttributes
find_handle id [] = err (wrapped pv_not_found)
find_handle id (pv ∷ all) =
    let rest = find_handle id all in if has_handle id pv then pv_to_attributes pv else rest

unfoldable pub has_driver : Text → PersistentVolume → Bool
has_driver name pv = elim pv.csi [ none ↦ false | some csi ↦ text_eq csi.driver name ]

-- `attrs, err := pvToAttributes(pv); if err != nil { continue }; out = append(out, attrs)`
abbrev pub cons_ok : Result Error VolumeAttributes → List VolumeAttributes → List VolumeAttributes
cons_ok (ok attrs) out = attrs ∷ out
cons_ok (err e) out = out

-- The loop of ListVolumes.
unfoldable pub volumes_of : Text → List PersistentVolume → List VolumeAttributes
volumes_of name [] = []
volumes_of name (pv ∷ all) =
    let rest = volumes_of name all in
    if has_driver name pv then cons_ok (pv_to_attributes pv) rest else rest

module _ {W : Type 0} (lister : Lister W) where
  abbrev search_all : Text → Op W VolumeAttributes
  search_all id = do all ← or_else lister.list wrapped; λ w. (find_handle id all, w)

  -- `pv, err := s.lister.Get(volumeID)` and the test after it.
  unfoldable pub get_volume_attributes : Text → Op W VolumeAttributes
  get_volume_attributes id = do
    found ← attempt (lister.get id)
    elim found [
      | ok pv ↦ if has_handle id pv then (λ w. (pv_to_attributes pv, w)) else search_all id
      | err e ↦ search_all id
    ]

  unfoldable pub list_volumes : Text → Op W (List VolumeAttributes)
  list_volumes name = do all ← or_else lister.list wrapped; return (volumes_of name all)

  -- NewVolumeStoreFromPVLister
  abbrev pub pv_store : VolumeStore W
  pv_store = record { get_volume_attributes = get_volume_attributes; list_volumes = list_volumes }
