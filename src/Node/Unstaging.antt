-- ===== src/Node/Unstaging.antt =====
-- What an unstage does on every branch: what belongs to IPFS is written back before the staging
-- directory is cleaned up.
use csi_driver_ipfs.Base.{
  ◌≡◌, refl, ap, ◌∙◌, ◌⊎◌, inl, inr, true, false, List, ◌∷◌, Result, ok, err, Bool-cases,
  Result-cases,
}
use csi_driver_ipfs.Text.{Text, lit, is_empty, text_eq}
use csi_driver_ipfs.Dict.{get}
use csi_driver_ipfs.Errors.{Error}
use csi_driver_ipfs.Csi.{Code, invalid_argument, internal}
use csi_driver_ipfs.Store.{VolumeAttributes}
use csi_driver_ipfs.Driver.{
  Driver, State, Event, param_mfs_path, param_read_only, mfs_imported, mount_point_cleaned,
  volume_read,
}
use csi_driver_ipfs.Node.{import_path, node_unstage_volume}
use csi_driver_ipfs.Node.Staging.{
  node_unstage_keeps, node_unstage_writes_back, node_unstage_without_import,
}

-- A volume that was read, is not read-only, and has its content at an MFS path.
pub record IsWritten (read : Result Error VolumeAttributes) (path : Text) : Type 0 where
  pub attrs : VolumeAttributes
  pub found : read ≡ ok attrs
  pub writable : text_eq (get param_read_only attrs.attributes) (lit "true") ≡ false
  pub stored : get param_mfs_path attrs.attributes ≡ path
  pub some_path : is_empty path ≡ false

-- How an unstage that has read a volume can end. `before` are the calls until then.
pub data Unstaged (staging : Text) (read : Result Error VolumeAttributes) (before : List Event)
    : Result Code Unit → List Event → Type 0 where
  -- Nothing is to be written back, and the staging directory was cleaned up.
  as_nothing :
      ((path : Text) → ¬ IsWritten read path)
      → (r : Result Error Unit)
      → Unstaged staging read before (ok tt) (mount_point_cleaned staging r ∷ before)
  -- The content was imported, and then the staging directory was cleaned up.
  as_imported :
      (path : Text)
      → IsWritten read path
      → (r : Result Error Unit)
      → Unstaged staging read before
          (ok tt)
          (mount_point_cleaned staging r ∷ mfs_imported staging path (ok tt) ∷ before)
  -- The import failed, and the staging directory was left as it is.
  as_failed :
      (path : Text)
      → IsWritten read path
      → (e : Error)
      → Unstaged staging read before (err internal) (mfs_imported staging path (err e) ∷ before)

import_path-IsWritten :
    (read : Result Error VolumeAttributes)
    → is_empty (import_path read) ≡ false
    → IsWritten read (import_path read)
unfolding import_path
import_path-IsWritten (err e) h = cc
import_path-IsWritten (ok attrs) h =
    elim (Bool-cases (text_eq (get param_read_only attrs.attributes) (lit "true"))) [
      | inl is ↦ cc (rw is at h)
      | inr is ↦ rw is (record {
        attrs = attrs;
        found = refl;
        writable = is;
        stored = refl;
        some_path = rw is at h;
      })
    ]

import_path-none :
    (read : Result Error VolumeAttributes)
    → is_empty (import_path read) ≡ true
    → (path : Text) → ¬ IsWritten read path
unfolding import_path
import_path-none read h path is =
    let same : import_path read ≡ path = ap import_path is.found ∙ rw is.writable is.stored in
    cc (h, ap is_empty same, is.some_path)

module _ {W : Type 0} (d : Driver W) (id staging : Text) (s : State W) where
  abbrev read : Result Error VolumeAttributes
  read = (d.volumes.get_volume_attributes id s.world).0

  named_lem :
      is_empty id ≡ false
      → is_empty staging ≡ false
      → Unstaged staging read
          (volume_read id read ∷ s.events)
          (node_unstage_volume d id staging s).0
          (node_unstage_volume d id staging s).1.events
  named_lem named placed = elim (Bool-cases (is_empty (import_path read))) [
    | inl nothing ↦
        let done = node_unstage_without_import d id staging s named placed nothing in
        rw (done.0, done.1) (as_nothing (import_path-none read nothing) _)
    | inr owned ↦
        let written = import_path-IsWritten read owned in
        elim (Result-cases
          (d.ipfs.import_to_mfs staging (import_path read)
            (d.volumes.get_volume_attributes id s.world).1).0) [
              | inl (u, imported) ↦
                  let (result, (r, calls)) =
                    node_unstage_writes_back d id staging s named placed owned imported in
                  rw (result, calls) (as_imported (import_path read) written r)
              | inr (e, fails) ↦
                  let done = node_unstage_keeps d id staging s named placed e owned fails in
                  rw (done.0, done.1) (as_failed (import_path read) written e)
            ]
  ]

  -- NodeUnstageVolume of any request. Without an ID or a staging path it is refused, and does
  -- nothing. Otherwise it reads the volume; if that has an MFS path and is not read-only, it imports
  -- the staging directory into this path, and only after an import that succeeded it cleans the
  -- directory up and succeeds, whatever the cleanup answers; an import that fails is answered by
  -- Internal, and the directory stays. A volume that is read-only, has no MFS path or cannot be
  -- read is not imported, and the directory is cleaned up.
  pub node_unstage_volume_lem :
      (((is_empty id ≡ true) ⊎ (is_empty staging ≡ true))
        × ((node_unstage_volume d id staging s).0 ≡ err invalid_argument)
        × ((node_unstage_volume d id staging s).1.events ≡ s.events))
      ⊎ ((is_empty id ≡ false)
          × (is_empty staging ≡ false)
          × Unstaged staging read
              (volume_read id read ∷ s.events)
              (node_unstage_volume d id staging s).0
              (node_unstage_volume d id staging s).1.events)
  unfolding node_unstage_volume
  node_unstage_volume_lem = elim (Bool-cases (is_empty id)) [
    | inl unnamed ↦ inl (inl unnamed, rw unnamed refl, rw unnamed refl)
    | inr named ↦ elim (Bool-cases (is_empty staging)) [
      | inl unplaced ↦ inl (inr unplaced, rw (named, unplaced) refl, rw (named, unplaced) refl)
      | inr placed ↦ inr (named, placed, named_lem named placed)
    ]
  ]
