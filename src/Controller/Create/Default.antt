-- ===== src/Controller/Create/Default.antt =====
-- CreateVolume with no CID and no MFS path: the volume below the MFS root.
use csi_driver_ipfs.Base.{
  ◌≡◌, refl, ap, ◌∙◌, ◌≢◌, true, false, [], ◌∷◌, ◌++◌, Result, ok, err, inl, inr, List, ◌⊎◌,
  if◌then◌else◌,
}
use csi_driver_ipfs.Text.{Text, is_empty}
use csi_driver_ipfs.Dict.{get}
use csi_driver_ipfs.Sanitize.{sanitize_volume_id, volume_id}
use csi_driver_ipfs.MfsPath.{slash, join, is_abs, elements}
use csi_driver_ipfs.MfsPath.Default.{normalize_default, normalize_default_slash}
use csi_driver_ipfs.Csi.{Code, Volume, CreateVolumeRequest, invalid_argument, internal}
use csi_driver_ipfs.Errors.{Error}
use csi_driver_ipfs.Locks.{VolumeLocks, is_held}
use csi_driver_ipfs.Driver.{Driver, begin, param_cid, param_mfs_path}
use csi_driver_ipfs.Controller.Locking.{with_lock-free}
use csi_driver_ipfs.Controller.Create.{
  snapshot_source_id, raw_mfs_path, prepare, provision, volume_of, create_volume,
}
use csi_driver_ipfs.Controller.Queries.{is_nil}
use csi_driver_ipfs.Controller.Create.Outcome.{inside}

List-cases : {A : Type 0} (xs : List A) → (xs ≡ []) ⊎ ((x : A) × (ys : List A) × (xs ≡ x ∷ ys))
List-cases [] = inl refl
List-cases (x ∷ xs) = inr (x, xs, refl)

-- A request for a default volume: a name, and no CID, MFS path or snapshot.
pub record IsDefault (req : CreateVolumeRequest) : Type 0 where
  pub named : is_empty req.name ≡ false
  pub no_source : snapshot_source_id req.content_source ≡ ok []
  pub no_cid : is_empty (get param_cid req.parameters) ≡ true
  pub no_path : is_empty (get param_mfs_path req.parameters) ≡ true

-- The sanitized name directly below the root.
abbrev pub default_path : Text → Text → Text
default_path root name = slash ∷ join (elements root ++ sanitize_volume_id name ∷ [])

abbrev pub default_outcome : CreateVolumeRequest → Text → Result Error Unit → Result Code Volume
default_outcome req path (ok _) = ok (volume_of req [] path)
default_outcome req path (err e) = err internal

module _ {W : Type 0} (d : Driver W) (req : CreateVolumeRequest) (locks : VolumeLocks) (w : W)
    (default : IsDefault req) (free : is_held (volume_id req.name) locks ≡ false)
    (abs : is_abs d.cfg.mfs_root ≡ true) where
  as_provision :
      (create_volume d req (begin locks w)).0 ≡ (provision d req [] (inside req locks w)).0
  unfolding create_volume
  as_provision =
      rw (default.named, default.no_source)
        (with_lock-free (volume_id req.name) (provision d req []) (begin locks w) free).0

  raw_default : raw_mfs_path d req ≡ d.cfg.mfs_root ++ slash ∷ sanitize_volume_id req.name
  raw_default = rw default.no_path

  -- Under an absolute MFS root other than `/`, the default volume of an unlocked name is created
  -- whenever IPFS makes its directory, which is the sanitized name below the root, and if IPFS does
  -- not the answer is Internal.
  pub create_volume_default :
      (r : Result Error Unit) (w₁ : W)
      → elements d.cfg.mfs_root ≢ []
      → d.ipfs.mkdir_mfs (default_path d.cfg.mfs_root req.name) w ≡ (r, w₁)
      → (create_volume d req (begin locks w)).0
        ≡ default_outcome req (default_path d.cfg.mfs_root req.name) r
  unfolding provision prepare
  create_volume_default (ok _) w₁ filled answer =
      as_provision
      ∙ rw (default.no_cid, raw_default)
          (rw (normalize_default d.cfg.mfs_root req.name abs filled default.named) (rw answer refl))
  create_volume_default (err e) w₁ filled answer =
      as_provision
      ∙ rw (default.no_cid, raw_default)
          (rw (normalize_default d.cfg.mfs_root req.name abs filled default.named) (rw answer refl))

  -- Under a root that cleans to `/`, no default volume can be created: the path is refused.
  pub create_volume_slash_root :
      elements d.cfg.mfs_root ≡ [] → (create_volume d req (begin locks w)).0 ≡ err invalid_argument
  unfolding provision prepare
  create_volume_slash_root empty =
      as_provision
      ∙ rw (default.no_cid, raw_default)
          (rw (normalize_default_slash d.cfg.mfs_root req.name abs empty default.named) refl)

  -- The default volume of an unlocked name, under an absolute MFS root. Under a root that cleans to
  -- `/` it is refused; under any other it is created whenever IPFS makes its directory, which is the
  -- sanitized name below the root, and if IPFS does not the answer is Internal.
  pub create_volume_default_lem : (create_volume d req (begin locks w)).0 ≡ (
      if is_nil (elements d.cfg.mfs_root)
      then err invalid_argument
      else default_outcome req
          (default_path d.cfg.mfs_root req.name)
          (d.ipfs.mkdir_mfs (default_path d.cfg.mfs_root req.name) w).0)
  create_volume_default_lem = elim (List-cases (elements d.cfg.mfs_root)) [
    | inl empty ↦ rw empty (create_volume_slash_root empty)
    | inr (p, ps, filled) ↦
        let full : is_nil (elements d.cfg.mfs_root) ≡ false = ap is_nil filled in
        rw full (create_volume_default _ _ (λ h. cc (filled, h)) refl)
  ]
