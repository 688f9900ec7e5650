-- ===== src/Lifecycle.antt =====
-- A read-write volume from its creation to its deletion, through the controller and a node: the calls
-- of the four methods meet in the one MFS path that the volume context carries.
pub mod Restaged
use csi_driver_ipfs.Base.{
  ◌≡◌, refl, ap, ◌∙◌, true, false, ◌&&◌, List, [], ◌∷◌, Result, ok, Bool-cases, Result-cases, inl,
  inr,
}
use csi_driver_ipfs.Base.Exec.{or_else, bind-ok, map_error-ok}
use csi_driver_ipfs.Text.{Text, lit, is_empty, text_eq}
use csi_driver_ipfs.Dict.{Dict, get}
use csi_driver_ipfs.Errors.{Error}
use csi_driver_ipfs.MfsPath.{is_abs}
use csi_driver_ipfs.MfsPath.Under.{IsUnder}
use csi_driver_ipfs.Csi.{CreateVolumeRequest, Volume}
use csi_driver_ipfs.Store.{VolumeAttributes}
use csi_driver_ipfs.Locks.{VolumeLocks, is_held}
use csi_driver_ipfs.Driver.{
  Driver, State, begin, param_cid, param_mfs_path, param_read_only, directory_made, mfs_exported,
  mfs_imported, mount_point_cleaned, volume_read,
}
use csi_driver_ipfs.Driver.Calls
use csi_driver_ipfs.Driver.Events.{made}
use csi_driver_ipfs.Controller.Create.{create_volume, as_internal}
use csi_driver_ipfs.Controller.Create.Content.{create_volume_read_write, context_keys}
use csi_driver_ipfs.Controller.Create.Outcome.{create_volume-Succeeded}
use csi_driver_ipfs.Controller.Delete.{delete_volume}
use csi_driver_ipfs.Controller.Deletion.Volumes.{Deleted, tree_of, delete_volume_no_cid}
use csi_driver_ipfs.Node.{import_staged, import_path, node_stage_volume, node_unstage_volume}
use csi_driver_ipfs.Node.Content.{fetch_content_to_path}
use csi_driver_ipfs.Node.Staging.{fetched, emptied, fetch_content_refills}

-- A volume context that names an MFS path, and no CID, and is not read-only.
pub record IsReadWrite (context : Dict) : Type 0 where
  pub no_cid : is_empty (get param_cid context) ≡ true
  pub path : is_empty (get param_mfs_path context) ≡ false
  pub writable : text_eq (get param_read_only context) (lit "true") ≡ false

IsUnder-filled : (root path : Text) → IsUnder root path → is_empty path ≡ false
IsUnder-filled root path under = rw under.shape refl

created-IsReadWrite :
    {W : Type 0} (d : Driver W) (req : CreateVolumeRequest) (locks : VolumeLocks) (w : W)
    (v : Volume)
    → (create_volume d req (begin locks w)).0 ≡ ok v
    → is_empty (get param_cid req.parameters) ≡ true
    → is_abs d.cfg.mfs_root ≡ true
    → IsReadWrite v.volume_context
unfolding text_eq
created-IsReadWrite d req locks w v created read_write abs =
    let c = create_volume-Succeeded d req locks w v created in
    let keys = context_keys req c.mfs_path in
    let under = (create_volume_read_write d req locks w v created read_write abs).1 in
    record {
      no_cid = rw (c.result, keys.0) read_write;
      path = IsUnder-filled d.cfg.mfs_root _ under;
      writable = rw (c.result, keys.2, read_write) refl;
    }

-- A stage that succeeds has made the directory, and then fetched into it.
stage_fetches :
    {W : Type 0} (n : Driver W) (id dest : Text) (context : Dict) (s : State W)
    → is_empty (get param_cid context) && is_empty (get param_mfs_path context) ≡ false
    → (node_stage_volume n id dest context s).0 ≡ ok tt
    → (entries : List Text) × ((node_stage_volume n id dest context s).1.events
        ≡ fetched context dest ∷ emptied dest entries (directory_made dest (ok tt) ∷ s.events))
unfolding node_stage_volume
stage_fetches n id dest context s content h = elim (Bool-cases (is_empty id)) [
  | inl empty ↦ cc (rw empty at h)
  | inr named ↦ elim (Bool-cases (is_empty dest)) [
    | inl empty ↦ cc (rw (named, empty) at h)
    | inr placed ↦
        let (_, dir, rest, first) =
          bind-ok (or_else (Calls.mkdir_all n dest) as_internal)
            (λ _. fetch_content_to_path n context dest) s tt (rw (named, placed) at h) in
        let (entries, calls) = fetch_content_refills n context dest _ content rest in
        (
          entries,
          rw (named, placed)
              (ap (λ r. r.1.events) first
                ∙ calls
                ∙ ap
                    (λ r.
                      fetched context dest
                      ∷ emptied dest entries (directory_made dest r ∷ s.events))
                    (map_error-ok _ as_internal tt dir)),
        )
  ]
]

-- An unstage that succeeds, of a volume whose content belongs to an MFS path, has imported it, and
-- has cleaned up the directory after that.
unstage_imports :
    {W : Type 0} (n : Driver W) (id dest : Text) (s : State W) (attrs : VolumeAttributes) (w₁ : W)
    → n.volumes.get_volume_attributes id s.world ≡ (ok attrs, w₁)
    → is_empty (import_path (ok attrs)) ≡ false
    → (node_unstage_volume n id dest s).0 ≡ ok tt
    → (r : Result Error Unit) × ((node_unstage_volume n id dest s).1.events
        ≡ mount_point_cleaned dest r
          ∷ mfs_imported dest (import_path (ok attrs)) (ok tt)
          ∷ volume_read id (ok attrs)
          ∷ s.events)
unfolding node_unstage_volume import_staged
unstage_imports n id dest s attrs w₁ read owned h = elim (Bool-cases (is_empty id)) [
  | inl empty ↦ cc (rw empty at h)
  | inr named ↦ elim (Bool-cases (is_empty dest)) [
    | inl empty ↦ cc (rw (named, empty) at h)
    | inr placed ↦ elim (Result-cases (n.ipfs.import_to_mfs dest (import_path (ok attrs)) w₁).0) [
      | inl (u, done) ↦
          let written = n.ipfs.import_to_mfs dest (import_path (ok attrs)) w₁ in
          (
            (n.host.cleanup_mount_point dest written.1).0,
            rw (named, placed, read, owned, done) refl,
          )
      | inr (e, fails) ↦ cc (rw (named, placed, read, owned, fails) at h)
    ]
  ]
]

module _ {W V : Type 0} (c : Driver W) (n : Driver V) (req : CreateVolumeRequest)
    (locks locks₂ : VolumeLocks) (w w₁ w₂ : W) (v : Volume) (attrs : VolumeAttributes) where
  -- A read-write volume, under an absolute MFS root, that CreateVolume of a controller has created,
  -- that a node has staged with the volume context of that answer and unstaged, and that is deleted
  -- while it is unlocked; the stores read its attributes as they were created. All four methods work
  -- on one MFS path below the root: it is the one directory that was made, the stage exports it after
  -- it has emptied the staging directory, the unstage imports into it before it cleans up, and the
  -- deletion removes it, and nothing else, and unpins nothing.
  pub lifecycle_read_write :
      (id dest : Text) (s t : State V) (v₁ : V)
      → (create_volume c req (begin locks w)).0 ≡ ok v
      → is_empty (get param_cid req.parameters) ≡ true
      → is_abs c.cfg.mfs_root ≡ true
      → attrs.attributes ≡ v.volume_context
      → (node_stage_volume n id dest v.volume_context s).0 ≡ ok tt
      → n.volumes.get_volume_attributes id t.world ≡ (ok attrs, v₁)
      → (node_unstage_volume n id dest t).0 ≡ ok tt
      → is_empty id ≡ false
      → is_held id locks₂ ≡ false
      → c.volumes.get_volume_attributes id w₁ ≡ (ok attrs, w₂)
      → (path : Text) × IsUnder c.cfg.mfs_root path
        × (made (create_volume c req (begin locks w)).1.events ≡ path ∷ [])
        × ((entries : List Text) × ((node_stage_volume n id dest v.volume_context s).1.events
              ≡ mfs_exported path dest (ok tt)
                ∷ emptied dest entries (directory_made dest (ok tt) ∷ s.events)))
        × ((r : Result Error Unit) × ((node_unstage_volume n id dest t).1.events
              ≡ mount_point_cleaned dest r
                ∷ mfs_imported dest path (ok tt)
                ∷ volume_read id (ok attrs)
                ∷ t.events))
        × Deleted (delete_volume c id (begin locks₂ w₁)) [] (path ∷ [])
  unfolding import_path
  lifecycle_read_write id dest s t v₁ created read_write abs kept staged read unstaged named free
        found =
      let path = get param_mfs_path v.volume_context in
      let (dirs, under) = create_volume_read_write c req locks w v created read_write abs in
      let is = created-IsReadWrite c req locks w v created read_write abs in
      let owned : import_path (ok attrs) ≡ path = rw (kept, is.writable) refl in
      let tree : tree_of attrs ≡ path ∷ [] = rw (kept, is.path, is.writable) refl in
      let (entries, stage) =
        stage_fetches n id dest v.volume_context s (rw (is.no_cid, is.path) refl) staged in
      let (r, unstage) =
        unstage_imports n id dest t attrs v₁ read (ap is_empty owned ∙ is.path) unstaged in
      (
        path,
        under,
        dirs,
        (entries, stage ∙ rw is.no_cid refl),
        (r, rw owned at unstage),
        rw tree at
            (delete_volume_no_cid c id locks₂ w₁ attrs w₂ named free found (rw kept is.no_cid)),
      )
