-- ===== src/Controller/Create/Content.antt =====
-- The content behind a volume that CreateVolume has created.
use csi_driver_ipfs.Base.{◌≡◌, refl, ap, ◌∙◌, ◌≢◌, true, false, not, ◌&&◌, [], ◌∷◌, arith, ok}
use csi_driver_ipfs.Text.{Text, is_empty, text_eq, text_eq_iff}
use csi_driver_ipfs.Dict.{get, get-put}
use csi_driver_ipfs.Sanitize.{volume_id}
use csi_driver_ipfs.MfsPath.{is_abs, normalize_mfs_path}
use csi_driver_ipfs.MfsPath.Under.{IsUnder, normalize_mfs_path-IsUnder}
use csi_driver_ipfs.Csi.{CreateVolumeRequest, Volume}
use csi_driver_ipfs.Locks.{VolumeLocks}
use csi_driver_ipfs.Driver.{
  Driver, State, begin, param_cid, param_mfs_path, param_read_only, pin_failure_policy_best_effort,
}
use csi_driver_ipfs.Driver.Events.{confirmed, pinned, made}
use csi_driver_ipfs.Controller.Create.{
  bool_text, context_of, is_pinning_enabled, raw_mfs_path, prepare, restore_if,
  restore_snapshot_to_mfs, create_volume,
}
use csi_driver_ipfs.Controller.Create.Outcome.{create_volume-Succeeded, inside}

module _ {W : Type 0} (d : Driver W) (req : CreateVolumeRequest) (s : State W) (path : Text) where
  prepare_by_cid :
      is_empty (get param_cid req.parameters) ≡ false
      → (prepare d req s).0 ≡ ok path
      → confirmed (prepare d req s).1.events ≡ get param_cid req.parameters ∷ confirmed s.events
  unfolding prepare
  prepare_by_cid named h = ground arith

  prepare_pinned :
      is_empty (get param_cid req.parameters) ≡ false
      → is_pinning_enabled req.parameters ≡ true
      → text_eq d.cfg.pin_failure_policy pin_failure_policy_best_effort ≡ false
      → (prepare d req s).0 ≡ ok path
      → pinned (prepare d req s).1.events ≡ get param_cid req.parameters ∷ pinned s.events
  unfolding prepare
  prepare_pinned named pinning strict h = ground arith

  pub prepare_read_write :
      is_empty (get param_cid req.parameters) ≡ true
      → (prepare d req s).0 ≡ ok path
      → (normalize_mfs_path (raw_mfs_path d req) d.cfg.mfs_root ≡ ok path)
        × (made (prepare d req s).1.events ≡ path ∷ made s.events)
  unfolding prepare
  prepare_read_write read_write h = ground arith

module _ {W : Type 0} (d : Driver W) (s : State W) where
  restore_if_none : (id path : Text) → is_empty id ≡ true → (restore_if d id path s).1 ≡ s
  restore_if_none id path no_id = rw no_id

  made-restore_if : (id path : Text) → made (restore_if d id path s).1.events ≡ made s.events
  unfolding restore_snapshot_to_mfs
  made-restore_if id path = ground arith

-- The three keys of the volume context, and that every other key keeps its parameter.
pub context_keys :
    (req : CreateVolumeRequest) (path : Text)
    → (get param_cid (context_of req path) ≡ get param_cid req.parameters)
      × (get param_mfs_path (context_of req path) ≡ path)
      × (get param_read_only (context_of req path)
          ≡ bool_text (not (is_empty (get param_cid req.parameters))))
unfolding text_eq
context_keys req path = (simp get-put, simp get-put, simp get-put)

context_others :
    (req : CreateVolumeRequest) (path k : Text)
    → k ≢ param_cid
    → k ≢ param_mfs_path
    → k ≢ param_read_only
    → get k (context_of req path) ≡ get k req.parameters
context_others req path k c m r = simp get-put (
    ground
      (arith, text_eq_iff param_cid k, text_eq_iff param_mfs_path k, text_eq_iff param_read_only k))

no_snapshot :
    (id cid : Text)
    → is_empty cid ≡ false
    → (not (is_empty id) && not (is_empty cid)) ≡ false
    → is_empty id ≡ true
no_snapshot id cid named one = ground arith

module _ {W : Type 0} (d : Driver W) (req : CreateVolumeRequest) (locks : VolumeLocks) (w : W)
    (v : Volume) (created : (create_volume d req (begin locks w)).0 ≡ ok v) where
  calls_by_cid :
      is_empty (get param_cid req.parameters) ≡ false
      → (create_volume d req (begin locks w)).1.events
        ≡ (prepare d req (inside req locks w)).1.events
  calls_by_cid named =
      let c = create_volume-Succeeded d req locks w v created in
      c.calls
      ∙ ap (λ (t : State W). t.events)
          (restore_if_none d _ c.snapshot_id c.mfs_path
            (no_snapshot c.snapshot_id _ named c.one_source))

  -- A volume created for a CID: IPFS has confirmed the CID.
  pub confirmed-create_volume :
      is_empty (get param_cid req.parameters) ≡ false
      → confirmed (create_volume d req (begin locks w)).1.events ≡ get param_cid req.parameters ∷ []
  confirmed-create_volume named =
      let c = create_volume-Succeeded d req locks w v created in
      ap confirmed (calls_by_cid named) ∙ prepare_by_cid d req _ c.mfs_path named c.prepared

  -- A volume created for a CID with pinning on, under a policy other than best-effort: the CID is
  -- pinned, once.
  pub create_volume_pinned :
      is_empty (get param_cid req.parameters) ≡ false
      → is_pinning_enabled req.parameters ≡ true
      → text_eq d.cfg.pin_failure_policy pin_failure_policy_best_effort ≡ false
      → pinned (create_volume d req (begin locks w)).1.events ≡ get param_cid req.parameters ∷ []
  create_volume_pinned named pinning strict =
      let c = create_volume-Succeeded d req locks w v created in
      ap pinned (calls_by_cid named)
      ∙ prepare_pinned d req _ c.mfs_path named pinning strict c.prepared

  -- A read-write volume, under an absolute MFS root: its directory was made, that directory and no
  -- other, it is the one that the volume context names, and it lies under the root.
  pub create_volume_read_write :
      is_empty (get param_cid req.parameters) ≡ true
      → is_abs d.cfg.mfs_root ≡ true
      → (made (create_volume d req (begin locks w)).1.events
          ≡ get param_mfs_path v.volume_context ∷ [])
        × IsUnder d.cfg.mfs_root (get param_mfs_path v.volume_context)
  create_volume_read_write read_write abs =
      let c = create_volume-Succeeded d req locks w v created in
      let (normal, dirs) =
        prepare_read_write d req (inside req locks w) c.mfs_path read_write c.prepared in
      let named : get param_mfs_path v.volume_context ≡ c.mfs_path =
        ap (λ (x : Volume). get param_mfs_path x.volume_context) c.result
        ∙ (context_keys req c.mfs_path).1 in
      rw named (
        ap made c.calls ∙ made-restore_if d _ c.snapshot_id c.mfs_path ∙ dirs,
        normalize_mfs_path-IsUnder (raw_mfs_path d req) d.cfg.mfs_root abs normal,
      )

  -- The volume that CreateVolume returns: its ID is made from the name alone. In its context the
  -- CID is the parameter's, `readonly` says whether there is a CID, and every key but the CID, the
  -- MFS path and `readonly` has its parameter.
  pub create_volume_context :
      (k : Text)
      → k ≢ param_cid
      → k ≢ param_mfs_path
      → k ≢ param_read_only
      → (v.volume_id ≡ volume_id req.name)
        × (get param_cid v.volume_context ≡ get param_cid req.parameters)
        × (get param_read_only v.volume_context
            ≡ bool_text (not (is_empty (get param_cid req.parameters))))
        × (get k v.volume_context ≡ get k req.parameters)
  create_volume_context k not_cid not_path not_read_only =
      let c = create_volume-Succeeded d req locks w v created in
      let keys = context_keys req c.mfs_path in
      rw c.result
        (refl, keys.0, keys.2, context_others req c.mfs_path k not_cid not_path not_read_only)
