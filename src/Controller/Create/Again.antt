-- ===== src/Controller/Create/Again.antt =====
-- CreateVolume called again, as the CSI specification lets a caller do.
use csi_driver_ipfs.Base.{◌≡◌, refl, sym, ap, ◌∙◌, false, ok, Bool-cases, inl, inr, arith}
use csi_driver_ipfs.Text.{Text, is_empty}
use csi_driver_ipfs.Dict.{get}
use csi_driver_ipfs.Csi.{CreateVolumeRequest, Volume}
use csi_driver_ipfs.Locks.{VolumeLocks}
use csi_driver_ipfs.Driver.{Driver, State, begin, param_cid, param_mfs_path}
use csi_driver_ipfs.MfsPath.{normalize_mfs_path}
use csi_driver_ipfs.Controller.Create.{prepare, raw_mfs_path, volume_of, create_volume}
use csi_driver_ipfs.Controller.Create.Content.{prepare_read_write}
use csi_driver_ipfs.Controller.Create.Outcome.{create_volume-Succeeded}

prepare_cid_path :
    {W : Type 0} (d : Driver W) (req : CreateVolumeRequest) (s : State W) (p : Text)
    → is_empty (get param_cid req.parameters) ≡ false
    → (prepare d req s).0 ≡ ok p
    → p ≡ get param_mfs_path req.parameters
unfolding prepare
prepare_cid_path d req s p named h = ground arith

-- The path of a volume does not depend on what was answered, nor on the world.
prepare_same :
    {W V : Type 0} (d : Driver W) (e : Driver V) (req : CreateVolumeRequest) (s : State W)
    (t : State V) (p q : Text)
    → d.cfg.mfs_root ≡ e.cfg.mfs_root
    → (prepare d req s).0 ≡ ok p
    → (prepare e req t).0 ≡ ok q
    → p ≡ q
prepare_same d e req s t p q roots hp hq =
    elim (Bool-cases (is_empty (get param_cid req.parameters))) [
      | inr named ↦ prepare_cid_path d req s p named hp ∙ sym (prepare_cid_path e req t q named hq)
      | inl unnamed ↦
          let a = (prepare_read_write d req s p unnamed hp).0 in
          let b = (prepare_read_write e req t q unnamed hq).0 in
          let same : normalize_mfs_path (raw_mfs_path d req) d.cfg.mfs_root
              ≡ normalize_mfs_path (raw_mfs_path e req) e.cfg.mfs_root =
            rw roots refl in
          cc (a, b, same)
    ]

-- Two calls of CreateVolume with the same request that both succeed, by drivers with one MFS root,
-- with any locks and whatever IPFS, the cluster and the host answered: they return the same volume,
-- with the same ID, capacity, context and source.
pub create_volume_again :
    {W V : Type 0} (d : Driver W) (e : Driver V) (req : CreateVolumeRequest)
    (locks locks₂ : VolumeLocks) (w : W) (w₂ : V) (v v₂ : Volume)
    → d.cfg.mfs_root ≡ e.cfg.mfs_root
    → (create_volume d req (begin locks w)).0 ≡ ok v
    → (create_volume e req (begin locks₂ w₂)).0 ≡ ok v₂
    → v ≡ v₂
create_volume_again d e req locks locks₂ w w₂ v v₂ roots first second =
    let a = create_volume-Succeeded d req locks w v first in
    let b = create_volume-Succeeded e req locks₂ w₂ v₂ second in
    let path = prepare_same d e req _ _ a.mfs_path b.mfs_path roots a.prepared b.prepared in
    let id : a.snapshot_id ≡ b.snapshot_id = cc (a.source, b.source) in
    a.result
    ∙ ap (λ i. volume_of req i a.mfs_path) id
    ∙ ap (volume_of req b.snapshot_id) path
    ∙ sym b.result
