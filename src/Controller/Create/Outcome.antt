-- ===== src/Controller/Create/Outcome.antt =====
-- What a CreateVolume that succeeds has gone through.
use csi_driver_ipfs.Base.{
  ◌≡◌, sym, ap, ◌∙◌, inl, inr, false, not, ◌&&◌, Result, ok, Result-cases, Bool-cases,
}
use csi_driver_ipfs.Base.Exec.{return, ◌>>◌, bind-ok}
use csi_driver_ipfs.Text.{Text, is_empty}
use csi_driver_ipfs.Dict.{get}
use csi_driver_ipfs.Sanitize.{volume_id}
use csi_driver_ipfs.Csi.{CreateVolumeRequest, Volume, Code}
use csi_driver_ipfs.Locks.{VolumeLocks, is_held}
use csi_driver_ipfs.Driver.{Driver, State, begin, param_cid}
use csi_driver_ipfs.Driver.Calls.{Method, with_lock}
use csi_driver_ipfs.Controller.Locking.{locked, with_lock-free, with_lock-busy}
use csi_driver_ipfs.Controller.Create.{
  snapshot_source_id, prepare, restore_if, volume_of, provision, create_volume,
}

-- The state in which the content is prepared.
abbrev pub inside : {W : Type 0} → CreateVolumeRequest → VolumeLocks → W → State W
inside req locks w = locked (volume_id req.name) (begin locks w)

-- The facts of a success: the request was valid, the volume was not locked, the content was
-- prepared and the snapshot, if any, restored.
pub record Succeeded {W : Type 0} (d : Driver W) (req : CreateVolumeRequest) (locks : VolumeLocks)
    (w : W) (v : Volume) : Type 0 where
  pub snapshot_id : Text
  pub mfs_path : Text
  pub named : is_empty req.name ≡ false
  pub source : snapshot_source_id req.content_source ≡ ok snapshot_id
  pub one_source :
      (not (is_empty snapshot_id) && not (is_empty (get param_cid req.parameters))) ≡ false
  pub unlocked : is_held (volume_id req.name) locks ≡ false
  pub prepared : (prepare d req (inside req locks w)).0 ≡ ok mfs_path
  pub restored :
      (restore_if d snapshot_id mfs_path (prepare d req (inside req locks w)).1).0 ≡ ok tt
  pub result : v ≡ volume_of req snapshot_id mfs_path
  pub calls :
      (create_volume d req (begin locks w)).1.events
      ≡ (restore_if d snapshot_id mfs_path (prepare d req (inside req locks w)).1).1.events

with_lock-ok :
    {W A : Type 0} (key : Text) (body : Method W A) (s : State W) (a : A)
    → (with_lock key body s).0 ≡ ok a
    → is_held key s.locks ≡ false
with_lock-ok key body s a h = elim (Bool-cases (is_held key s.locks)) [
  | inl busy ↦ cc (h, ap (λ (p : Result Code _ × State _). p.0) (with_lock-busy key body s busy))
  | inr free ↦ free
]

module _ {W : Type 0} (d : Driver W) (req : CreateVolumeRequest) (locks : VolumeLocks) (w : W)
    (v : Volume) where
  provision-Succeeded :
      (id : Text)
      → is_empty req.name ≡ false
      → snapshot_source_id req.content_source ≡ ok id
      → (not (is_empty id) && not (is_empty (get param_cid req.parameters))) ≡ false
      → (with_lock (volume_id req.name) (provision d req id) (begin locks w)).0 ≡ ok v
      → Succeeded d req locks w v
  unfolding create_volume provision
  provision-Succeeded id named e one h =
      let free = with_lock-ok (volume_id req.name) (provision d req id) (begin locks w) v h in
      let ran = with_lock-free (volume_id req.name) (provision d req id) (begin locks w) free in
      let (path, p, rest, first) =
        bind-ok (prepare d req) (λ path. restore_if d id path >> return (volume_of req id path))
          (inside req locks w) v (sym ran.0 ∙ h) in
      let (_, r, done, second) =
        bind-ok (restore_if d id path) (λ _. return (volume_of req id path))
          (prepare d req (inside req locks w)).1 v rest in
      record {
        snapshot_id = id;
        mfs_path = path;
        named = named;
        source = e;
        one_source = one;
        unlocked = free;
        prepared = p;
        restored = r;
        result = cc done;
        calls =
            rw (named, e, one)
              (ran.1 ∙ ap (λ (q : Result Code Volume × State W). q.1.events) (first ∙ second));
      }

  -- A success of CreateVolume has gone through all its steps.
  pub create_volume-Succeeded :
      (create_volume d req (begin locks w)).0 ≡ ok v → Succeeded d req locks w v
  unfolding create_volume
  create_volume-Succeeded h = elim (Bool-cases (is_empty req.name)) [
    | inl empty ↦ cc (rw empty at h)
    | inr named ↦ elim (Result-cases (snapshot_source_id req.content_source)) [
      | inr (code, e) ↦ cc (rw (named, e) at h)
      | inl (id, e) ↦
          elim (Bool-cases (not (is_empty id) && not (is_empty (get param_cid req.parameters)))) [
            | inl both ↦ cc (rw (named, e, both) at h)
            | inr one ↦ provision-Succeeded id named e one (rw (named, e, one) at h)
          ]
    ]
  ]
