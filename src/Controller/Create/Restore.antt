-- ===== src/Controller/Create/Restore.antt =====
-- The restore of a snapshot: what a success did, and that no temporary directory stays behind.
use mathlib.Core.Path.{ap₂}
use csi_driver_ipfs.Base.{
  List, Bool, if◌then◌else◌, ◌≡◌, refl, ap, ◌∙◌, true, false, not, ◌&&◌, some, [], ◌∷◌, arith,
  Result, ok, err, Bool-cases, inl, inr,
}
use csi_driver_ipfs.Base.Exec.{
  bind-ok, map_error-ok, or_else, attempt, fail, continue, return, ◌>>=◌, ◌>>◌,
}
use csi_driver_ipfs.Text.{Text, is_empty}
use csi_driver_ipfs.Dict.{get}
use csi_driver_ipfs.Sanitize.{volume_id}
use csi_driver_ipfs.Csi.{Code, not_found, CreateVolumeRequest, Volume}
use csi_driver_ipfs.Locks.{VolumeLocks, is_held}
use csi_driver_ipfs.Driver.{
  Driver, State, begin, Event, param_cid, param_mfs_path, path_removed, mfs_imported, cid_fetched,
  temp_made, cid_stated, mfs_made,
}
use csi_driver_ipfs.Driver.Calls
use csi_driver_ipfs.Errors.{Error}
use csi_driver_ipfs.Driver.Events.{temps, discarded}
use csi_driver_ipfs.Driver.Calls.{Method, with_lock}
use csi_driver_ipfs.Controller.Locking.{locked, with_lock-free, with_lock-busy}
use csi_driver_ipfs.Controller.Create.{
  as_internal, restore_into, discard, snapshot_source_id, prepare, restore_if,
  restore_snapshot_to_mfs, volume_of, provision, create_volume,
}
use csi_driver_ipfs.Controller.Create.Content.{context_keys}
use csi_driver_ipfs.Controller.Create.Outcome.{create_volume-Succeeded, inside}

-- Each temporary directory that was made was asked to be removed.
abbrev pub IsTidy : {W : Type 0} → State W → Type 0
IsTidy s = temps s.events ≡ discarded s.events

continue-IsTidy :
    {W A B : Type 0} (r : Result Code A) (f : A → Method W B) (s : State W)
    → IsTidy s
    → ((a : A) (t : State W) → IsTidy t → IsTidy (f a t).1)
    → IsTidy (continue r f s).1
continue-IsTidy (ok a) f s h rest = rest a s h
continue-IsTidy (err e) f s h rest = h

bind-IsTidy :
    {W A B : Type 0} (m : Method W A) (f : A → Method W B) (s : State W)
    → IsTidy (m s).1
    → ((a : A) (t : State W) → IsTidy t → IsTidy (f a t).1)
    → IsTidy ((m >>= f) s).1
bind-IsTidy m f s h rest = continue-IsTidy (m s).0 f (m s).1 h rest

-- The calls of a restore, the last one first: IPFS has the CID, its content was fetched into a new
-- temporary directory and imported from there, and the directory was asked to be removed.
abbrev pub restored_from : Text → Text → Text → Result Error Unit → List Event → List Event
restored_from id dir path r events =
    path_removed dir r
    ∷ mfs_imported dir path (ok tt)
    ∷ cid_fetched id dir (ok tt)
    ∷ temp_made (ok dir)
    ∷ cid_stated id (ok true)
    ∷ events

module _ {W : Type 0} (d : Driver W) where
  prepare-IsTidy : (req : CreateVolumeRequest) (s : State W) → IsTidy s → IsTidy (prepare d req s).1
  unfolding prepare
  prepare-IsTidy req s h = ground arith

  restore-IsTidy : (id path : Text) (s : State W) → IsTidy s → IsTidy (restore_if d id path s).1
  unfolding restore_snapshot_to_mfs
  restore-IsTidy id path s h = ground arith

  provision-IsTidy :
      (req : CreateVolumeRequest) (id : Text) (s : State W)
      → IsTidy s
      → IsTidy (provision d req id s).1
  unfolding provision
  provision-IsTidy req id s h =
      bind-IsTidy (prepare d req) (λ path. restore_if d id path >> return (volume_of req id path)) s
        (prepare-IsTidy req s h)
        (λ path t k.
          bind-IsTidy (restore_if d id path) (λ _. return (volume_of req id path)) t
            (restore-IsTidy id path t k) (λ _ u l. l))

  with_lock-IsTidy :
      {A : Type 0} (key : Text) (body : Method W A) (s : State W)
      → IsTidy s
      → ((t : State W) → IsTidy t → IsTidy (body t).1)
      → IsTidy (with_lock key body s).1
  with_lock-IsTidy key body s h keeps = elim (Bool-cases (is_held key s.locks)) [
    | inl busy ↦ rw (with_lock-busy key body s busy) h
    | inr free ↦ rw (with_lock-free key body s free).1 (keeps (locked key s) h)
  ]

  -- Whatever CreateVolume answers, and at whichever call it fails, each temporary directory that
  -- it has made for a snapshot is asked to be removed, and nothing else is.
  pub create_volume-IsTidy :
      (req : CreateVolumeRequest) (locks : VolumeLocks) (w : W)
      → IsTidy (create_volume d req (begin locks w)).1
  unfolding create_volume
  create_volume-IsTidy req locks w = elim (Bool-cases (is_empty req.name)) [
    | inl empty ↦ rw empty refl
    | inr named ↦ rw named (
        continue-IsTidy (snapshot_source_id req.content_source) _ (begin locks w) refl (λ id t h.
          elim (Bool-cases (not (is_empty id) && not (is_empty (get param_cid req.parameters)))) [
            | inl both ↦ rw both h
            | inr one ↦ rw one (
                with_lock-IsTidy (volume_id req.name) (provision d req id) t h
                  (provision-IsTidy req id))
          ]))
  ]

  restore_into_ok :
      (id dir path : Text) (s : State W)
      → (restore_into d id dir path s).0 ≡ ok tt
      → (restore_into d id dir path s).1.events
        ≡ mfs_imported dir path (ok tt) ∷ cid_fetched id dir (ok tt) ∷ s.events
  restore_into_ok id dir path s h =
      let (_, got, rest, e) =
        bind-ok (or_else (Calls.get_cid_content d id dir) as_internal)
          (λ _. or_else (Calls.import_to_mfs d dir path) as_internal) s tt h in
      ap (λ r. r.1.events) e
      ∙ ap₂ (λ r q. mfs_imported dir path r ∷ cid_fetched id dir q ∷ s.events)
          (map_error-ok _ as_internal tt rest) (map_error-ok _ as_internal tt got)

  -- What runs with the temporary directory.
  abbrev with_dir : Text → Text → Text → Method W Unit
  with_dir id path dir = attempt (restore_into d id dir path) >>= discard d dir

  with_dir_ok :
      (id path dir : Text) (s : State W)
      → (with_dir id path dir s).0 ≡ ok tt
      → (r : Result Error Unit) × ((with_dir id path dir s).1.events
          ≡ path_removed dir r
            ∷ mfs_imported dir path (ok tt)
            ∷ cid_fetched id dir (ok tt)
            ∷ s.events)
  with_dir_ok id path dir s h =
      let r = (d.host.remove_all dir (restore_into d id dir path s).1.world).0 in
      (r, ap (λ es. path_removed dir r ∷ es) (restore_into_ok id dir path s h))

  -- What runs after IPFS was asked for the snapshot's CID.
  abbrev with_found : Text → Text → Bool → Method W Unit
  with_found id path exists =
      if not exists
      then fail not_found
      else or_else (Calls.mkdir_temp d) as_internal >>= with_dir id path

  with_found_ok :
      (id path : Text) (exists : Bool) (s : State W)
      → (with_found id path exists s).0 ≡ ok tt
      → (exists ≡ true)
        × (dir : Text) × (r : Result Error Unit) × ((with_found id path exists s).1.events
            ≡ path_removed dir r
              ∷ mfs_imported dir path (ok tt)
              ∷ cid_fetched id dir (ok tt)
              ∷ temp_made (ok dir)
              ∷ s.events)
  with_found_ok id path false s h = cc
  with_found_ok id path true s h =
      let (dir, made, rest, e) =
        bind-ok (or_else (Calls.mkdir_temp d) as_internal) (with_dir id path) s tt h in
      let (r, calls) = with_dir_ok id path dir (Calls.mkdir_temp d s).1 rest in
      (
        refl,
        dir,
        r,
        ap (λ q. q.1.events) e
            ∙ calls
            ∙ ap
                (λ t.
                  path_removed dir r
                  ∷ mfs_imported dir path (ok tt)
                  ∷ cid_fetched id dir (ok tt)
                  ∷ temp_made t
                  ∷ s.events)
                (map_error-ok _ as_internal dir made),
      )

  restored_lem :
      (id path : Text) (s : State W)
      → is_empty id ≡ false
      → (restore_if d id path s).0 ≡ ok tt
      → (dir : Text) × (r : Result Error Unit) × ((restore_if d id path s).1.events
          ≡ restored_from id dir path r s.events)
  unfolding restore_snapshot_to_mfs
  restored_lem id path s named h =
      let (exists, found, rest, e₁) =
        bind-ok (or_else (Calls.stat_cid d id) as_internal) (with_found id path) s tt
          (rw named at h) in
      let (is, dir, r, calls) = with_found_ok id path exists (Calls.stat_cid d id s).1 rest in
      (
        dir,
        r,
        rw named (ap (λ q. q.1.events) e₁)
            ∙ calls
            ∙ ap
                (λ q.
                  path_removed dir r
                  ∷ mfs_imported dir path (ok tt)
                  ∷ cid_fetched id dir (ok tt)
                  ∷ temp_made (ok dir)
                  ∷ cid_stated id q
                  ∷ s.events)
                (map_error-ok _ as_internal exists found ∙ ap ok is),
      )

prepare_made :
    {W : Type 0} (d : Driver W) (req : CreateVolumeRequest) (path : Text) (s : State W)
    → is_empty (get param_cid req.parameters) ≡ true
    → (prepare d req s).0 ≡ ok path
    → (prepare d req s).1.events ≡ mfs_made path (ok tt) ∷ s.events
unfolding prepare
prepare_made d req path s read_write h = ground arith

-- A volume created from a snapshot. The calls, in this order and no others: the volume's MFS path, the
-- one that the volume context names, was made; IPFS has confirmed the snapshot's CID; its content was
-- fetched into a temporary directory, and imported from there into the path; and the directory was
-- asked to be removed. The volume names the snapshot.
pub create_volume_restored :
    {W : Type 0} (d : Driver W) (req : CreateVolumeRequest) (locks : VolumeLocks) (w : W)
    (v : Volume) (id : Text)
    → (create_volume d req (begin locks w)).0 ≡ ok v
    → snapshot_source_id req.content_source ≡ ok id
    → is_empty id ≡ false
    → (dir : Text) × (r : Result Error Unit) × ((create_volume d req (begin locks w)).1.events
        ≡ restored_from id dir
            (get param_mfs_path v.volume_context)
            r
            (mfs_made (get param_mfs_path v.volume_context) (ok tt) ∷ []))
      × (v.content_source ≡ some id)
create_volume_restored d req locks w v id created source named =
    let c = create_volume-Succeeded d req locks w v created in
    let same : c.snapshot_id ≡ id = cc (c.source) in
    let filled : is_empty c.snapshot_id ≡ false = ap is_empty same ∙ named in
    let read_write : is_empty (get param_cid req.parameters) ≡ true =
      ground (arith, c.one_source) in
    let before = prepare_made d req c.mfs_path (inside req locks w) read_write c.prepared in
    let (dir, r, done) = restored_lem d c.snapshot_id c.mfs_path _ filled c.restored in
    let path : get param_mfs_path v.volume_context ≡ c.mfs_path =
      ap (λ (x : Volume). get param_mfs_path x.volume_context) c.result
      ∙ (context_keys req c.mfs_path).1 in
    (
      dir,
      r,
      rw path (c.calls ∙ done ∙ ap₂ (λ i es. restored_from i dir c.mfs_path r es) same before),
      ap (λ (x : Volume). x.content_source) c.result ∙ rw filled (ap some same),
    )
