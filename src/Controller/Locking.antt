-- ===== src/Controller/Locking.antt =====
-- The volume locks around the controller's methods.
use csi_driver_ipfs.Base.{
  ◌≡◌, refl, Bool, true, false, not, ◌&&◌, ◌∷◌, ◌++◌, arith, ok, err, Result-cases, Bool-cases, inl,
  inr,
}
use csi_driver_ipfs.Base.Exec.{◌>>=◌, bind-keeps}
use csi_driver_ipfs.Dict.{get}
use csi_driver_ipfs.Sanitize.{volume_id}
use csi_driver_ipfs.Text.{Text, lit, is_empty, text_eq_iff}
use csi_driver_ipfs.Csi.{CreateVolumeRequest, aborted}
use csi_driver_ipfs.Locks.{is_held, try_acquire}
use csi_driver_ipfs.Locks.Laws.{is_held-release, try_acquire_lem}
use csi_driver_ipfs.Driver.{Driver, State, param_cid}
use csi_driver_ipfs.Driver.Calls.{Method, with_lock}
use csi_driver_ipfs.Controller.Create.{
  snapshot_source_id, prepare, restore_if, restore_snapshot_to_mfs, provision, create_volume,
}
use csi_driver_ipfs.Controller.References.{
  cid_reference_usage, release_cid, remove_tree, cleanup_volume_in_ipfs,
}
use csi_driver_ipfs.Controller.Queries.{create_snapshot_locked, create_snapshot}
use csi_driver_ipfs.Controller.Delete.{
  delete_locked, delete_volume, delete_snapshot_locked, delete_snapshot,
}

-- A body that finds its key free runs with the key in the lock set.
abbrev pub locked : {W : Type 0} → Text → State W → State W
locked key s = record s { locks = key ∷ s.locks }

pub with_lock-free :
    {W A : Type 0} (key : Text) (body : Method W A) (s : State W)
    → is_held key s.locks ≡ false
    → ((with_lock key body s).0 ≡ (body (locked key s)).0)
      × ((with_lock key body s).1.events ≡ (body (locked key s)).1.events)
unfolding with_lock try_acquire
with_lock-free key body s free = rw free (refl, refl)

bind-locks :
    {W A B : Type 0} (m : Method W A) (f : A → Method W B) (s : State W)
    → (m s).1.locks ≡ s.locks
    → ((a : A) (t : State W) → (f a t).1.locks ≡ t.locks)
    → ((m >>= f) s).1.locks ≡ s.locks
bind-locks = bind-keeps (λ s. s.locks)

-- A body that leaves the locks alone is held by its key only while it runs.
with_lock-held :
    {W A : Type 0} (key : Text) (body : Method W A)
    → ((s : State W) → (body s).1.locks ≡ s.locks)
    → (s : State W) (k : Text) → is_held k (with_lock key body s).1.locks ≡ is_held k s.locks
unfolding with_lock
with_lock-held key body keeps s k = ground (
  arith,
  keeps (record s { locks = (try_acquire key s.locks).1 }),
  try_acquire_lem key k s.locks,
  is_held-release key k (try_acquire key s.locks).1,
  text_eq_iff key k,
)

pub with_lock-busy :
    {W A : Type 0} (key : Text) (body : Method W A) (s : State W)
    → is_held key s.locks ≡ true
    → with_lock key body s ≡ (err aborted, s)
unfolding with_lock
with_lock-busy key body s busy = ground (arith, try_acquire_lem key key s.locks)

module _ {W : Type 0} (d : Driver W) where
  prepare-locks : (req : CreateVolumeRequest) (s : State W) → (prepare d req s).1.locks ≡ s.locks
  unfolding prepare
  prepare-locks req s = ground arith

  restore-locks :
      (id path : Text) (s : State W) → (restore_snapshot_to_mfs d id path s).1.locks ≡ s.locks
  unfolding restore_snapshot_to_mfs
  restore-locks id path s = ground arith

  restore_if-locks : (id path : Text) (s : State W) → (restore_if d id path s).1.locks ≡ s.locks
  restore_if-locks id path s = ground (arith, restore-locks id path s)

  provision-locks :
      (req : CreateVolumeRequest) (id : Text) (s : State W)
      → (provision d req id s).1.locks ≡ s.locks
  unfolding provision
  provision-locks req id s =
      bind-locks (prepare d req) _ s (prepare-locks req s)
        (λ path t. bind-locks (restore_if d id path) _ t (restore_if-locks id path t) (λ _ u. refl))

  usage-locks :
      (cid excluded : Text) (one : Bool) (s : State W)
      → (cid_reference_usage d cid excluded one s).1.locks ≡ s.locks
  unfolding cid_reference_usage
  usage-locks cid excluded one s = ground arith

  delete_locked-locks : (id : Text) (s : State W) → (delete_locked d id s).1.locks ≡ s.locks
  unfolding delete_locked cleanup_volume_in_ipfs release_cid remove_tree
  delete_locked-locks id s = grind (arith, usage-locks)

  delete_snapshot_locked-locks :
      (id : Text) (s : State W) → (delete_snapshot_locked d id s).1.locks ≡ s.locks
  unfolding delete_snapshot_locked
  delete_snapshot_locked-locks id s = grind (arith, usage-locks)

  -- CreateVolume leaves every lock as it found it, whether it succeeds or fails and at which call.
  pub create_volume-held :
      (req : CreateVolumeRequest) (s : State W) (k : Text)
      → is_held k (create_volume d req s).1.locks ≡ is_held k s.locks
  unfolding create_volume
  create_volume-held req s k = elim (Bool-cases (is_empty req.name)) [
    | inl empty ↦ rw empty
    | inr named ↦ elim (Result-cases (snapshot_source_id req.content_source)) [
      | inr (code, e) ↦ rw (named, e)
      | inl (id, e) ↦
          elim (Bool-cases (not (is_empty id) && not (is_empty (get param_cid req.parameters)))) [
            | inl both ↦ rw (named, e, both)
            | inr one ↦
                rw (named, e, one)
                  (with_lock-held (volume_id req.name) (provision d req id) (provision-locks req id)
                    s k)
          ]
    ]
  ]

  -- DeleteVolume and DeleteSnapshot leave every lock as they found it, on every path.
  pub delete-held :
      (id : Text) (s : State W) (k : Text)
      → (is_held k (delete_volume d id s).1.locks ≡ is_held k s.locks)
        × (is_held k (delete_snapshot d id s).1.locks ≡ is_held k s.locks)
  unfolding delete_volume delete_snapshot
  delete-held id s k = elim (Bool-cases (is_empty id)) [
    | inl empty ↦ rw empty (refl, refl)
    | inr named ↦ rw named (
      with_lock-held id (delete_locked d id) (delete_locked-locks id) s k,
      with_lock-held _ (delete_snapshot_locked d id) (delete_snapshot_locked-locks id) s k,
    )
  ]

  -- CreateVolume of a valid request whose volume ID is locked answers Aborted, calls nothing and
  -- changes nothing.
  pub create_volume_busy :
      (req : CreateVolumeRequest) (s : State W) (id : Text)
      → is_empty req.name ≡ false
      → snapshot_source_id req.content_source ≡ ok id
      → (not (is_empty id) && not (is_empty (get param_cid req.parameters))) ≡ false
      → is_held (volume_id req.name) s.locks ≡ true
      → create_volume d req s ≡ (err aborted, s)
  unfolding create_volume
  create_volume_busy req s id named e one busy =
      rw (named, e, one) (with_lock-busy (volume_id req.name) _ s busy)

  -- DeleteVolume on a volume ID that is locked, and DeleteSnapshot on an ID whose key is locked,
  -- answer Aborted, call nothing and change nothing.
  pub delete_busy :
      (id : Text) (s : State W)
      → is_empty id ≡ false
      → is_held id s.locks ≡ true
      → is_held (lit "delete-snapshot-" ++ id) s.locks ≡ true
      → (delete_volume d id s ≡ (err aborted, s)) × (delete_snapshot d id s ≡ (err aborted, s))
  unfolding delete_volume delete_snapshot
  delete_busy id s named busy snapshot_busy =
      rw named (with_lock-busy id _ s busy, with_lock-busy _ _ s snapshot_busy)

  create_snapshot_locked-locks :
      (source : Text) (s : State W) → (create_snapshot_locked d source s).1.locks ≡ s.locks
  unfolding create_snapshot_locked
  create_snapshot_locked-locks source s = ground arith

  create_snapshot-held :
      (name source : Text) (s : State W) (k : Text)
      → is_held k (create_snapshot d name source s).1.locks ≡ is_held k s.locks
  unfolding create_snapshot
  create_snapshot-held name source s k = elim (Bool-cases (is_empty name)) [
    | inl empty ↦ rw empty refl
    | inr named ↦ elim (Bool-cases (is_empty source)) [
      | inl empty ↦ rw (named, empty) refl
      | inr sourced ↦
          rw (named, sourced)
            (with_lock-held _ (create_snapshot_locked d source)
              (create_snapshot_locked-locks source) s k)
    ]
  ]

  -- Each of the four methods that take a lock leaves every lock as it found it, whether it succeeds
  -- or fails and at which call: CreateVolume, DeleteVolume, CreateSnapshot and DeleteSnapshot.
  pub locks_restored :
      (req : CreateVolumeRequest) (name source id : Text) (s : State W) (k : Text)
      → (is_held k (create_volume d req s).1.locks ≡ is_held k s.locks)
        × (is_held k (delete_volume d id s).1.locks ≡ is_held k s.locks)
        × (is_held k (create_snapshot d name source s).1.locks ≡ is_held k s.locks)
        × (is_held k (delete_snapshot d id s).1.locks ≡ is_held k s.locks)
  locks_restored req name source id s k = (
    create_volume-held req s k,
    (delete-held id s k).0,
    create_snapshot-held name source s k,
    (delete-held id s k).1,
  )
