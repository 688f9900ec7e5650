-- ===== src/Controller/Queries/Snapshots.antt =====
-- What CreateSnapshot does on a volume that is found.
use csi_driver_ipfs.Base.{
  ◌≡◌, refl, true, false, some, List, [], ◌∷◌, ◌++◌, Result, ok, err, Bool-cases, inl, inr,
  if◌then◌else◌, ◌^◌,
}
use csi_driver_ipfs.Text.{Text, lit, is_empty}
use csi_driver_ipfs.Dict.{get}
use csi_driver_ipfs.Base.Int.{ℤ, pos, is_zero}
use csi_driver_ipfs.Errors.{Error}
use csi_driver_ipfs.Csi.{Code, Snapshot, invalid_argument, internal}
use csi_driver_ipfs.Store.{VolumeAttributes}
use csi_driver_ipfs.Locks.{is_held}
use csi_driver_ipfs.Driver.{
  Driver, State, Event, param_mfs_path, volume_read, mfs_resolved, cid_pinned,
}
use csi_driver_ipfs.Controller.Locking.{with_lock-free}
use csi_driver_ipfs.Controller.Queries.{create_snapshot_locked, create_snapshot}

-- The answer for a volume with this MFS path, of what the resolution answers and of the time after the pin of a CID.
abbrev pub snapshot_outcome :
    VolumeAttributes → Text → Result Error Text → (Text → ℤ) → Result Code Snapshot
snapshot_outcome attrs source (err e) time =
    if is_empty (get param_mfs_path attrs.attributes) then err invalid_argument else err internal
snapshot_outcome attrs source (ok cid) time =
    if is_empty (get param_mfs_path attrs.attributes)
    then err invalid_argument
    else ok (record {
      snapshot_id = cid;
      source_volume_id = source;
      creation_time = some (time cid);
      ready_to_use = true;
      size_bytes = if is_zero attrs.capacity then pos (2 ^ 30) else attrs.capacity;
    })

-- The calls after the read, the last one first: none without an MFS path, and a pin only of a CID
-- that the path resolved to.
abbrev pub snapshot_calls : Text → Result Error Text → (Text → Result Error Unit) → List Event
snapshot_calls path (err e) pin = if is_empty path then [] else mfs_resolved path (err e) ∷ []
snapshot_calls path (ok cid) pin =
    if is_empty path then [] else cid_pinned cid (pin cid) ∷ mfs_resolved path (ok cid) ∷ []

module _ {W : Type 0} (d : Driver W) (name source : Text) (s : State W) (attrs : VolumeAttributes)
    (w₁ : W) (named : is_empty name ≡ false) (sourced : is_empty source ≡ false)
    (free : is_held (lit "snapshot-" ++ name) s.locks ≡ false)
    (read : d.volumes.get_volume_attributes source s.world ≡ (ok attrs, w₁)) where
  -- CreateSnapshot of an unlocked name on a volume that is found, neither of them empty, whatever
  -- the resolution of its MFS path and the pin answer. Without an MFS path it is refused, with no
  -- call of IPFS. Where the path does not resolve, the answer is Internal and nothing is pinned.
  -- Where it resolves, the snapshot's ID is the CID, which is pinned once, its size is the
  -- volume's or 1 GiB, and the snapshot is answered even if the pin fails.
  pub create_snapshot_found :
      (r : Result Error Text) (w₂ : W)
      → d.ipfs.resolve_mfs_cid (get param_mfs_path attrs.attributes) w₁ ≡ (r, w₂)
      → ((create_snapshot d name source s).0
          ≡ snapshot_outcome attrs source r (λ cid. d.host.now (d.ipfs.pin_cid cid w₂).1))
        × ((create_snapshot d name source s).1.events
            ≡ snapshot_calls
                (get param_mfs_path attrs.attributes)
                r
                (λ cid. (d.ipfs.pin_cid cid w₂).0)
              ++ volume_read source (ok attrs) ∷ s.events)
  unfolding create_snapshot create_snapshot_locked
  create_snapshot_found (ok cid) w₂ answer =
      let run = with_lock-free (lit "snapshot-" ++ name) (create_snapshot_locked d source) s free in
      elim (Bool-cases (is_empty (get param_mfs_path attrs.attributes))) [
        | inl missing ↦ rw (named, sourced, run.0, run.1, read, missing) (refl, refl)
        | inr stored ↦ rw (named, sourced, run.0, run.1, read, stored, answer) (refl, refl)
      ]
  create_snapshot_found (err e) w₂ answer =
      let run = with_lock-free (lit "snapshot-" ++ name) (create_snapshot_locked d source) s free in
      elim (Bool-cases (is_empty (get param_mfs_path attrs.attributes))) [
        | inl missing ↦ rw (named, sourced, run.0, run.1, read, missing) (refl, refl)
        | inr stored ↦ rw (named, sourced, run.0, run.1, read, stored, answer) (refl, refl)
      ]
