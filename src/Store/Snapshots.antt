-- ===== src/Store/Snapshots.antt =====
-- pkg/driver/store/volume_snapshot_content.go: the snapshot store over a VolumeSnapshotContent
-- lister.
pub mod Laws
use csi_driver_ipfs.Base.{
  ℕ, suc, ◌/◌, ◌-◌, ◌^◌, Bool, true, false, not, ◌&&◌, Option, none, some, List, [], ◌∷◌, leb,
  if◌then◌else◌,
}
use csi_driver_ipfs.Base.Int.{ℤ, pos, negsuc}
use csi_driver_ipfs.Base.Exec.{return, ◌>>=◌, or_else}
use csi_driver_ipfs.Text.{Text, is_empty, text_eq}
use csi_driver_ipfs.Errors.{wrapped, Op}
use csi_driver_ipfs.Store.{SnapshotEntry, SnapshotStore}

-- The parts of a VolumeSnapshotContent that the store reads; an absent pointer is `none`.
pub record ContentStatus : Type 0 where
  pub snapshot_handle : Option Text
  pub ready_to_use : Option Bool
  pub creation_time : Option ℤ
  pub restore_size : Option ℤ

pub record SnapshotContent : Type 0 where
  pub driver : Text
  pub source_volume_handle : Option Text
  pub source_snapshot_handle : Option Text
  pub status : Option ContentStatus

pub record Lister (W : Type 0) : Type 0 where
  pub list : Op W (List SnapshotContent)

abbrev pub value_or {ℓ} : {A : Type ℓ} → A → Option A → A
value_or default none = default
value_or default (some a) = a

-- `vsc.Status != nil && vsc.Status.F != nil`
abbrev pub status_field {ℓ} :
    {A : Type ℓ} → (ContentStatus → Option A) → Option ContentStatus → Option A
status_field field none = none
status_field field (some status) = field status

-- Go's `/` on int64 by 1e9, which rounds towards zero.
abbrev pub nanoseconds : ℕ
nanoseconds = 10 ^ 9

abbrev pub negated : ℕ → ℤ
negated n = if leb n 0 then pos 0 else negsuc (n - 1)

unfoldable pub to_seconds : ℤ → ℤ
to_seconds (pos n) = pos (n / nanoseconds)
to_seconds (negsuc n) = negated (suc n / nanoseconds)

unfoldable pub source_volume : SnapshotContent → Text
source_volume vsc = value_or [] vsc.source_volume_handle

-- The status' handle, and the source's if that is empty.
unfoldable pub handle : SnapshotContent → Text
handle vsc =
    let snap_handle : Text = value_or [] (status_field (λ s. s.snapshot_handle) vsc.status) in
    if is_empty snap_handle then value_or snap_handle vsc.source_snapshot_handle else snap_handle

unfoldable pub entry_of : SnapshotContent → SnapshotEntry
entry_of vsc = record {
  snapshot_id = handle vsc;
  source_volume_id = source_volume vsc;
  ready_to_use = value_or false (status_field (λ s. s.ready_to_use) vsc.status);
  creation_time = elim (status_field (λ s. s.creation_time) vsc.status) [
    | none ↦ pos 0
    | some t ↦ to_seconds t
  ];
  size_bytes = value_or (pos 0) (status_field (λ s. s.restore_size) vsc.status);
}

-- `filter != "" && value != filter`
abbrev pub is_filtered : Text → Text → Bool
is_filtered filter value = not (is_empty filter) && not (text_eq value filter)

unfoldable pub vsc_to_snapshot_entry : SnapshotContent → Text → Text → Text → Option SnapshotEntry
vsc_to_snapshot_entry vsc driver_name filter_snapshot_id filter_source_volume_id =
    if not (text_eq vsc.driver driver_name)
    then none
    else if is_filtered filter_snapshot_id (handle vsc)
    then none
    else if is_filtered filter_source_volume_id (source_volume vsc)
    then none
    else some (entry_of vsc)

abbrev pub cons_some : Option SnapshotEntry → List SnapshotEntry → List SnapshotEntry
cons_some (some entry) out = entry ∷ out
cons_some none out = out

-- The loop of ListSnapshots.
unfoldable pub snapshots_of : Text → Text → Text → List SnapshotContent → List SnapshotEntry
snapshots_of driver_name id volume [] = []
snapshots_of driver_name id volume (vsc ∷ all) =
    cons_some (vsc_to_snapshot_entry vsc driver_name id volume)
      (snapshots_of driver_name id volume all)

module _ {W : Type 0} (lister : Lister W) where
  unfoldable pub list_snapshots : Text → Text → Text → Op W (List SnapshotEntry)
  list_snapshots driver_name id volume = do
    all ← or_else lister.list wrapped
    return (snapshots_of driver_name id volume all)

  -- NewSnapshotStoreFromVSCLister, where the lister is there.
  abbrev pub vsc_store : SnapshotStore W
  vsc_store = record { list_snapshots = list_snapshots }
