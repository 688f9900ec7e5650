-- ===== src/Store/Snapshots/Laws.antt =====
-- What `ListSnapshots` of the store returns: the contents that pass the filters, each once.
use csi_driver_ipfs.Base.{◌≡◌, refl, ◌⊎◌, true, none, some, List, [], ◌∷◌, Option, arith}
use csi_driver_ipfs.Text.{Text, is_empty, text_eq_iff}
use csi_driver_ipfs.Store.{SnapshotEntry}
use csi_driver_ipfs.Store.Snapshots.{
  SnapshotContent, handle, source_volume, entry_of, vsc_to_snapshot_entry, snapshots_of, cons_some,
}

-- The contents that a query asks for: those of the driver, with the ID and the source volume if
-- they are given.
abbrev pub Asked : Text → Text → Text → SnapshotContent → Type 0
Asked driver_name id volume vsc =
    (vsc.driver ≡ driver_name)
    × ((is_empty id ≡ true) ⊎ (handle vsc ≡ id))
    × ((is_empty volume ≡ true) ⊎ (source_volume vsc ≡ volume))

vsc_to_snapshot_entry-Asked :
    (driver_name id volume : Text) (vsc : SnapshotContent)
    → Asked driver_name id volume vsc
    → vsc_to_snapshot_entry vsc driver_name id volume ≡ some (entry_of vsc)
unfolding vsc_to_snapshot_entry
vsc_to_snapshot_entry-Asked driver_name id volume vsc h = ground (
  arith,
  text_eq_iff vsc.driver driver_name,
  text_eq_iff (handle vsc) id,
  text_eq_iff (source_volume vsc) volume,
)

vsc_to_snapshot_entry-some :
    (driver_name id volume : Text) (vsc : SnapshotContent) (e : SnapshotEntry)
    → vsc_to_snapshot_entry vsc driver_name id volume ≡ some e
    → Asked driver_name id volume vsc × (e ≡ entry_of vsc)
unfolding vsc_to_snapshot_entry
vsc_to_snapshot_entry-some driver_name id volume vsc e h = ground (
  arith,
  text_eq_iff vsc.driver driver_name,
  text_eq_iff (handle vsc) id,
  text_eq_iff (source_volume vsc) volume,
)

-- `out` has the entry of each content that is asked for, in order, and nothing else.
pub data Selects (driver_name id volume : Text)
    : List SnapshotContent → List SnapshotEntry → Type 0 where
  end : Selects driver_name id volume [] []
  keep :
      {vsc : SnapshotContent} {all : List SnapshotContent} {out : List SnapshotEntry}
      → Asked driver_name id volume vsc
      → Selects driver_name id volume all out
      → Selects driver_name id volume (vsc ∷ all) (entry_of vsc ∷ out)
  skip :
      {vsc : SnapshotContent} {all : List SnapshotContent} {out : List SnapshotEntry}
      → ¬ (Asked driver_name id volume vsc)
      → Selects driver_name id volume all out
      → Selects driver_name id volume (vsc ∷ all) out

cons-Selects :
    (driver_name id volume : Text) (vsc : SnapshotContent) (all : List SnapshotContent)
    (out : List SnapshotEntry) (o : Option SnapshotEntry)
    → vsc_to_snapshot_entry vsc driver_name id volume ≡ o
    → Selects driver_name id volume all out
    → Selects driver_name id volume (vsc ∷ all) (cons_some o out)
cons-Selects driver_name id volume vsc all out none e s =
    skip (λ asked. cc (e, vsc_to_snapshot_entry-Asked driver_name id volume vsc asked)) s
cons-Selects driver_name id volume vsc all out (some entry) e s =
    let found = vsc_to_snapshot_entry-some driver_name id volume vsc entry e in
    rw found.1 (keep found.0 s)

-- The snapshots listed from the contents are the entries of exactly the contents of the driver
-- that have the asked snapshot ID and the asked source volume, where an empty filter asks for
-- nothing, in the order of the contents.
pub snapshots_of-Selects :
    (driver_name id volume : Text) (all : List SnapshotContent)
    → Selects driver_name id volume all (snapshots_of driver_name id volume all)
unfolding snapshots_of
snapshots_of-Selects driver_name id volume [] = end
snapshots_of-Selects driver_name id volume (vsc ∷ all) =
    cons-Selects driver_name id volume vsc all _ _ refl
      (snapshots_of-Selects driver_name id volume all)
