-- ===== src/Controller/Listing.antt =====
-- ListVolumes and ListSnapshots of pkg/driver/controller.go.
pub mod Order
pub mod Pages
pub mod Client
use csi_driver_ipfs.Base.{
  ℕ, ◌+◌, ◌-◌, ◌^◌, Bool, true, false, not, ◌&&◌, ◌||◌, Option, none, some, List, [], ◌∷◌, ◌++◌,
  map, Result, ok, err, ltb, leb, length, take, drop, if◌then◌else◌, ◌==◌,
}
use csi_driver_ipfs.Base.Int.{ℤ, pos, negsuc, is_positive}
use csi_driver_ipfs.Base.Exec.{return, fail, ◌>>=◌, or_else}
use csi_driver_ipfs.Text.{Text, is_empty}
use csi_driver_ipfs.Decimal.{itoa, atoi}
use csi_driver_ipfs.Csi.{Code, invalid_argument, Volume, Snapshot}
use csi_driver_ipfs.Store.{VolumeAttributes, SnapshotEntry, SnapshotStore}
use csi_driver_ipfs.Driver.{Driver, State}
use csi_driver_ipfs.Driver.Calls
use csi_driver_ipfs.Driver.Calls.{Method, lift}
use csi_driver_ipfs.Controller.Create.{as_internal}
use csi_driver_ipfs.Controller.Listing.Order.{sort_by_id}

abbrev pub volume_entry : VolumeAttributes → Volume
volume_entry v = record {
  volume_id = v.volume_id;
  capacity_bytes = v.capacity;
  volume_context = v.attributes;
  content_source = none;
}

-- `startIdx < 0 || startIdx > len(entries)` is an error.
abbrev pub in_range : ℕ → Option ℤ → Option ℕ
in_range count none = none
in_range count (some (negsuc n)) = none
in_range count (some (pos n)) = if ltb count n then none else some n

-- Where the page starts.
unfoldable pub start_of : ℕ → Text → Option ℕ
start_of count token = if is_empty token then some 0 else in_range count (atoi token)

-- `maxEntries := int(req.GetMaxEntries()); if maxEntries <= 0 { maxEntries = rest }`
abbrev pub at_most : ℤ → ℕ → ℕ
at_most (negsuc n) rest = rest
at_most (pos n) rest = if ltb 0 n then n else rest

-- Where the page ends.
unfoldable pub end_of : ℕ → ℤ → ℕ → ℕ
end_of count max_entries start =
    let end = start + at_most max_entries (count - start) in if ltb count end then count else end

pub record Page (A : Type 0) : Type 0 where
  pub entries : List A
  pub next_token : Text

abbrev pub page_from : {A : Type 0} → List A → ℤ → ℕ → Page A
page_from all max_entries start =
    let end = end_of (length all) max_entries start in
    record {
      entries = take (end - start) (drop start all);
      next_token = if ltb end (length all) then itoa end else [];
    }

-- The page that a token and a limit select, where the token is valid.
unfoldable pub page_of : {A : Type 0} → List A → ℤ → Text → Option (Page A)
page_of all max_entries token = elim (start_of (length all) token) [
  | none ↦ none
  | some start ↦ some (page_from all max_entries start)
]

abbrev pub or_invalid_argument : {A : Type 0} → Option A → Result Code A
or_invalid_argument none = err invalid_argument
or_invalid_argument (some a) = ok a

-- `snapshotEntryToCSI`: no time for an entry without one.
unfoldable pub snapshot_entry_to_csi : SnapshotEntry → Snapshot
snapshot_entry_to_csi e = record {
  snapshot_id = e.snapshot_id;
  source_volume_id = e.source_volume_id;
  creation_time = if is_positive e.creation_time then some e.creation_time else none;
  ready_to_use = e.ready_to_use;
  size_bytes = e.size_bytes;
}

-- The first entries, as far as the limit allows.
unfoldable pub snapshot_page : ℤ → List SnapshotEntry → List Snapshot
snapshot_page max_entries entries =
    map snapshot_entry_to_csi (take (at_most max_entries (length entries)) entries)

module _ {W : Type 0} (d : Driver W) where
  unfoldable pub list_volumes : ℤ → Text → Method W (Page Volume)
  list_volumes max_entries starting_token = do
    volumes ← or_else (Calls.list_volumes d) as_internal
    lift (
        or_invalid_argument
          (page_of (sort_by_id (map volume_entry volumes)) max_entries starting_token))

  -- Of a driver with a snapshot store.
  abbrev pub list_snapshots_of : SnapshotStore W → ℤ → Text → Text → Method W (List Snapshot)
  list_snapshots_of store max_entries snapshot_id source_volume_id = do
    entries ← or_else (Calls.list_snapshots d store snapshot_id source_volume_id) as_internal
    return (snapshot_page max_entries entries)

  unfoldable pub list_snapshots : ℤ → Text → Text → Method W (List Snapshot)
  list_snapshots max_entries snapshot_id source_volume_id = elim d.snapshots [
    | none ↦ return []
    | some store ↦ list_snapshots_of store max_entries snapshot_id source_volume_id
  ]
