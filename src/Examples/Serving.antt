-- ===== src/Examples/Serving.antt =====
-- The theorems on the node service, the listings and the reading methods, at an input.
use csi_driver_ipfs.Stats.Laws.{stats_of-capped}
use csi_driver_ipfs.Controller.Queries.Laws.{validate_volume_capabilities-verdict}
use csi_driver_ipfs.Controller.Listing.{volume_entry}
use csi_driver_ipfs.Controller.Listing.Client.{read_all, read_all-IsSorted}
use csi_driver_ipfs.Store.{VolumeAttributes}
use csi_driver_ipfs.Examples.{driver_of, store_of}
use csi_driver_ipfs.Base.{map}
use mathlib.Core.List.{Perm}
use csi_driver_ipfs.Base.{
  ℕ, ◌-◌, ◌*◌, ◌^◌, ◌≡◌, refl, true, none, some, List, [], ◌∷◌, ok, err, arith,
}
use csi_driver_ipfs.Base.Int.{pos, negsuc}
use csi_driver_ipfs.Text.{is_empty, Text, lit}
use csi_driver_ipfs.Errors.{external}
use csi_driver_ipfs.Csi.{
  Volume, AccessMode, single_node_writer, multi_node_multi_writer, VolumeCapability,
}
use csi_driver_ipfs.Base.{suc, ◌<◌, ◌≤◌, ◌+◌, ◌⊎◌}
use csi_driver_ipfs.Driver.{RepoStat}
use csi_driver_ipfs.Driver.{Driver, Statfs, volume_read}
use csi_driver_ipfs.Stats.{stats_of}
use csi_driver_ipfs.Node.{
  PublishRequest, node_unstage_volume, node_publish_volume, publish_source, is_not_mounted,
  mount_source,
}
use csi_driver_ipfs.Node.Unstaging.{Unstaged, node_unstage_volume_lem}
use csi_driver_ipfs.Csi.{invalid_argument}
use csi_driver_ipfs.Base.{false}
use csi_driver_ipfs.Node.Publishing.{IsMounted, node_publish_volume-IsMounted}
use csi_driver_ipfs.Controller.Queries.{
  unsupported, validate_volume_capabilities, get_capacity, is_supported_mode,
}
use csi_driver_ipfs.Controller.Queries.Laws.{get_capacity_lem}
use csi_driver_ipfs.Controller.Listing.Order.{IsSorted}
use csi_driver_ipfs.Examples.{client, driver, start, by_path}

abbrev failing : Driver Unit
failing = record driver {
  ipfs = record client { import_to_mfs = λ source path w. (err (external (lit "down")), w) };
}

node_unstage_volume_lem_example :
    (((is_empty (lit "b") ≡ true) ⊎ (is_empty (lit "/stage") ≡ true))
      × ((node_unstage_volume failing (lit "b") (lit "/stage") start).0 ≡ err invalid_argument)
      × ((node_unstage_volume failing (lit "b") (lit "/stage") start).1.events ≡ []))
    ⊎ ((is_empty (lit "b") ≡ false)
        × (is_empty (lit "/stage") ≡ false)
        × Unstaged
            (lit "/stage")
            (ok by_path)
            (volume_read (lit "b") (ok by_path) ∷ [])
            (node_unstage_volume failing (lit "b") (lit "/stage") start).0
            (node_unstage_volume failing (lit "b") (lit "/stage") start).1.events)
node_unstage_volume_lem_example = node_unstage_volume_lem failing (lit "b") (lit "/stage") start

abbrev publish : PublishRequest
publish = record {
  volume_id = lit "b";
  target_path = lit "/pod";
  staging_target_path = lit "/stage";
  read_only = true;
  volume_context = [];
  mount_flags = some (lit "noexec" ∷ lit "ro" ∷ []);
}

node_publish_volume-IsMounted_example :
    IsMounted driver publish start.events (node_publish_volume driver publish start).1.events
unfolding node_publish_volume publish_source is_not_mounted mount_source
node_publish_volume-IsMounted_example = node_publish_volume-IsMounted driver publish start refl

-- No limit, as far as kubo has one.
abbrev unlimited : RepoStat
unlimited = record { repo_size = 7; storage_max = 2 ^ 64 - 1; num_objects = 1 }

get_capacity_lem_example :
    ((unlimited.storage_max - unlimited.repo_size < 2 ^ 63)
      × ((get_capacity driver start).0 ≡ ok (pos (unlimited.storage_max - unlimited.repo_size))))
    ⊎ ((n : ℕ) × (2 ^ 63 ≤ unlimited.storage_max - unlimited.repo_size)
        × ((get_capacity driver start).0 ≡ ok (negsuc n))
        × (suc n + (unlimited.storage_max - unlimited.repo_size) ≡ 2 ^ 64))
get_capacity_lem_example = get_capacity_lem driver start unlimited tt refl (omega arith)

abbrev capability : AccessMode → VolumeCapability
capability mode = record { access_mode = some mode; mount_flags = none }

abbrev disk : Statfs
disk = record { bsize = 4096; blocks = 100; bfree = 40; bavail = 30; files = 10; ffree = 4 }

abbrev mixed : List VolumeCapability
mixed =
    capability single_node_writer
    ∷ capability multi_node_multi_writer
    ∷ capability single_node_writer
    ∷ []

validate_volume_capabilities-verdict_example :
    (validate_volume_capabilities driver (lit "b") mixed start).0
    ≡ ok (unsupported multi_node_multi_writer)
unfolding is_supported_mode
validate_volume_capabilities-verdict_example =
    validate_volume_capabilities-verdict driver (lit "b") mixed start

-- A disk of 2 ^ 63 bytes, one more than an int64 holds.
abbrev large : Statfs
large = record disk { blocks = 2 ^ 51; bfree = 1; bavail = 0 }

stats_of-capped_example : stats_of large ≡ record {
  available_bytes = 0;
  total_bytes = 2 ^ 63 - 1;
  used_bytes = (2 ^ 51 - 1) * 4096;
  available_inodes = 4;
  total_inodes = 10;
  used_inodes = 6;
}
stats_of-capped_example = stats_of-capped large

abbrev attributes : Text → VolumeAttributes
attributes id = record { volume_id = id; capacity = pos 1; attributes = [] }

abbrev unordered : List VolumeAttributes
unordered = attributes (lit "b") ∷ attributes (lit "a") ∷ attributes (lit "ab") ∷ []

abbrev lister : Driver Unit
lister = driver_of (lit "/csi") (store_of by_path unordered) none

read_all-IsSorted_example :
    (read : List Volume) × (read_all lister (pos 2) 4 [] start ≡ some read)
    × IsSorted read
    × Perm read (map volume_entry unordered)
read_all-IsSorted_example =
    read_all-IsSorted lister (pos 2) unordered (λ w. refl) start (omega arith)
