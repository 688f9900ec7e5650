-- ===== src/Examples/Restoring.antt =====
-- The theorem on a volume that is unstaged and staged again, over a toy kubo, at an input.
use csi_driver_ipfs.Examples.Disk.{Handle, disk_api, Disk}
use csi_driver_ipfs.Base.{List}
use csi_driver_ipfs.Text.{text_eq}
use csi_driver_ipfs.MfsPath.Split.{has_slash}
use csi_driver_ipfs.Base.{Option, none, some, [], ◌∷◌, ok, if◌then◌else◌}
use csi_driver_ipfs.Text.{Text, lit, text_eq}
use csi_driver_ipfs.MfsPath.Split.{has_slash}
use csi_driver_ipfs.Ipfs.Kubo.{Session}
use csi_driver_ipfs.Ipfs.Import.Stored.{is_within}
use csi_driver_ipfs.Node.{node_unstage_volume}
use csi_driver_ipfs.Driver.{Driver, Host, State, begin}
use csi_driver_ipfs.Ipfs.Service.{kubo_client}
use csi_driver_ipfs.Examples.{config, host, store_of, by_path}

-- Before it there is a file in the directory that is staged to later.
abbrev before : Session Disk Handle
before = record {
  requests = [];
  world = record {
    mfs = λ p. none;
    local = λ q. if text_eq q (lit "/pods/v/sub/f") then some (lit "old") else none;
  };
}

abbrev listing : Option Text → List Text
listing none = []
listing (some b) = lit "sub" ∷ []

-- A host whose listing of the directory has what matters for the file at `sub/f`.
abbrev disk_host : Host (Session Disk Handle)
disk_host = record host {
  mkdir_all = λ path s. (ok tt, s);
  remove_all = λ path s. (
    ok tt,
    record s {
      world = record s.world { local = λ q. if is_within path q then none else s.world.local q };
    },
  );
  read_dir = λ path s. (ok (listing (s.world.local (lit "/pods/v/sub/f"))), s);
  cleanup_mount_point = λ path s. (ok tt, s);
}

abbrev node : Driver (Session Disk Handle)
node = record {
  cfg = config (lit "/csi");
  ipfs = kubo_client disk_api;
  volumes = store_of by_path [];
  snapshots = none;
  host = disk_host;
}

abbrev unstaged : State (Session Disk Handle)
unstaged = begin [] (node_unstage_volume node (lit "b") (lit "/stage") (begin [] before)).1.world
