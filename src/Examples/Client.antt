-- ===== src/Examples/Client.antt =====
-- The theorems on the IPFS client, at an input.
use csi_driver_ipfs.Base.{◌≡◌, refl, none, [], ◌∷◌, ◌++◌, ok}
use csi_driver_ipfs.Text.{Text, lit}
use csi_driver_ipfs.Dict.{get}
use csi_driver_ipfs.Errors.{Error}
use csi_driver_ipfs.Driver.{Driver}
use csi_driver_ipfs.Ipfs.{
  parse_cid_path, write_entries, write_node_to_dir, get_cid_content, stat_mfs, export_mfs,
}
use csi_driver_ipfs.Ipfs.Kubo.{
  Api, Session, Node, directory, MfsStat, got, stated, leaf, branch, Forest, empty, entry,
}
use csi_driver_ipfs.Ipfs.Export.{IsWhole, node_written, export_mfs_writes}
use csi_driver_ipfs.Text.Prefix.{has_prefix}
use csi_driver_ipfs.Sanitize.{to_lower}
use csi_driver_ipfs.Base.{map, err}
use csi_driver_ipfs.Errors.{external}
use csi_driver_ipfs.Ipfs.{stat_cid, says_not_found, contains, message}
use csi_driver_ipfs.Ipfs.Presence.{Occurs, stat_cid_absent}
use csi_driver_ipfs.Base.{false}
use csi_driver_ipfs.Ipfs.Service.{kubo_client}
use csi_driver_ipfs.Examples.{config, host, store_of, by_path, done}

abbrev pub local_tree : Forest Text
local_tree =
    entry (lit "sub") (branch (entry (lit "f") (leaf (ok (lit "bytes"))) empty))
      (entry (lit "top") (leaf (ok (lit "more"))) empty)

abbrev pub api : Api Unit Text
api = record {
  decode_cid = λ cid. ok (lit "/ipfs/" ++ cid);
  self = done;
  get = λ path w. (ok (directory ((lit "f", lit "bytes") ∷ []) none), w);
  add = λ handle w. (ok (lit "bafyfile"), w);
  pin_add = λ path. done;
  pin_rm = λ path. done;
  mkdir = λ path. done;
  rm = λ path. done;
  stat = λ path w. (ok (record { hash = lit "bafydir"; size = 5; type = lit "directory" }), w);
  cp = λ src dst. done;
  repo_stat = λ w. (ok (record { repo_size = 7; storage_max = 9; num_objects = 1 }), w);
  write_to = λ handle path. done;
  is_dir = λ path w. (ok false, w);
  serial_file = λ path w. (ok path, w);
  open_root = λ path. done;
  open_in = λ root name w. (err (external (lit "permission denied")), w);
  close_root = λ root. done;
  close_file = λ handle. done;
  tree = λ path w. branch local_tree;
}

abbrev pub session : Session Unit Text
session = record { requests = []; world = tt }

export_mfs_writes_example :
    (stat : MfsStat) × (cid_path : Text) × (node : Node Text) × (api.decode_cid stat.hash
      ≡ ok cid_path)
    × IsWhole node
    × ((export_mfs api (lit "/csi/b") (lit "/stage") session).1.requests
        ≡ node_written
            (lit "/stage")
            node
            (got cid_path (ok node) ∷ stated (lit "/csi/b") (ok stat) ∷ []))
unfolding export_mfs stat_mfs get_cid_content parse_cid_path write_node_to_dir write_entries
export_mfs_writes_example = export_mfs_writes api (lit "/csi/b") (lit "/stage") session refl

abbrev over_kubo : Driver (Session Unit Text)
over_kubo = record {
  cfg = config (lit "/csi");
  ipfs = kubo_client api;
  volumes = store_of by_path [];
  snapshots = none;
  host = host;
}

abbrev without_content : Api Unit Text
without_content = record api { get = λ path w. (err (external (lit "block Not Found")), w) }

stat_cid_absent_example :
    (path : Text) × (e : Error) × (without_content.decode_cid (lit "bafy") ≡ ok path)
    × ((without_content.get path session.world).0 ≡ err e)
    × Occurs (lit "not found") (map to_lower (message e))
unfolding stat_cid parse_cid_path says_not_found contains has_prefix to_lower
stat_cid_absent_example = stat_cid_absent without_content (lit "bafy") session refl
