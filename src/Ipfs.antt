-- ===== src/Ipfs.antt =====
-- pkg/ipfs/client.go: the client over the HTTP API of kubo (github.com/ipfs/kubo/client/rpc). Import
-- has ImportToMFS and Add has AddPath. Where only the log sees that a close failed it is left out.
pub mod Kubo
pub mod Import
pub mod Add
pub mod Export
pub mod Presence
pub mod Service
pub mod Dial
pub mod Persisted
use csi_driver_ipfs.Base.{
  Bool, true, false, ◌||◌, Option, none, some, List, [], ◌∷◌, ◌++◌, map, Result, ok, err,
  if◌then◌else◌,
}
use csi_driver_ipfs.Base.Exec.{return, fail, ◌>>=◌, ◌>>◌, or_else, attempt}
use csi_driver_ipfs.Text.{Text, lit}
use csi_driver_ipfs.Text.Prefix.{has_prefix}
use csi_driver_ipfs.Sanitize.{to_lower}
use csi_driver_ipfs.Errors.{Error, external, wrapped, pv_not_found, snapshot_store_unavailable}
use csi_driver_ipfs.Driver.{RepoStat}
use csi_driver_ipfs.Node.Content.{join_path}
use csi_driver_ipfs.Ipfs.Kubo
use csi_driver_ipfs.Ipfs.Kubo.{Api, Node, directory, file, other, MfsStat, Part, lift}

-- err.Error() of an error that kubo's client returned.
abbrev pub message : Error → Text
message (external text) = text
message (wrapped e) = message e
message pv_not_found = []
message snapshot_store_unavailable = []

-- strings.Contains
unfoldable pub contains : Text → Text → Bool
contains [] part = has_prefix [] part
contains (c ∷ s) part = has_prefix (c ∷ s) part || contains s part

-- strings.Contains(strings.ToLower(err.Error()), "not found")
unfoldable pub says_not_found : Error → Bool
says_not_found e = contains (map to_lower (message e)) (lit "not found")

abbrev pub stat_outcome : {A : Type 0} → Result Error A → Result Error Bool
stat_outcome (ok node) = ok true
stat_outcome (err e) = if says_not_found e then ok false else err (wrapped e)

module _ {W H : Type 0} (k : Api W H) where
  unfoldable pub parse_cid_path : Text → Part W H Text
  parse_cid_path cid = or_else (lift (k.decode_cid cid)) wrapped

  unfoldable pub ping : Part W H Unit
  ping = or_else (Kubo.self k) wrapped

  unfoldable pub stat_cid : Text → Part W H Bool
  stat_cid cid = do
    path ← or_else (parse_cid_path cid) wrapped
    found ← attempt (Kubo.get k path)
    lift (stat_outcome found)

  -- The loop over the entries of a directory.
  unfoldable pub write_entries : Text → List (Text × H) → Part W H Unit
  write_entries dest [] = return tt
  write_entries dest ((name, child) ∷ entries) = do
    or_else (Kubo.write_to k child (join_path dest name)) wrapped
    write_entries dest entries

  abbrev pub iterated : Option Error → Part W H Unit
  iterated none = return tt
  iterated (some e) = fail (wrapped e)

  unfoldable pub write_node_to_dir : Node H → Text → Part W H Unit
  write_node_to_dir (directory entries broken) dest = do write_entries dest entries; iterated broken
  write_node_to_dir (file handle) dest = Kubo.write_to k handle (join_path dest (lit "data"))
  write_node_to_dir other dest = fail (external (lit "unsupported IPFS node type"))

  unfoldable pub get_cid_content : Text → Text → Part W H Unit
  get_cid_content cid dest = do
    path ← or_else (parse_cid_path cid) wrapped
    node ← or_else (Kubo.get k path) wrapped
    or_else (write_node_to_dir node dest) wrapped

  unfoldable pub pin_cid : Text → Part W H Unit
  pin_cid cid = do
    path ← or_else (parse_cid_path cid) wrapped
    or_else (Kubo.pin_add k path) wrapped

  unfoldable pub unpin_cid : Text → Part W H Unit
  unpin_cid cid = do
    path ← or_else (parse_cid_path cid) wrapped
    or_else (Kubo.pin_rm k path) wrapped

  unfoldable pub mkdir_mfs : Text → Part W H Unit
  mkdir_mfs path = or_else (Kubo.mkdir k path) wrapped

  unfoldable pub rm_mfs : Text → Part W H Unit
  rm_mfs path = or_else (Kubo.rm k path) wrapped

  unfoldable pub stat_mfs : Text → Part W H MfsStat
  stat_mfs path = or_else (Kubo.stat k path) wrapped

  unfoldable pub cp_mfs : Text → Text → Part W H Unit
  cp_mfs src dst = or_else (Kubo.cp k src dst) wrapped

  unfoldable pub export_mfs : Text → Text → Part W H Unit
  export_mfs path local = do
    stat ← or_else (stat_mfs path) wrapped
    or_else (get_cid_content stat.hash local) wrapped

  unfoldable pub resolve_mfs_cid : Text → Part W H Text
  resolve_mfs_cid path = do stat ← or_else (stat_mfs path) wrapped; return stat.hash

  unfoldable pub get_repo_stat : Part W H RepoStat
  get_repo_stat = or_else (Kubo.repo_stat k) wrapped

  abbrev pub file_of : Node H → Part W H H
  file_of (file handle) = return handle
  file_of (directory entries broken) = fail (external (lit "not a readable file"))
  file_of other = fail (external (lit "not a readable file"))

  unfoldable pub read_cid : Text → Part W H H
  read_cid cid = do
    path ← or_else (parse_cid_path cid) wrapped
    node ← or_else (Kubo.get k path) wrapped
    file_of node
