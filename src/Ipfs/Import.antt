-- ===== src/Ipfs/Import.antt =====
-- `ImportToMFS` of pkg/ipfs/client.go: the target is removed and made again, then the local tree is
-- walked.
pub mod Mirror
pub mod Stored
pub mod Targets
pub mod Isolated
use csi_driver_ipfs.Base.{Bool, true, false, List, [], ◌∷◌, ◌++◌, Result, ok, err, if◌then◌else◌}
use csi_driver_ipfs.Base.Exec.{return, fail, ◌>>=◌, ◌>>◌, or_else, attempt}
use csi_driver_ipfs.Text.{Text, lit, is_empty}
use csi_driver_ipfs.MfsPath.{slash}
use csi_driver_ipfs.Errors.{Error, wrapped}
use csi_driver_ipfs.Node.Content.{join_path}
use csi_driver_ipfs.Ipfs.{mkdir_mfs, rm_mfs, cp_mfs}
use csi_driver_ipfs.Ipfs.Kubo
use csi_driver_ipfs.Ipfs.Kubo.{Api, Part, lift, Tree, failed, leaf, branch, Forest, empty, entry}

-- The relative path of a child.
abbrev pub below : Text → Text → Text
below rel name = if is_empty rel then name else rel ++ slash ∷ name

-- "/ipfs/" + addedCID
abbrev pub ipfs_path : Text → Text
ipfs_path cid = lit "/ipfs/" ++ cid

module _ {W H : Type 0} (k : Api W H) where
  -- The walk function on a file, whose content is opened, added and copied.
  unfoldable pub import_file : Text → Result Error H → Part W H Unit
  import_file target opened = do
    handle ← or_else (lift opened) wrapped
    cid ← or_else (Kubo.add k handle) wrapped
    or_else (cp_mfs k (ipfs_path cid) target) wrapped

  unfoldable mutual
    -- The walk below a directory, whose relative path is `rel`.
    pub import_entries : Text → Text → Forest H → Part W H Unit
    import_entries mfs_path rel empty = return tt
    import_entries mfs_path rel (entry name tree rest) = do
      import_tree mfs_path (below rel name) tree
      import_entries mfs_path rel rest

    -- The walk function on a path, and the walk below it.
    pub import_tree : Text → Text → Tree H → Part W H Unit
    import_tree mfs_path rel (failed e) = fail (wrapped e)
    import_tree mfs_path rel (leaf opened) = import_file (join_path mfs_path rel) opened
    import_tree mfs_path rel (branch forest) = do
      or_else (mkdir_mfs k (join_path mfs_path rel)) wrapped
      import_entries mfs_path rel forest

  -- The root of the walk: `if relPath == "." { return nil }`.
  unfoldable pub import_root : Text → Tree H → Part W H Unit
  import_root mfs_path (failed e) = fail (wrapped e)
  import_root mfs_path (leaf opened) = return tt
  import_root mfs_path (branch forest) = import_entries mfs_path [] forest

  abbrev walk : Text → Text → Part W H Unit
  walk local_path mfs_path s = import_root mfs_path (k.tree local_path s.world) s

  unfoldable pub import_to_mfs : Text → Text → Part W H Unit
  import_to_mfs local_path mfs_path = do
    attempt (rm_mfs k mfs_path)
    or_else (mkdir_mfs k mfs_path) wrapped
    or_else (Kubo.open_root k local_path) wrapped
    or_else (walk local_path mfs_path) wrapped
