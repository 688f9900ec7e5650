-- ===== src/Node/Content.antt =====
-- `fetchContentToPath` and `ensureEmptyDirectory` of pkg/driver/node.go.
use csi_driver_ipfs.Base.{not, List, [], ◌∷◌, ◌++◌, if◌then◌else◌}
use csi_driver_ipfs.Base.Exec.{return, ◌>>=◌, ◌>>◌, or_else}
use csi_driver_ipfs.Text.{Text, is_empty}
use csi_driver_ipfs.Dict.{Dict, get}
use csi_driver_ipfs.MfsPath.{slash, clean}
use csi_driver_ipfs.Driver.{Driver, param_cid, param_mfs_path}
use csi_driver_ipfs.Driver.Calls
use csi_driver_ipfs.Driver.Calls.{Method, Part}
use csi_driver_ipfs.Controller.Create.{as_internal}

-- filepath.Join of two elements: empty ones before the first that is not are dropped.
unfoldable pub join_path : Text → Text → Text
join_path a b = if is_empty a then (if is_empty b then [] else clean b) else clean (a ++ slash ∷ b)

module _ {W : Type 0} (d : Driver W) where
  -- The loop over the directory's entries.
  unfoldable pub remove_entries : Text → List Text → Part W Unit
  remove_entries path [] = return tt
  remove_entries path (entry ∷ entries) = do
    Calls.remove_all d (join_path path entry)
    remove_entries path entries

  unfoldable pub ensure_empty_directory : Text → Part W Unit
  ensure_empty_directory path = do
    Calls.mkdir_all d path
    entries ← Calls.read_dir d path
    remove_entries path entries

  -- What both cases of the switch do.
  unfoldable pub refill : Text → Part W Unit → Method W Unit
  refill dest fetch = do
    or_else (ensure_empty_directory dest) as_internal
    or_else fetch as_internal

  -- A context that is nil has neither key.
  unfoldable pub fetch_content_to_path : Dict → Text → Method W Unit
  fetch_content_to_path volume_context dest =
      let cid = get param_cid volume_context in
      let mfs_path = get param_mfs_path volume_context in
      if not (is_empty cid)
      then refill dest (Calls.get_cid_content d cid dest)
      else if not (is_empty mfs_path)
      then refill dest (Calls.export_mfs d mfs_path dest)
      else return tt
