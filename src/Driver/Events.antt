-- ===== src/Driver/Events.antt =====
-- What a list of calls did to pins and to the MFS tree.
use csi_driver_ipfs.Base.{true, List, [], ◌∷◌, ok}
use csi_driver_ipfs.Text.{Text}
use csi_driver_ipfs.Driver.{
  Event, cid_stated, cid_pinned, cid_unpinned, mfs_made, mfs_removed, temp_made, path_removed,
}

-- The CIDs that were asked to be unpinned, the last one first.
abbrev pub unpinned : List Event → List Text
unpinned [] = []
unpinned (cid_unpinned cid r ∷ events) = cid ∷ unpinned events
unpinned (_ ∷ events) = unpinned events

-- The MFS paths that were asked to be removed, the last one first.
abbrev pub removed : List Event → List Text
removed [] = []
removed (mfs_removed path r ∷ events) = path ∷ removed events
removed (_ ∷ events) = removed events

-- The CIDs that were found in IPFS.
abbrev pub confirmed : List Event → List Text
confirmed [] = []
confirmed (cid_stated cid (ok true) ∷ events) = cid ∷ confirmed events
confirmed (_ ∷ events) = confirmed events

-- The CIDs that were pinned.
abbrev pub pinned : List Event → List Text
pinned [] = []
pinned (cid_pinned cid (ok _) ∷ events) = cid ∷ pinned events
pinned (_ ∷ events) = pinned events

-- The MFS directories that were made.
abbrev pub made : List Event → List Text
made [] = []
made (mfs_made path (ok _) ∷ events) = path ∷ made events
made (_ ∷ events) = made events

-- The temporary directories that were made.
abbrev pub temps : List Event → List Text
temps [] = []
temps (temp_made (ok dir) ∷ events) = dir ∷ temps events
temps (_ ∷ events) = temps events

-- The paths that were asked to be removed from the file system.
abbrev pub discarded : List Event → List Text
discarded [] = []
discarded (path_removed path _ ∷ events) = path ∷ discarded events
discarded (_ ∷ events) = discarded events
