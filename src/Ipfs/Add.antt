-- ===== src/Ipfs/Add.antt =====
-- `AddPath` of pkg/ipfs/client.go, with `filepath.Dir` and `filepath.Base`.
use mathlib.Core.List.{reverse}
use csi_driver_ipfs.Base.{
  ℕ, ◌≡◌, Bool, true, false, List, [], ◌∷◌, Result, ok, err, arith, ◌==◌, if◌then◌else◌,
}
use csi_driver_ipfs.Base.Exec.{return, fail, ◌>>=◌, ◌>>◌, or_else, attempt}
use csi_driver_ipfs.Text.{Text, is_empty}
use csi_driver_ipfs.MfsPath.{slash, dot, clean}
use csi_driver_ipfs.Errors.{Error, wrapped}
use csi_driver_ipfs.Ipfs.Kubo
use csi_driver_ipfs.Ipfs.Kubo.{Api, Session, Request, Part, opened, root_closed}

abbrev pub cons_cut : ℕ → Text × Text → Text × Text
cons_cut c ([], name) = if c == slash then (c ∷ [], name) else ([], c ∷ name)
cons_cut c (d ∷ dir, name) = (c ∷ d ∷ dir, name)

-- The text up to its last slash, and the text after it.
unfoldable pub cut : Text → Text × Text
cut [] = ([], [])
cut (c ∷ s) = cons_cut c (cut s)

abbrev pub drop_slashes : Text → Text
drop_slashes [] = []
drop_slashes (c ∷ s) = let rest = drop_slashes s in if c == slash then rest else c ∷ s

unfoldable pub dir : Text → Text
dir path = clean (cut path).0

abbrev pub name_or_slash : Text → Text
name_or_slash name = if is_empty name then slash ∷ [] else name

unfoldable pub base : Text → Text
base path =
    if is_empty path then dot else name_or_slash (cut (reverse (drop_slashes (reverse path)))).1

module _ {W H : Type 0} (k : Api W H) where
  -- The root is closed; where that fails, so is the file.
  unfoldable pub after_close : H → Result Error Unit → Part W H H
  after_close handle (ok _) = return handle
  after_close handle (err e) = do attempt (Kubo.close_file k handle); fail (wrapped e)

  unfoldable pub after_open : Text → Result Error H → Part W H H
  after_open root (err e) = do attempt (Kubo.close_root k root); fail (wrapped e)
  after_open root (ok handle) = do
    closed ← attempt (Kubo.close_root k root)
    after_close handle closed

  unfoldable pub file_node : Text → Part W H H
  file_node local_path = do
    or_else (Kubo.open_root k (dir local_path)) wrapped
    handle ← attempt (Kubo.open_in k (dir local_path) (base local_path))
    after_open (dir local_path) handle

  unfoldable pub path_node : Text → Bool → Part W H H
  path_node local_path true = or_else (Kubo.serial_file k local_path) wrapped
  path_node local_path false = file_node local_path

  unfoldable pub add_path : Text → Part W H Text
  add_path local_path = do
    is_dir ← or_else (Kubo.is_dir k local_path) wrapped
    node ← path_node local_path is_dir
    or_else (Kubo.add k node) wrapped

module _ {H : Type 0} where
  -- The roots that were opened, and those that were asked to be closed, the last one first.
  abbrev pub opened_roots : List (Request H) → List Text
  opened_roots [] = []
  opened_roots (opened root (ok _) ∷ requests) = root ∷ opened_roots requests
  opened_roots (_ ∷ requests) = opened_roots requests

  abbrev pub closed_roots : List (Request H) → List Text
  closed_roots [] = []
  closed_roots (root_closed root _ ∷ requests) = root ∷ closed_roots requests
  closed_roots (_ ∷ requests) = closed_roots requests

-- AddPath closes every directory root that it opens, whatever it answers and wherever it fails, and
-- closes no other.
pub add_path_closes :
    {W H : Type 0} (k : Api W H) (local_path : Text) (s : Session W H)
    → opened_roots s.requests ≡ closed_roots s.requests
    → opened_roots (add_path k local_path s).1.requests
      ≡ closed_roots (add_path k local_path s).1.requests
unfolding add_path path_node file_node after_open after_close
add_path_closes k local_path s balanced = ground arith
