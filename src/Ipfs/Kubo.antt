-- ===== src/Ipfs/Kubo.antt =====
-- What the client takes from kubo's RPC client and from the file system.
use csi_driver_ipfs.Base.{ℕ, Bool, Option, List, ◌∷◌, Result}
use csi_driver_ipfs.Base.Exec.{Exec}
use csi_driver_ipfs.Text.{Text}
use csi_driver_ipfs.Errors.{Error, Op}
use csi_driver_ipfs.Driver.{RepoStat}

-- files.Node, with H for the content of an entry. A directory's iteration may end in an error.
pub data Node (H : Type 0) : Type 0 where
  directory : List (Text × H) → Option Error → Node H
  file : H → Node H
  other : Node H

-- mfsStatResult
pub record MfsStat : Type 0 where
  pub hash : Text
  pub size : ℕ
  pub type : Text

-- What lies below a local directory, as filepath.Walk visits it: a directory's entries by name. A
-- path that cannot be read is `failed`; a file carries what opening it answers.
mutual
  pub data Tree (H : Type 0) : Type 0 where
    failed : Error → Tree H
    leaf : Result Error H → Tree H
    branch : Forest H → Tree H

  pub data Forest (H : Type 0) : Type 0 where
    empty : Forest H
    entry : Text → Tree H → Forest H → Forest H

-- `decode_cid` is cid.Decode and the path made from it. `mkdir` makes parents and `rm` is
-- recursive. The error of a request is one of sending it, one that kubo answers, or one of reading
-- the answer; the client treats the three alike. `is_dir` is os.Stat,
-- `serial_file` files.NewSerialFile, `open_root`, `open_in` and `close_root` are os.OpenRoot, Open of a
-- name in the root and Close, and `tree` is what a walk of the directory finds.
pub record Api (W H : Type 0) : Type 0 where
  pub decode_cid : Text → Result Error Text
  pub self : Op W Unit
  pub get : Text → Op W (Node H)
  pub add : H → Op W Text
  pub pin_add : Text → Op W Unit
  pub pin_rm : Text → Op W Unit
  pub mkdir : Text → Op W Unit
  pub rm : Text → Op W Unit
  pub stat : Text → Op W MfsStat
  pub cp : Text → Text → Op W Unit
  pub repo_stat : Op W RepoStat
  pub write_to : H → Text → Op W Unit
  pub is_dir : Text → Op W Bool
  pub serial_file : Text → Op W H
  pub open_root : Text → Op W Unit
  pub open_in : Text → Text → Op W H
  pub close_root : Text → Op W Unit
  pub close_file : H → Op W Unit
  pub tree : Text → W → Tree H

-- The requests that the client makes, each with what was answered.
pub data Request (H : Type 0) : Type 0 where
  asked_self : Result Error Unit → Request H
  got : Text → Result Error (Node H) → Request H
  added : H → Result Error Text → Request H
  pinned : Text → Result Error Unit → Request H
  unpinned : Text → Result Error Unit → Request H
  made : Text → Result Error Unit → Request H
  removed : Text → Result Error Unit → Request H
  stated : Text → Result Error MfsStat → Request H
  copied : Text → Text → Result Error Unit → Request H
  repo_stated : Result Error RepoStat → Request H
  wrote : H → Text → Result Error Unit → Request H
  local_stated : Text → Result Error Bool → Request H
  serialized : Text → Result Error H → Request H
  opened : Text → Result Error Unit → Request H
  file_opened : Text → Text → Result Error H → Request H
  root_closed : Text → Result Error Unit → Request H
  file_closed : H → Result Error Unit → Request H

-- The client keeps no state. `requests` lists the requests so far, the last one first.
pub record Session (W H : Type 0) : Type 0 where
  pub requests : List (Request H)
  pub world : W

abbrev pub Part : Type 0 → Type 0 → Type 0 → Type 0
Part W H A = Exec (Session W H) Error A

abbrev pub lift : {W H A : Type 0} → Result Error A → Part W H A
lift r s = (r, s)

module _ {W H : Type 0} where
  abbrev pub call : {A : Type 0} → Op W A → (Result Error A → Request H) → Part W H A
  call op request s = (
    (op s.world).0,
    record { requests = request (op s.world).0 ∷ s.requests; world = (op s.world).1 },
  )

module _ {W H : Type 0} (k : Api W H) where
  abbrev pub self : Part W H Unit
  self = call k.self asked_self

  abbrev pub get : Text → Part W H (Node H)
  get path = call (k.get path) (got path)

  abbrev pub add : H → Part W H Text
  add handle = call (k.add handle) (added handle)

  abbrev pub pin_add : Text → Part W H Unit
  pin_add path = call (k.pin_add path) (pinned path)

  abbrev pub pin_rm : Text → Part W H Unit
  pin_rm path = call (k.pin_rm path) (unpinned path)

  abbrev pub mkdir : Text → Part W H Unit
  mkdir path = call (k.mkdir path) (made path)

  abbrev pub rm : Text → Part W H Unit
  rm path = call (k.rm path) (removed path)

  abbrev pub stat : Text → Part W H MfsStat
  stat path = call (k.stat path) (stated path)

  abbrev pub cp : Text → Text → Part W H Unit
  cp src dst = call (k.cp src dst) (copied src dst)

  abbrev pub repo_stat : Part W H RepoStat
  repo_stat = call k.repo_stat repo_stated

  abbrev pub write_to : H → Text → Part W H Unit
  write_to handle path = call (k.write_to handle path) (wrote handle path)

  abbrev pub open_root : Text → Part W H Unit
  open_root path = call (k.open_root path) (opened path)

  abbrev pub is_dir : Text → Part W H Bool
  is_dir path = call (k.is_dir path) (local_stated path)

  abbrev pub serial_file : Text → Part W H H
  serial_file path = call (k.serial_file path) (serialized path)

  abbrev pub open_in : Text → Text → Part W H H
  open_in root name = call (k.open_in root name) (file_opened root name)

  abbrev pub close_root : Text → Part W H Unit
  close_root root = call (k.close_root root) (root_closed root)

  abbrev pub close_file : H → Part W H Unit
  close_file handle = call (k.close_file handle) (file_closed handle)
