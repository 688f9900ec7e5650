-- ===== src/Examples/Disk.antt =====
-- A toy kubo over the files of MFS and the local ones.
use csi_driver_ipfs.Text.{is_empty, text_eq}
use csi_driver_ipfs.Base.{refl, false, Option, none, some, [], ◌∷◌, ◌++◌, ok, drop, if◌then◌else◌}
use csi_driver_ipfs.Text.{Text, lit, text_eq, is_empty}
use csi_driver_ipfs.Text.Prefix.{strip}
use csi_driver_ipfs.Ipfs.Kubo.{Api, directory, leaf, branch, Forest, empty, entry}
use csi_driver_ipfs.Ipfs.Import.Stored.{is_within, IsMfs, later_or}
use csi_driver_ipfs.Ipfs.Export.Written.{IsWriter}
use csi_driver_ipfs.Examples.Client.{api}

-- The files of MFS and the local ones; the CID of a file is its content.
pub record Disk : Type 0 where
  pub mfs : Text → Option Text
  pub local : Text → Option Text

-- A handle has its files by what follows its own path.
abbrev pub Handle : Type 0
Handle = Text → Option Text

abbrev pub file_at : Disk → Text → Option Text
file_at w p = w.mfs p

abbrev pub local_at : Disk → Text → Option Text
local_at w p = w.local p

abbrev pub content : Text → Text
content path = drop 6 path

abbrev pub bytes : Handle → Text
bytes handle = elim (handle []) [ none ↦ [] | some b ↦ b ]

abbrev pub held : Handle → Text → Option Text
held handle rest = handle rest

abbrev pub local_file : Text → Handle
local_file b rest = if is_empty rest then some b else none

abbrev pub tree : Forest Handle
tree =
    entry (lit "sub") (branch (entry (lit "f") (leaf (ok (local_file (lit "bytes")))) empty))
      (entry (lit "top") (leaf (ok (local_file (lit "more")))) empty)

abbrev pub disk_api : Api Disk Handle
disk_api = record {
  decode_cid = api.decode_cid;
  self = λ w. (ok tt, w);
  get = λ path w.
      (ok (directory ((lit "sub", λ rest. w.mfs (lit "/csi/b/sub" ++ rest)) ∷ []) none), w);
  add = λ handle w. (ok (bytes handle), w);
  pin_add = λ path w. (ok tt, w);
  pin_rm = λ path w. (ok tt, w);
  mkdir = λ path w. (ok tt, w);
  rm = λ path w. (ok tt, record w { mfs = λ p. if is_within path p then none else w.mfs p });
  stat = λ path w. ((api.stat path tt).0, w);
  cp = λ src dst w.
      (ok tt, record w { mfs = λ p. if text_eq p dst then some (content src) else w.mfs p });
  repo_stat = λ w. ((api.repo_stat tt).0, w);
  write_to = λ handle target w. (
    ok tt,
    record w {
      local =
          λ q. later_or (if is_within target q then handle (strip q target) else none) (w.local q);
    },
  );
  is_dir = λ path w. (ok false, w);
  serial_file = λ path w. (ok (λ rest. none), w);
  open_root = λ path w. (ok tt, w);
  open_in = λ root name w. (ok (λ rest. none), w);
  close_root = λ root w. (ok tt, w);
  close_file = λ handle w. (ok tt, w);
  tree = λ path w. branch tree;
}

pub disk_api-IsMfs : IsMfs disk_api file_at content bytes
disk_api-IsMfs = record {
  adds = λ h w cid e. cc e;
  add_keeps = λ h w p. refl;
  copies = λ src dst w e p. refl;
  removes = λ path w e p. refl;
  mkdir_keeps = λ path w p. refl;
  open_keeps = λ path w p. refl;
}

pub disk_api-IsWriter : IsWriter disk_api local_at held
disk_api-IsWriter = record {
  writes = λ h target w e q. refl;
  stat_keeps = λ path w q. refl;
  get_keeps = λ path w q. refl;
}
