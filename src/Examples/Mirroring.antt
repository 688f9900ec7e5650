-- ===== src/Examples/Mirroring.antt =====
-- The theorem on the files of MFS after an import, over a kubo that keeps them, at inputs.
use csi_driver_ipfs.Base.{◌≡◌, refl, false, Option, none, some, [], ok, drop, arith, if◌then◌else◌}
use csi_driver_ipfs.Text.{Text, lit, text_eq, is_empty}
use csi_driver_ipfs.Ipfs.Kubo.{Api, Session, branch}
use csi_driver_ipfs.Ipfs.Import.{import_to_mfs}
use csi_driver_ipfs.Ipfs.Import.Stored.{is_within}
use csi_driver_ipfs.Text.Prefix.{has_prefix}
use csi_driver_ipfs.Ipfs.Import.Isolated.{IsLocal, PlainNames, import_to_mfs_isolated}
use csi_driver_ipfs.Ipfs.Import.Targets.{IsCanonical}
use csi_driver_ipfs.MfsPath.{join, is_abs, elements, split, back_up, step, resolve, dot, dotdot}
use csi_driver_ipfs.MfsPath.Split.{IsSlashFree, has_slash}
use csi_driver_ipfs.MfsPath.Resolve.{IsPlain}
use csi_driver_ipfs.Examples.Client.{api, local_tree}

-- The files of MFS; a CID is the content itself.
abbrev Files : Type 0
Files = Text → Option Text

abbrev file_at : Files → Text → Option Text
file_at f p = f p

abbrev content : Text → Text
content path = drop 6 path

abbrev bytes : Text → Text
bytes handle = handle

abbrev keeper : Api Files Text
keeper = record {
  decode_cid = api.decode_cid;
  self = λ w. (ok tt, w);
  get = λ path w. ((api.get path tt).0, w);
  add = λ handle w. (ok handle, w);
  pin_add = λ path w. (ok tt, w);
  pin_rm = λ path w. (ok tt, w);
  mkdir = λ path w. (ok tt, w);
  rm = λ path w. (ok tt, λ p. if is_within path p then none else w p);
  stat = λ path w. ((api.stat path tt).0, w);
  cp = λ src dst w. (ok tt, λ p. if text_eq p dst then some (content src) else w p);
  repo_stat = λ w. ((api.repo_stat tt).0, w);
  write_to = λ handle path w. (ok tt, w);
  is_dir = λ path w. (ok false, w);
  serial_file = λ path w. (ok path, w);
  open_root = λ path w. (ok tt, w);
  open_in = λ root name w. (ok name, w);
  close_root = λ root w. (ok tt, w);
  close_file = λ handle w. (ok tt, w);
  tree = λ path w. branch local_tree;
}

-- Before the import there is a file everywhere.
abbrev session : Session Files Text
session = record { requests = []; world = λ p. some (lit "old") }

copied-elsewhere :
    (src dst : Text) (w : Files) (p : Text)
    → is_within dst p ≡ false
    → (if text_eq p dst then some (content src) else w p) ≡ w p
copied-elsewhere src dst w p away = ground arith

-- Here too a copy puts a file at its target, a removal takes what is within its path.
keeper-IsLocal : IsLocal keeper file_at
keeper-IsLocal = record {
  add_keeps = λ h w p. refl;
  open_keeps = λ path w p. refl;
  mkdir_keeps = λ path w p. refl;
  cp_local = λ src dst w p away. copied-elsewhere src dst w p away;
  rm_local = λ path w p away. rw away refl;
}

pub target-IsCanonical : IsCanonical (lit "/csi/b")
unfolding is_abs split join back_up step resolve elements text_eq
target-IsCanonical = record { rooted = refl; filled = λ h. cc h; shape = refl }

abbrev pub plain_name :
    {p : Text}
    → is_empty p ≡ false
    → text_eq p dot ≡ false
    → text_eq p dotdot ≡ false
    → IsSlashFree p
    → IsPlain p
plain_name a b c d = record { filled = a; not_dot = b; not_dotdot = c; free = d }

local_tree-PlainNames : PlainNames local_tree
unfolding PlainNames text_eq has_slash
local_tree-PlainNames = (
  plain_name refl refl refl refl,
  (plain_name refl refl refl refl, tt, tt),
  (plain_name refl refl refl refl, tt, tt),
)

import_to_mfs_isolated_example :
    (import_to_mfs keeper (lit "/stage") (lit "/csi/b") session).1.world (lit "/csi/other")
    ≡ some (lit "old")
unfolding text_eq has_prefix PlainNames
import_to_mfs_isolated_example =
    import_to_mfs_isolated keeper file_at keeper-IsLocal (lit "/csi/other") (lit "/csi/b")
      target-IsCanonical refl (lit "/stage") session (λ w. local_tree-PlainNames)
