-- ===== src/MfsPath.antt =====
-- `path.Clean` of Go's standard library, and `normalizeMFSPath` of pkg/driver/utils.go.
pub mod Split
pub mod Resolve
pub mod Under
pub mod Default
pub mod Accepted
use mathlib.Core.List.{reverse}
use csi_driver_ipfs.Base.{
  ℕ, Bool, true, false, not, ◌&&◌, ◌||◌, List, [], ◌∷◌, ◌++◌, Result, ok, err, ◌==◌, if◌then◌else◌,
}
use csi_driver_ipfs.Text.{Text, lit, is_empty, text_eq}
use csi_driver_ipfs.Text.Prefix.{has_prefix}

abbrev pub slash : ℕ
slash = b'/'

abbrev pub dot : Text
dot = lit "."

abbrev pub dotdot : Text
dotdot = lit ".."

abbrev pub cons_head : ℕ → List Text → List Text
cons_head c [] = (c ∷ []) ∷ []
cons_head c (part ∷ parts) = (c ∷ part) ∷ parts

-- The texts between the slashes.
unfoldable pub split : Text → List Text
split [] = [] ∷ []
split (c ∷ s) = let rest = split s in if c == slash then [] ∷ rest else cons_head c rest

unfoldable pub join : List Text → Text
join [] = []
join (part ∷ []) = part
join (part ∷ next ∷ parts) = part ++ slash ∷ join (next ∷ parts)

-- path.IsAbs
unfoldable pub is_abs : Text → Bool
is_abs [] = false
is_abs (c ∷ s) = c == slash

-- `..`: back up over an element; at the root of a rooted path it is dropped. The stack has the
-- last element at its head.
unfoldable pub back_up : Bool → List Text → List Text
back_up true [] = []
back_up false [] = dotdot ∷ []
back_up rooted (top ∷ rest) = if text_eq top dotdot then dotdot ∷ top ∷ rest else rest

unfoldable pub step : Bool → List Text → Text → List Text
step rooted stack part =
    if is_empty part || text_eq part dot
    then stack
    else if text_eq part dotdot
    then back_up rooted stack
    else part ∷ stack

unfoldable pub resolve : Bool → List Text → List Text → List Text
resolve rooted stack [] = stack
resolve rooted stack (part ∷ parts) = resolve rooted (step rooted stack part) parts

-- The elements of a cleaned path.
unfoldable pub elements : Text → List Text
elements p = reverse (resolve (is_abs p) [] (split p))

unfoldable pub render : Bool → List Text → Text
render true parts = slash ∷ join parts
render false [] = dot
render false (part ∷ parts) = join (part ∷ parts)

-- path.Clean
unfoldable pub clean : Text → Text
clean p = render (is_abs p) (elements p)

-- `if !path.IsAbs(p) { p = "/" + p }`
unfoldable pub absolute : Text → Text
absolute p = if is_abs p then p else slash ∷ p

pub data PathError : Type 0 where
  not_under : Text → PathError

unfoldable pub normalize_mfs_path : Text → Text → Result PathError Text
normalize_mfs_path raw_path root =
    let normalized_root = absolute (clean root) in
    let normalized_path = absolute (clean raw_path) in
    if not (text_eq normalized_path normalized_root)
      && not (has_prefix normalized_path (normalized_root ++ slash ∷ []))
    then err (not_under normalized_root)
    else ok normalized_path
