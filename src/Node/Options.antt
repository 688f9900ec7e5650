-- ===== src/Node/Options.antt =====
-- `buildMountOptions` of pkg/driver/node.go.
use csi_driver_ipfs.Base.{
  ◌≡◌, refl, inl, inr, Bool, true, false, not, ◌&&◌, ◌||◌, Option, none, some, List, [], ◌∷◌, ◌++◌,
  arith, Bool-cases, if◌then◌else◌,
}
use csi_driver_ipfs.Text.{Text, lit, is_empty, text_eq, text_eq_iff}

-- `_, exists := seen[flag]`. The set `seen` holds the options so far, no more and no less, so the
-- model looks in these.
unfoldable pub is_seen : Text → List Text → Bool
is_seen flag [] = false
is_seen flag (option ∷ options) = text_eq flag option || is_seen flag options

-- The loop over the mount flags.
unfoldable pub add_flags : List Text → List Text → List Text
add_flags options [] = options
add_flags options (flag ∷ flags) =
    if is_empty flag
    then add_flags options flags
    else if is_seen flag options
    then add_flags options flags
    else add_flags (options ++ flag ∷ []) flags

abbrev pub first_options : Bool → List Text
first_options read_only = if read_only then lit "bind" ∷ lit "ro" ∷ [] else lit "bind" ∷ []

-- `mount_flags` is `none` where the capability has no mount part.
unfoldable pub build_mount_options : Bool → Option (List Text) → List Text
build_mount_options read_only none = first_options read_only
build_mount_options read_only (some flags) = add_flags (first_options read_only) flags

-- No option twice: each is unseen among those that follow.
abbrev pub IsUnique : List Text → Type 0
IsUnique [] = Unit
IsUnique (x ∷ xs) = (is_seen x xs ≡ false) × IsUnique xs

is_seen-append :
    (x : Text) (xs ys : List Text) → is_seen x (xs ++ ys) ≡ is_seen x xs || is_seen x ys
unfolding is_seen
is_seen-append x [] ys = refl
is_seen-append x (y ∷ xs) ys = ground (arith, is_seen-append x xs ys)

IsUnique-snoc :
    (xs : List Text) (y : Text) → IsUnique xs → is_seen y xs ≡ false → IsUnique (xs ++ y ∷ [])
unfolding is_seen
IsUnique-snoc [] y u free = (refl, tt)
IsUnique-snoc (x ∷ xs) y (head, u) free = (
  ground (arith, is_seen-append x xs (y ∷ []), text_eq_iff x y, text_eq_iff y x),
  IsUnique-snoc xs y u (ground arith),
)

add_flags-IsUnique :
    (options flags : List Text) → IsUnique options → IsUnique (add_flags options flags)
unfolding add_flags
add_flags-IsUnique options [] u = u
add_flags-IsUnique options (flag ∷ flags) u = elim (Bool-cases (is_empty flag)) [
  | inl empty ↦ rw empty (add_flags-IsUnique options flags u)
  | inr named ↦ elim (Bool-cases (is_seen flag options)) [
    | inl seen ↦ rw (named, seen) (add_flags-IsUnique options flags u)
    | inr free ↦
        rw (named, free)
          (add_flags-IsUnique (options ++ flag ∷ []) flags (IsUnique-snoc options flag u free))
  ]
]

-- The options after the loop are those before it, and the flags that are not empty.
add_flags-is_seen :
    (options flags : List Text) (x : Text)
    → is_seen x (add_flags options flags)
      ≡ (is_seen x options || not (is_empty x) && is_seen x flags)
unfolding add_flags is_seen
add_flags-is_seen options [] x = ground arith
add_flags-is_seen options (flag ∷ flags) x = ground (
  arith,
  add_flags-is_seen options flags x,
  add_flags-is_seen (options ++ flag ∷ []) flags x,
  is_seen-append x options (flag ∷ []),
  text_eq_iff x flag,
)

first_options-IsUnique : (read_only : Bool) → IsUnique (first_options read_only)
unfolding is_seen text_eq
first_options-IsUnique true = (refl, (refl, tt))
first_options-IsUnique false = (refl, tt)

-- The flags of a mount part, if any.
abbrev pub flags_of : Option (List Text) → List Text
flags_of none = []
flags_of (some flags) = flags

-- The mount options name no option twice, whatever the mount flags are.
pub build_mount_options-IsUnique :
    (read_only : Bool) (flags : Option (List Text)) → IsUnique (build_mount_options read_only flags)
unfolding build_mount_options
build_mount_options-IsUnique read_only none = first_options-IsUnique read_only
build_mount_options-IsUnique read_only (some flags) =
    add_flags-IsUnique (first_options read_only) flags (first_options-IsUnique read_only)

-- The mount options with a mount part are "bind", "ro" for a volume that is published read-only,
-- and the mount flags that are not empty, and nothing else.
pub build_mount_options_has :
    (read_only : Bool) (flags : List Text) (x : Text)
    → is_seen x (build_mount_options read_only (some flags)) ≡ (
        (text_eq x (lit "bind") || read_only && text_eq x (lit "ro"))
        || not (is_empty x) && is_seen x flags)
unfolding build_mount_options is_seen
build_mount_options_has true flags x =
    ground (arith, add_flags-is_seen (first_options true) flags x)
build_mount_options_has false flags x =
    ground (arith, add_flags-is_seen (first_options false) flags x)

-- The mount options are "bind", "ro" for a volume that is published read-only, and the mount flags
-- that are not empty, and nothing else, and they name none twice. Without a mount part there are
-- no flags.
pub build_mount_options_lem :
    (read_only : Bool) (flags : Option (List Text))
    → IsUnique (build_mount_options read_only flags)
      × ((x : Text)
          → is_seen x (build_mount_options read_only flags) ≡ (
              (text_eq x (lit "bind") || read_only && text_eq x (lit "ro"))
              || not (is_empty x) && is_seen x (flags_of flags)))
unfolding build_mount_options is_seen
build_mount_options_lem read_only (some flags) = (
  build_mount_options-IsUnique read_only (some flags),
  λ x. build_mount_options_has read_only flags x,
)
build_mount_options_lem true none = (first_options-IsUnique true, λ x. ground arith)
build_mount_options_lem false none = (first_options-IsUnique false, λ x. ground arith)
