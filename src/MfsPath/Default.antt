-- ===== src/MfsPath/Default.antt =====
-- Which absolute paths `normalizeMFSPath` accepts, and the path that CreateVolume derives from the
-- volume's name.
use mathlib.Core.List.{reverse-append, append-nil, append_assoc}
use csi_driver_ipfs.Base.{
  ◌≡◌, refl, sym, ◌∙◌, ◌≢◌, Bool, true, false, List, [], ◌∷◌, ◌++◌, arith, All, ok, err,
}
use csi_driver_ipfs.Text.{Text, is_empty, text_eq, text_eq_refl}
use csi_driver_ipfs.Text.Prefix.{has_prefix, has_prefix-append}
use csi_driver_ipfs.Sanitize.{sanitize_volume_id}
use csi_driver_ipfs.Sanitize.Laws.{IsSafe, sanitize_volume_id-IsSafe, is_empty-sanitize_volume_id}
use csi_driver_ipfs.MfsPath.{
  slash, split, join, is_abs, resolve, elements, not_under, normalize_mfs_path,
}
use csi_driver_ipfs.MfsPath.Split.{IsSlashFree, has_slash, split_of_free, split-append, join-append}
use csi_driver_ipfs.MfsPath.Resolve.{IsPlain, resolve-append, step_of_plain, elements-IsPlain}
use csi_driver_ipfs.MfsPath.Under.{absolute-clean_rooted, is_abs-join}

pub is_abs-append : (p q : Text) → is_abs p ≡ true → is_abs (p ++ q) ≡ true
unfolding is_abs
is_abs-append [] q h = cc
is_abs-append (c ∷ p) q h = h

resolve_one :
    (rooted : Bool) (stack : List Text) (p : Text)
    → IsPlain p
    → resolve rooted stack (p ∷ []) ≡ p ∷ stack
unfolding resolve
resolve_one rooted stack p plain = step_of_plain rooted stack p plain

-- A plain element below an absolute path.
pub elements-child :
    (root child : Text)
    → is_abs root ≡ true
    → IsPlain child
    → elements (root ++ slash ∷ child) ≡ elements root ++ child ∷ []
unfolding elements
elements-child root child abs plain =
    rw (is_abs-append root (slash ∷ child) abs, abs)
      (rw (split-append, split_of_free child plain.free, resolve-append)
        (rw (resolve_one true _ child plain)
          (reverse-append (child ∷ []) (resolve true [] (split root)))))

prefix_of_extra :
    (rs : List Text) (extra : List Text)
    → rs ≢ []
    → extra ≢ []
    → has_prefix (slash ∷ join (rs ++ extra)) ((slash ∷ join rs) ++ slash ∷ []) ≡ true
prefix_of_extra [] extra h k = absurd (h refl)
prefix_of_extra (r ∷ rs) [] h k = absurd (k refl)
prefix_of_extra (r ∷ rs) (x ∷ extra) h k = rw join-append (
    rw (sym (append_assoc (slash ∷ join (r ∷ rs)) (slash ∷ []) (join (x ∷ extra))))
      (has_prefix-append _ _))

-- Under an absolute root other than `/`, every absolute path whose elements extend those of the
-- root is accepted, and the result is its cleaned form.
pub normalize_mfs_path_of_extra :
    (raw root : Text) (extra : List Text)
    → is_abs root ≡ true
    → elements root ≢ []
    → is_abs raw ≡ true
    → elements raw ≡ elements root ++ extra
    → normalize_mfs_path raw root ≡ ok (slash ∷ join (elements root ++ extra))
unfolding normalize_mfs_path
normalize_mfs_path_of_extra raw root [] abs filled raw_abs e =
    rw (absolute-clean_rooted raw raw_abs, absolute-clean_rooted root abs, e)
      (rw (append-nil, text_eq_refl) refl)
normalize_mfs_path_of_extra raw root (x ∷ extra) abs filled raw_abs e =
    rw (absolute-clean_rooted raw raw_abs, absolute-clean_rooted root abs, e)
      (ground (arith, prefix_of_extra (elements root) (x ∷ extra) filled (λ h. cc)))

safe-free : (s : Text) → All IsSafe s → IsSlashFree s
unfolding has_slash
safe-free [] h = refl
safe-free (c ∷ s) (h, hs) = ground (arith, safe-free s hs)

safe-IsPlain : (s : Text) → is_empty s ≡ false → All IsSafe s → IsPlain s
unfolding text_eq
safe-IsPlain [] h hs = cc
safe-IsPlain (c ∷ s) h (safe, hs) = record {
  filled = refl;
  not_dot = ground arith;
  not_dotdot = ground arith;
  free = safe-free (c ∷ s) (safe, hs);
}

pub sanitize_volume_id-IsPlain :
    (name : Text) → is_empty name ≡ false → IsPlain (sanitize_volume_id name)
sanitize_volume_id-IsPlain name h =
    safe-IsPlain _ (is_empty-sanitize_volume_id name ∙ h) (sanitize_volume_id-IsSafe name)

-- Under an absolute root other than `/`, the default path of a volume is accepted for every name,
-- and is the sanitized name directly below the root.
pub normalize_default :
    (root name : Text)
    → is_abs root ≡ true
    → elements root ≢ []
    → is_empty name ≡ false
    → normalize_mfs_path (root ++ slash ∷ sanitize_volume_id name) root
      ≡ ok (slash ∷ join (elements root ++ sanitize_volume_id name ∷ []))
normalize_default root name abs filled named =
    normalize_mfs_path_of_extra _ root (sanitize_volume_id name ∷ []) abs filled
      (is_abs-append root _ abs) (elements-child root _ abs (sanitize_volume_id-IsPlain name named))

pub is_empty-join :
    (p : Text) (parts : List Text) → is_empty p ≡ false → is_empty (join (p ∷ parts)) ≡ false
unfolding join
is_empty-join [] parts h = cc
is_empty-join (c ∷ p) [] h = refl
is_empty-join (c ∷ p) (next ∷ parts) h = refl

relative_below_slash :
    (t : Text)
    → is_empty t ≡ false
    → is_abs t ≡ false
    → (text_eq (slash ∷ t) (slash ∷ []) ≡ false)
      × (has_prefix (slash ∷ t) (slash ∷ slash ∷ []) ≡ false)
unfolding is_abs text_eq has_prefix
relative_below_slash [] h rel = cc
relative_below_slash (c ∷ t) h rel = (refl, rw rel)

below_slash :
    (parts : List Text)
    → All IsPlain parts
    → parts ≢ []
    → (text_eq (slash ∷ join parts) (slash ∷ []) ≡ false)
      × (has_prefix (slash ∷ join parts) (slash ∷ slash ∷ []) ≡ false)
below_slash [] h k = absurd (k refl)
below_slash (p ∷ parts) (plain, plains) k =
    relative_below_slash _ (is_empty-join p parts plain.filled)
      (is_abs-join p parts plain.filled plain.free)

-- Under a root that cleans to `/`, every other absolute path is refused: the test looks for the
-- prefix `//`.
pub normalize_below_slash :
    (raw root : Text)
    → is_abs root ≡ true
    → elements root ≡ []
    → is_abs raw ≡ true
    → elements raw ≢ []
    → normalize_mfs_path raw root ≡ err (not_under (slash ∷ []))
unfolding normalize_mfs_path join
normalize_below_slash raw root abs empty raw_abs filled =
    rw (absolute-clean_rooted raw raw_abs, absolute-clean_rooted root abs, empty)
      (ground (arith, below_slash (elements raw) (elements-IsPlain raw raw_abs) filled))

-- With the MFS root `/` no volume has a default path.
pub normalize_default_slash :
    (root name : Text)
    → is_abs root ≡ true
    → elements root ≡ []
    → is_empty name ≡ false
    → normalize_mfs_path (root ++ slash ∷ sanitize_volume_id name) root
      ≡ err (not_under (slash ∷ []))
normalize_default_slash root name abs empty named =
    normalize_below_slash _ root abs empty (is_abs-append root _ abs)
      (λ h. cc (h, elements-child root _ abs (sanitize_volume_id-IsPlain name named), empty))
