-- ===== src/MfsPath/Accepted.antt =====
-- Which paths `normalizeMFSPath` accepts, and what it makes of them.
use mathlib.Core.List.{tail}
use csi_driver_ipfs.Base.{
  ◌≡◌, ◌≢◌, ◌↔◌, refl, sym, ap, ◌∙◌, true, List, [], ◌∷◌, ◌++◌, All, ok, arith,
}
use csi_driver_ipfs.Text.{Text}
use csi_driver_ipfs.MfsPath.{
  slash, split, join, is_abs, clean, absolute, elements, normalize_mfs_path,
}
use csi_driver_ipfs.MfsPath.Split.{split-join}
use csi_driver_ipfs.MfsPath.Resolve.{IsPlain, elements-IsPlain}
use csi_driver_ipfs.MfsPath.Under.{
  plain-free, IsUnder, normalize_mfs_path-IsUnder, absolute-clean_rooted,
}
use csi_driver_ipfs.MfsPath.Default.{is_empty-join, normalize_mfs_path_of_extra}

-- Two rooted paths of plain elements that read the same have the same elements.
same_elements :
    (xs ys : List Text)
    → All IsPlain xs
    → All IsPlain ys
    → slash ∷ join xs ≡ slash ∷ join ys
    → xs ≡ ys
unfolding join
same_elements [] [] hx hy e = refl
same_elements [] (y ∷ ys) hx (h, hs) e = cc (is_empty-join y ys h.filled, ap tail e)
same_elements (x ∷ xs) [] (h, hs) hy e = cc (is_empty-join x xs h.filled, ap tail e)
same_elements (x ∷ xs) (y ∷ ys) hx hy e =
    sym (split-join x xs (plain-free (x ∷ xs) hx))
    ∙ ap split (ap tail e)
    ∙ split-join y ys (plain-free (y ∷ ys) hy)

accepted_path :
    (raw root p : Text)
    → is_abs raw ≡ true
    → normalize_mfs_path raw root ≡ ok p
    → p ≡ slash ∷ join (elements raw)
unfolding normalize_mfs_path
accepted_path raw root p abs h =
    let e : p ≡ absolute (clean raw) = ground arith in e ∙ absolute-clean_rooted raw abs

-- Under an absolute root other than `/`, an absolute path is accepted exactly where the elements of
-- the path, with `.` and `..` resolved, are those of the root and zero or more behind them; and
-- what is returned is the path of these elements.
pub normalize_mfs_path_iff :
    (raw root p : Text)
    → is_abs root ≡ true
    → elements root ≢ []
    → is_abs raw ≡ true
    → (normalize_mfs_path raw root ≡ ok p) ↔ (
        (extra : List Text) × (elements raw ≡ elements root ++ extra)
        × (p ≡ slash ∷ join (elements raw)))
normalize_mfs_path_iff raw root p abs filled raw_abs = (
  (λ h.
      let under : IsUnder root p = normalize_mfs_path-IsUnder raw root abs h in
      let path = accepted_path raw root p raw_abs h in
      (
        under.extra,
        same_elements (elements raw) (elements root ++ under.extra) (elements-IsPlain raw raw_abs)
            under.plain (sym path ∙ under.shape),
        path,
      )),
  (λ (extra, more, path).
      normalize_mfs_path_of_extra raw root extra abs filled raw_abs more
      ∙ ap ok (ap (λ l. slash ∷ join l) (sym more) ∙ sym path)),
)
