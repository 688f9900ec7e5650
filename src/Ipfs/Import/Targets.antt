-- ===== src/Ipfs/Import/Targets.antt =====
-- Where the paths lie that are joined to an MFS path, name by name.
use mathlib.Core.List.{append_assoc}
use csi_driver_ipfs.Base.{◌≡◌, ◌≢◌, refl, sym, ap, ◌∙◌, true, false, List, [], ◌∷◌, ◌++◌}
use csi_driver_ipfs.Text.{Text, is_empty}
use csi_driver_ipfs.Text.Prefix.{has_prefix, has_prefix-append}
use csi_driver_ipfs.MfsPath.{slash, join, is_abs, clean, render, elements}
use csi_driver_ipfs.MfsPath.Resolve.{IsPlain}
use csi_driver_ipfs.MfsPath.Default.{elements-child, is_abs-append}
use csi_driver_ipfs.MfsPath.Split.{join-append}
use csi_driver_ipfs.Node.Content.{join_path}
use csi_driver_ipfs.Ipfs.Import.{below}

-- A cleaned absolute path other than `/`.
pub record IsCanonical (path : Text) : Type 0 where
  pub rooted : is_abs path ≡ true
  pub filled : elements path ≢ []
  pub shape : path ≡ slash ∷ join (elements path)

-- A relative path that leads down from a path.
pub record LeadsDown (path rel : Text) : Type 0 where
  pub extra : List Text
  pub some_extra : extra ≢ []
  pub spelled : rel ≡ join extra
  pub elements_are : elements (path ++ slash ∷ rel) ≡ elements path ++ extra

append-ne-nil : (xs : List Text) (x : Text) → xs ++ x ∷ [] ≢ []
append-ne-nil [] x h = cc
append-ne-nil (y ∷ xs) x h = cc

-- Two lists of elements, of which neither is empty.
join_both : (xs ys : List Text) → xs ≢ [] → ys ≢ [] → join (xs ++ ys) ≡ join xs ++ slash ∷ join ys
join_both [] ys h k = absurd (h refl)
join_both (x ∷ xs) [] h k = absurd (k refl)
join_both (x ∷ xs) (y ∷ ys) h k = join-append x xs y ys

pub name-LeadsDown : (path name : Text) → IsCanonical path → IsPlain name → LeadsDown path name
unfolding join
name-LeadsDown path name at plain = record {
  extra = name ∷ [];
  some_extra = λ h. cc;
  spelled = refl;
  elements_are = elements-child path name at.rooted plain;
}

further-LeadsDown :
    (path rel name : Text)
    → IsCanonical path
    → LeadsDown path rel
    → IsPlain name
    → LeadsDown path (rel ++ slash ∷ name)
unfolding join
further-LeadsDown path rel name at down plain = record {
  extra = down.extra ++ name ∷ [];
  some_extra = append-ne-nil down.extra name;
  spelled =
      ap (λ r. r ++ slash ∷ name) down.spelled
      ∙ sym (join_both down.extra (name ∷ []) down.some_extra (λ h. cc));
  elements_are =
      ap elements (sym (append_assoc path (slash ∷ rel) (slash ∷ name)))
      ∙ elements-child (path ++ slash ∷ rel) name (is_abs-append path (slash ∷ rel) at.rooted) plain
      ∙ ap (λ es. es ++ name ∷ []) down.elements_are
      ∙ append_assoc (elements path) down.extra (name ∷ []);
}

pub abs-filled : (path : Text) → is_abs path ≡ true → is_empty path ≡ false
unfolding is_abs
abs-filled [] h = cc
abs-filled (c ∷ path) h = refl

join_path-shape :
    (path rel : Text)
    → IsCanonical path
    → (down : LeadsDown path rel) → join_path path rel ≡ slash ∷ join (elements path ++ down.extra)
unfolding join_path clean render
join_path-shape path rel at down =
    rw (abs-filled path at.rooted, is_abs-append path (slash ∷ rel) at.rooted, down.elements_are)
      refl

-- What a path leads down to is the two with a slash between them.
pub join_path-LeadsDown :
    (path rel : Text)
    → IsCanonical path
    → LeadsDown path rel
    → join_path path rel ≡ path ++ slash ∷ rel
join_path-LeadsDown path rel at down =
    join_path-shape path rel at down
    ∙ ap (λ r. slash ∷ r) (join_both (elements path) down.extra at.filled down.some_extra)
    ∙ ap (λ r. slash ∷ join (elements path) ++ slash ∷ r) (sym down.spelled)
    ∙ ap (λ r. r ++ slash ∷ rel) (sym at.shape)

-- A target below an MFS path is within it.
pub join_path-within :
    (path rel : Text)
    → IsCanonical path
    → LeadsDown path rel
    → has_prefix (join_path path rel) (path ++ slash ∷ []) ≡ true
join_path-within path rel at down =
    ap (λ t. has_prefix t (path ++ slash ∷ []))
      (join_path-LeadsDown path rel at down ∙ sym (append_assoc path (slash ∷ []) rel))
    ∙ has_prefix-append (path ++ slash ∷ []) rel

-- The relative path at which a walk stands: at its root, or further down.
pub data At (path rel : Text) : Type 0 where
  at_root : rel ≡ [] → At path rel
  further : is_empty rel ≡ false → LeadsDown path rel → At path rel

pub below-LeadsDown :
    (path rel name : Text)
    → IsCanonical path
    → At path rel
    → IsPlain name
    → LeadsDown path (below rel name)
below-LeadsDown path rel name at (at_root e) plain = rw e (name-LeadsDown path name at plain)
below-LeadsDown path rel name at (further filled down) plain =
    rw filled (further-LeadsDown path rel name at down plain)

below-filled : (rel name : Text) → is_empty name ≡ false → is_empty (below rel name) ≡ false
below-filled [] name h = h
below-filled (c ∷ rel) name h = refl

pub below-At :
    (path rel name : Text)
    → IsCanonical path
    → At path rel
    → IsPlain name
    → At path (below rel name)
below-At path rel name at stands plain =
    further (below-filled rel name plain.filled) (below-LeadsDown path rel name at stands plain)
