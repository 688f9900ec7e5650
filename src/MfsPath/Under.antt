-- ===== src/MfsPath/Under.antt =====
-- What `normalizeMFSPath` accepts under an absolute root, element by element.
use mathlib.Core.Path.{subst}
use mathlib.Core.List.{append-nil, append_assoc, tail}
use csi_driver_ipfs.Base.{
  ◌≡◌, refl, sym, ◌∙◌, ap, ◌≢◌, ◌⊎◌, inl, inr, true, false, List, [], ◌∷◌, ◌++◌, arith, All, ok,
  Bool-cases,
}
use csi_driver_ipfs.Text.{Text, is_empty, text_eq, text_eq_iff}
use csi_driver_ipfs.Text.Prefix.{has_prefix, strip, append-strip}
use csi_driver_ipfs.MfsPath.{
  slash, dot, dotdot, split, join, is_abs, elements, render, clean, absolute, normalize_mfs_path,
}
use csi_driver_ipfs.MfsPath.Split.{IsSlashFree, has_slash, split-append, split-join}
use csi_driver_ipfs.MfsPath.Resolve.{
  IsPlain, BeginsDotdot, elements-IsPlain, elements-free, elements_of_relative,
}

pub plain-free : (parts : List Text) → All IsPlain parts → All IsSlashFree parts
plain-free [] h = tt
plain-free (p ∷ parts) (plain, h) = (plain.free, plain-free parts h)

pub absolute-clean_rooted :
    (p : Text) → is_abs p ≡ true → absolute (clean p) ≡ slash ∷ join (elements p)
unfolding absolute clean render is_abs
absolute-clean_rooted p abs = rw (abs, render)

-- The list begins with `.` or `..`: no absolute path is cleaned to such elements.
abbrev BeginsDots : List Text → Type 0
BeginsDots parts =
    (first : Text) × (rest : List Text) × (parts ≡ first ∷ rest)
    × (is_empty first ≡ false)
    × ¬ (IsPlain first)

-- What the normalized path shows of the raw one.
record Shown (raw : Text) : Type 0 where
  parts : List Text
  same : absolute (clean raw) ≡ slash ∷ join parts
  free : All IsSlashFree parts
  begins : All IsPlain parts ⊎ BeginsDots parts

pub is_abs-join :
    (part : Text) (parts : List Text)
    → is_empty part ≡ false
    → IsSlashFree part
    → is_abs (join (part ∷ parts)) ≡ false
unfolding is_abs join has_slash
is_abs-join [] parts h free = cc
is_abs-join (c ∷ part) [] h free = ground arith
is_abs-join (c ∷ part) (next ∷ parts) h free = ground arith

not-IsPlain-dot : ¬ (IsPlain dot)
unfolding text_eq
not-IsPlain-dot h = cc (h.not_dot)

not-IsPlain-dotdot : ¬ (IsPlain dotdot)
unfolding text_eq
not-IsPlain-dotdot h = cc (h.not_dotdot)

relative :
    (raw : Text) (parts : List Text)
    → is_abs raw ≡ false
    → elements raw ≡ parts
    → All IsSlashFree parts
    → All IsPlain parts ⊎ BeginsDotdot parts
    → Shown raw
unfolding absolute clean render
relative raw [] rel e free b = record {
  parts = dot ∷ [];
  same = unfold is_abs join in rw (rel, e) refl;
  free = unfold has_slash in (refl, tt);
  begins = inr (dot, [], refl, refl, not-IsPlain-dot);
}
relative raw (p ∷ parts) rel e free (inl (plain, plains)) = record {
  parts = p ∷ parts;
  same = rw (rel, e) (rw (is_abs-join p parts plain.filled plain.free) refl);
  free = free;
  begins = inl (plain, plains);
}
relative raw (p ∷ parts) rel e free (inr (rest, d)) = record {
  parts = dotdot ∷ rest;
  same = rw (rel, e, d) (rw (is_abs-join dotdot rest refl (unfold has_slash in refl)) refl);
  free = subst (All IsSlashFree) d free;
  begins = inr (dotdot, rest, refl, refl, not-IsPlain-dotdot);
}

shown : (raw : Text) → Shown raw
shown raw = elim (Bool-cases (is_abs raw)) [
  | inl abs ↦ record {
    parts = elements raw;
    same = absolute-clean_rooted raw abs;
    free = plain-free _ (elements-IsPlain raw abs);
    begins = inl (elements-IsPlain raw abs);
  }
  | inr rel ↦
      relative raw (elements raw) rel refl (elements-free raw rel) (elements_of_relative raw rel)
]

-- A plain list that a shown list extends makes the shown list plain.
extends-IsPlain :
    (parts : List Text) (p : Text) (rest : List Text)
    → All IsPlain parts ⊎ BeginsDots parts
    → IsPlain p
    → parts ≡ p ∷ rest
    → All IsPlain parts
extends-IsPlain parts p rest (inl plains) plain e = plains
extends-IsPlain parts p rest (inr (first, more, f, filled, bad)) plain e =
    absurd (bad (subst IsPlain (cc (e, f)) plain))

begins-filled : (parts rest : List Text) → All IsPlain parts ⊎ BeginsDots parts → parts ≢ [] ∷ rest
begins-filled [] rest b e = cc
begins-filled (p ∷ parts) rest (inl (plain, plains)) e =
    let h : p ≡ [] = cc in cc (ap is_empty h, plain.filled)
begins-filled (p ∷ parts) rest (inr (first, more, f, filled, bad)) e =
    let h : first ≡ [] = cc in cc (ap is_empty h)

-- An accepted path is the root's elements with more elements behind them, all of them plain.
pub record IsUnder (root path : Text) : Type 0 where
  pub extra : List Text
  pub shape : path ≡ slash ∷ join (elements root ++ extra)
  pub plain : All IsPlain (elements root ++ extra)

split-shown : (parts : List Text) → All IsSlashFree parts → parts ≢ [] → split (join parts) ≡ parts
split-shown [] free h = absurd (h refl)
split-shown (p ∷ parts) free h = split-join p parts free

split_of_slash : (rest : Text) → split (join [] ++ slash ∷ rest) ≡ [] ∷ split rest
unfolding split join
split_of_slash rest = refl

below :
    (raw root rest : Text) (s : Shown raw) (rs : List Text)
    → elements root ≡ rs
    → All IsPlain rs
    → s.parts ≢ []
    → join s.parts ≡ join rs ++ slash ∷ rest
    → IsUnder root (slash ∷ join s.parts)
below raw root rest s [] e plains filled eq = absurd (
    begins-filled s.parts (split rest) s.begins
      (sym (split-shown s.parts s.free filled) ∙ ap split eq ∙ split_of_slash rest))
below raw root rest s (r ∷ rs) e (plain, plains) filled eq =
    let parts_eq : s.parts ≡ (r ∷ rs) ++ split rest =
      sym (split-shown s.parts s.free filled)
      ∙ ap split eq
      ∙ split-append (join (r ∷ rs)) rest
      ∙ ap (λ l. l ++ split rest) (split-join r rs (plain-free (r ∷ rs) (plain, plains))) in
    record {
      extra = split rest;
      shape = ap (λ l. slash ∷ join l) (rw e parts_eq);
      plain = rw e (
          subst (All IsPlain) parts_eq
            (extends-IsPlain s.parts r (rs ++ split rest) s.begins plain parts_eq));
    }

nil-ne-append : (s t : Text) → [] ≢ s ++ slash ∷ t
nil-ne-append [] t e = cc
nil-ne-append (c ∷ s) t e = cc

join-nil : (parts : List Text) → parts ≡ [] → join parts ≡ []
unfolding join
join-nil parts e = rw e

has_prefix_below :
    (raw root rest : Text)
    → is_abs root ≡ true
    → absolute (clean root) ++ slash ∷ rest ≡ absolute (clean raw)
    → IsUnder root (absolute (clean raw))
has_prefix_below raw root rest abs eq =
    let s = shown raw in
    let tails : join s.parts ≡ join (elements root) ++ slash ∷ rest =
      ap tail
        (sym s.same ∙ sym eq ∙ ap (λ l. l ++ slash ∷ rest) (absolute-clean_rooted root abs)) in
    rw s.same (
      below raw root rest s (elements root) refl (elements-IsPlain root abs)
        (λ h. nil-ne-append _ rest (sym (join-nil s.parts h) ∙ tails)) tails)

-- A path that is accepted under an absolute root is rooted, and its elements are the root's with
-- zero or more elements behind them. None is empty, `.` or `..` or holds a slash, so that the path
-- does not lead out of the root. The raw path is any text.
pub normalize_mfs_path-IsUnder :
    (raw root : Text) {p : Text}
    → is_abs root ≡ true
    → normalize_mfs_path raw root ≡ ok p
    → IsUnder root p
unfolding normalize_mfs_path
normalize_mfs_path-IsUnder raw root {p} abs h =
    elim (Bool-cases (text_eq (absolute (clean raw)) (absolute (clean root)))) [
      | inl same ↦
          let e : p ≡ absolute (clean root) =
            ground (arith, text_eq_iff (absolute (clean raw)) (absolute (clean root))) in
          record {
            extra = [];
            shape =
                e
                ∙ absolute-clean_rooted root abs
                ∙ ap (λ l. slash ∷ join l) (sym (append-nil (elements root)));
            plain = rw append-nil (elements-IsPlain root abs);
          }
      | inr differ ↦
          let e : p ≡ absolute (clean raw) = ground (arith, differ) in
          let prefix : has_prefix (absolute (clean raw)) (absolute (clean root) ++ slash ∷ [])
              ≡ true =
            ground (arith, differ) in
          let rest = strip (absolute (clean raw)) (absolute (clean root) ++ slash ∷ []) in
          subst (IsUnder root) (sym e) (
            has_prefix_below raw root rest abs (
              sym (append_assoc (absolute (clean root)) (slash ∷ []) rest)
              ∙ append-strip _ _ prefix))
    ]
