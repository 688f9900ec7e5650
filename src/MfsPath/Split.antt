-- ===== src/MfsPath/Split.antt =====
-- `split` and `join` are inverse to one another on elements without a slash.
use csi_driver_ipfs.Base.{
  ℕ, ◌≡◌, refl, ◌≢◌, ◌∙◌, sym, ap, Bool, false, ◌||◌, List, [], ◌∷◌, ◌++◌, arith, All, ◌==◌,
  Bool-cases, inl, inr,
}
use mathlib.Core.Path.{ap₂}
use mathlib.Core.List.{append_assoc}
use csi_driver_ipfs.Text.{Text}
use csi_driver_ipfs.MfsPath.{slash, cons_head, split, join}

unfoldable pub has_slash : Text → Bool
has_slash [] = false
has_slash (c ∷ s) = c == slash || has_slash s

abbrev pub IsSlashFree : Text → Type 0
IsSlashFree p = has_slash p ≡ false

pub split_of_free : (p : Text) → IsSlashFree p → split p ≡ p ∷ []
unfolding split has_slash
split_of_free [] h = refl
split_of_free (c ∷ p) h = ground (arith, split_of_free p)

-- No element of a split holds a slash.
cons_head-free :
    (c : ℕ) (parts : List Text)
    → (c == slash) ≡ false
    → All IsSlashFree parts
    → All IsSlashFree (cons_head c parts)
unfolding has_slash
cons_head-free c [] h free = (ground arith, tt)
cons_head-free c (part ∷ parts) h (f, fs) = (ground arith, fs)

pub split-free : (p : Text) → All IsSlashFree (split p)
unfolding split has_slash
split-free [] = (refl, tt)
split-free (c ∷ p) = elim (Bool-cases (c == slash)) [
  | inl e ↦ rw e (refl, split-free p)
  | inr e ↦ rw e (cons_head-free c (split p) e (split-free p))
]

cons_head-append :
    (c : ℕ) (xs ys : List Text) → xs ≢ [] → cons_head c (xs ++ ys) ≡ cons_head c xs ++ ys
cons_head-append c [] ys h = absurd (h refl)
cons_head-append c (x ∷ xs) ys h = refl

pub split-ne-nil : (p : Text) → split p ≢ []
unfolding split
split-ne-nil [] = λ h. cc
split-ne-nil (c ∷ p) = ground arith

pub split-append : (p q : Text) → split (p ++ slash ∷ q) ≡ split p ++ split q
unfolding split
split-append [] q = refl
split-append (c ∷ p) q = elim (Bool-cases (c == slash)) [
  | inl e ↦ rw e (ap (λ r. [] ∷ r) (split-append p q))
  | inr e ↦ rw e (
      ap (cons_head c) (split-append p q) ∙ cons_head-append c (split p) (split q) (split-ne-nil p))
]

pub split-join :
    (part : Text) (parts : List Text)
    → All IsSlashFree (part ∷ parts)
    → split (join (part ∷ parts)) ≡ part ∷ parts
unfolding join
split-join part [] (h, _) = split_of_free part h
split-join part (next ∷ parts) (h, hs) =
    split-append part (join (next ∷ parts))
    ∙ ap₂ ◌++◌ (split_of_free part h) (split-join next parts hs)

pub join-append :
    (part : Text) (parts : List Text) (next : Text) (more : List Text)
    → join ((part ∷ parts) ++ next ∷ more) ≡ join (part ∷ parts) ++ slash ∷ join (next ∷ more)
unfolding join
join-append part [] next more = refl
join-append part (p ∷ parts) next more =
    ap (λ r. part ++ slash ∷ r) (join-append p parts next more)
    ∙ sym (append_assoc part (slash ∷ join (p ∷ parts)) (slash ∷ join (next ∷ more)))
