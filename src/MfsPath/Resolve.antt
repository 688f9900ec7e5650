-- ===== src/MfsPath/Resolve.antt =====
-- What stands on the stack of `resolve`: plain elements, over `..` elements if the path is relative.
use mathlib.Core.List.{reverse, reverse_aux, reverse-append}
use csi_driver_ipfs.Base.{
  ◌≡◌, refl, ap, ◌⊎◌, inl, inr, Bool, true, false, ◌||◌, List, [], ◌∷◌, ◌++◌, arith, All,
  Bool-cases,
}
use csi_driver_ipfs.Text.{Text, is_empty, text_eq, text_eq_iff, text_eq_refl}
use csi_driver_ipfs.MfsPath.{dot, dotdot, split, is_abs, back_up, step, resolve, elements}
use csi_driver_ipfs.MfsPath.Split.{IsSlashFree, has_slash, split-free}

-- An element that names an entry: it is not empty, `.` or `..`, and holds no slash.
pub record IsPlain (p : Text) : Type 0 where
  pub filled : is_empty p ≡ false
  pub not_dot : text_eq p dot ≡ false
  pub not_dotdot : text_eq p dotdot ≡ false
  pub free : IsSlashFree p

abbrev IsDotdot : Text → Type 0
IsDotdot p = text_eq p dotdot ≡ true

-- The stacks that `resolve` builds.
abbrev Stacked : Bool → List Text → Type 0
Stacked rooted [] = Unit
Stacked true (p ∷ rest) = IsPlain p × Stacked true rest
Stacked false (p ∷ rest) = (IsPlain p × Stacked false rest) ⊎ (IsDotdot p × All IsDotdot rest)

Stacked-dotdots : (stack : List Text) → All IsDotdot stack → Stacked false stack
Stacked-dotdots [] h = tt
Stacked-dotdots (p ∷ rest) h = inr h

back_up-Stacked :
    (rooted : Bool) (stack : List Text)
    → Stacked rooted stack
    → Stacked rooted (back_up rooted stack)
unfolding back_up
back_up-Stacked true [] h = tt
back_up-Stacked false [] h = inr (text_eq_refl dotdot, tt)
back_up-Stacked true (p ∷ rest) (plain, h) = rw plain.not_dotdot h
back_up-Stacked false (p ∷ rest) (inl (plain, h)) = rw plain.not_dotdot h
back_up-Stacked false (p ∷ rest) (inr (d, h)) = rw d (inr (text_eq_refl dotdot, (d, h)))

push-Stacked :
    (rooted : Bool) (stack : List Text) (p : Text)
    → IsPlain p
    → Stacked rooted stack
    → Stacked rooted (p ∷ stack)
push-Stacked true stack p plain h = (plain, h)
push-Stacked false stack p plain h = inl (plain, h)

step-Stacked :
    (rooted : Bool) (stack : List Text) (p : Text)
    → IsSlashFree p
    → Stacked rooted stack
    → Stacked rooted (step rooted stack p)
unfolding step
step-Stacked rooted stack p free h = elim (Bool-cases (is_empty p || text_eq p dot)) [
  | inl skip ↦ rw skip h
  | inr go ↦ rw go (elim (Bool-cases (text_eq p dotdot)) [
    | inl up ↦ rw up (back_up-Stacked rooted stack h)
    | inr down ↦ rw down (
        push-Stacked rooted stack p
          (record { filled = ground arith; not_dot = ground arith; not_dotdot = down; free = free })
          h)
  ])
]

resolve-Stacked :
    (rooted : Bool) (stack parts : List Text)
    → All IsSlashFree parts
    → Stacked rooted stack
    → Stacked rooted (resolve rooted stack parts)
unfolding resolve
resolve-Stacked rooted stack [] free h = h
resolve-Stacked rooted stack (p ∷ parts) (f, fs) h =
    resolve-Stacked rooted (step rooted stack p) parts fs (step-Stacked rooted stack p f h)

pub resolve-append :
    (rooted : Bool) (stack xs ys : List Text)
    → resolve rooted stack (xs ++ ys) ≡ resolve rooted (resolve rooted stack xs) ys
unfolding resolve
resolve-append rooted stack [] ys = refl
resolve-append rooted stack (x ∷ xs) ys = resolve-append rooted (step rooted stack x) xs ys

-- A plain element is pushed.
pub step_of_plain :
    (rooted : Bool) (stack : List Text) (p : Text) → IsPlain p → step rooted stack p ≡ p ∷ stack
unfolding step
step_of_plain rooted stack p plain = ground arith

All-reverse_aux :
    (P : Text → Type 0) (xs ys : List Text) → All P xs → All P ys → All P (reverse_aux xs ys)
All-reverse_aux P [] ys h k = k
All-reverse_aux P (x ∷ xs) ys (p, h) k = All-reverse_aux P xs (x ∷ ys) h (p, k)

Stacked-IsPlain : (stack : List Text) → Stacked true stack → All IsPlain stack
Stacked-IsPlain [] h = tt
Stacked-IsPlain (p ∷ rest) (plain, h) = (plain, Stacked-IsPlain rest h)

-- The elements of a rooted path are plain.
pub elements-IsPlain : (p : Text) → is_abs p ≡ true → All IsPlain (elements p)
unfolding elements
elements-IsPlain p abs = rw abs (
    All-reverse_aux IsPlain _ []
      (Stacked-IsPlain _ (resolve-Stacked true [] (split p) (split-free p) tt)) tt)

dotdot-free : (p : Text) → IsDotdot p → IsSlashFree p
unfolding has_slash
dotdot-free p h = rw ((text_eq_iff p dotdot).0 h) refl

dotdots-free : (parts : List Text) → All IsDotdot parts → All IsSlashFree parts
dotdots-free [] h = tt
dotdots-free (p ∷ parts) (d, h) = (dotdot-free p d, dotdots-free parts h)

Stacked-free : (stack : List Text) → Stacked false stack → All IsSlashFree stack
Stacked-free [] h = tt
Stacked-free (p ∷ rest) (inl (plain, h)) = (plain.free, Stacked-free rest h)
Stacked-free (p ∷ rest) (inr (d, h)) = (dotdot-free p d, dotdots-free rest h)

-- The elements of a relative path hold no slash.
pub elements-free : (p : Text) → is_abs p ≡ false → All IsSlashFree (elements p)
unfolding elements
elements-free p rel = rw rel (
    All-reverse_aux IsSlashFree _ []
      (Stacked-free _ (resolve-Stacked false [] (split p) (split-free p) tt)) tt)

-- The list begins with `..`.
abbrev pub BeginsDotdot : List Text → Type 0
BeginsDotdot parts = (rest : List Text) × (parts ≡ dotdot ∷ rest)

dotdots-bottom :
    (p : Text) (rest : List Text)
    → All IsDotdot (p ∷ rest)
    → (above : List Text) × (p ∷ rest ≡ above ++ dotdot ∷ [])
dotdots-bottom p [] (d, _) = ([], rw ((text_eq_iff p dotdot).0 d))
dotdots-bottom p (q ∷ rest) (d, h) =
    let (above, e) = dotdots-bottom q rest h in (p ∷ above, ap (λ r. p ∷ r) e)

Stacked-bottom :
    (stack : List Text)
    → Stacked false stack
    → All IsPlain stack ⊎ ((above : List Text) × (stack ≡ above ++ dotdot ∷ []))
Stacked-bottom [] h = inl tt
Stacked-bottom (p ∷ rest) (inr (d, h)) = inr (dotdots-bottom p rest (d, h))
Stacked-bottom (p ∷ rest) (inl (plain, h)) = elim (Stacked-bottom rest h) [
  | inl plains ↦ inl (plain, plains)
  | inr (above, e) ↦ inr (p ∷ above, ap (λ r. p ∷ r) e)
]

-- The elements of a relative path are plain, or begin with `..`.
pub elements_of_relative :
    (p : Text) → is_abs p ≡ false → All IsPlain (elements p) ⊎ BeginsDotdot (elements p)
unfolding elements
elements_of_relative p rel =
    rw rel (elim (Stacked-bottom _ (resolve-Stacked false [] (split p) (split-free p) tt)) [
      | inl plains ↦ inl (All-reverse_aux IsPlain _ [] plains tt)
      | inr (above, e) ↦ inr (reverse above, rw (e, reverse-append) refl)
    ])
