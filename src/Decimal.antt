-- ===== src/Decimal.antt =====
-- `strconv.Itoa` and `strconv.Atoi` of Go's standard library, on a 64-bit platform.
use csi_driver_ipfs.Base.{
  ℕ, zero, suc, ◌+◌, ◌-◌, ◌*◌, ◌/◌, ◌%◌, ◌^◌, ◌<◌, ◌≡◌, refl, ap, ◌∙◌, Bool, true, false, ◌&&◌,
  Option, none, some, [], ◌∷◌, ◌++◌, arith, ltb, leb, ◌==◌, if◌then◌else◌, Bool-cases, inl, inr,
}
use csi_driver_ipfs.Base.Int.{ℤ, pos, negsuc}
use csi_driver_ipfs.Text.{Text, is_empty}

-- The digits of a number below 10 ^ fuel.
unfoldable pub digits_of : ℕ → ℕ → Text
digits_of zero n = []
digits_of (suc fuel) n =
    let rest = digits_of fuel (n / 10) in
    if ltb n 10 then (b'0' + n) ∷ [] else rest ++ (b'0' + n % 10) ∷ []

-- The decimal digits of a number that is not negative.
unfoldable pub itoa : ℕ → Text
itoa n = digits_of (suc n) n

abbrev pub is_digit : ℕ → Bool
is_digit c = leb b'0' c && leb c b'9'

unfoldable pub fold_digits : ℕ → Text → Option ℕ
fold_digits acc [] = some acc
fold_digits acc (c ∷ s) =
    let rest = fold_digits (acc * 10 + (c - b'0')) s in if is_digit c then rest else none

abbrev pub parse_digits : Text → Option ℕ
parse_digits [] = none
parse_digits (c ∷ s) = fold_digits 0 (c ∷ s)

abbrev pub negated : ℕ → ℤ
negated zero = pos 0
negated (suc n) = negsuc n

-- The number, where it fits an int.
abbrev pub as_positive : Option ℕ → Option ℤ
as_positive none = none
as_positive (some n) = if ltb n (2 ^ 63) then some (pos n) else none

abbrev pub as_negative : Option ℕ → Option ℤ
as_negative none = none
as_negative (some n) = if leb n (2 ^ 63) then some (negated n) else none

-- An error is `none`.
unfoldable pub atoi : Text → Option ℤ
atoi [] = none
atoi (c ∷ s) =
    if c == b'+'
    then as_positive (parse_digits s)
    else if c == b'-'
    then as_negative (parse_digits s)
    else as_positive (parse_digits (c ∷ s))

fold-snoc :
    (acc : ℕ) (xs : Text) (c v : ℕ)
    → fold_digits acc xs ≡ some v
    → is_digit c ≡ true
    → fold_digits acc (xs ++ c ∷ []) ≡ some (v * 10 + (c - b'0'))
unfolding fold_digits
fold-snoc acc [] c v h digit = ground arith
fold-snoc acc (x ∷ xs) c v h digit = ground (arith, fold-snoc (acc * 10 + (x - b'0')) xs c v)

digits_of_value : (fuel n : ℕ) → n < fuel → fold_digits 0 (digits_of fuel n) ≡ some n
unfolding digits_of fold_digits
digits_of_value zero n h = absurd (omega arith)
digits_of_value (suc fuel) n h = elim (Bool-cases (ltb n 10)) [
  | inl small ↦ rw small (ground arith)
  | inr large ↦ rw large (
      fold-snoc 0 (digits_of fuel (n / 10)) (b'0' + n % 10) (n / 10)
        (digits_of_value fuel (n / 10) (ground arith)) (ground arith)
      ∙ ap some (omega arith))
]

snoc_some : (xs : Text) (c : ℕ) → is_empty (xs ++ c ∷ []) ≡ false
snoc_some [] c = refl
snoc_some (x ∷ xs) c = refl

digits_of_some : (fuel n : ℕ) → is_empty (digits_of (suc fuel) n) ≡ false
unfolding digits_of
digits_of_some fuel n = ground (arith, snoc_some (digits_of fuel (n / 10)) (b'0' + n % 10))

pub is_empty-itoa : (n : ℕ) → is_empty (itoa n) ≡ false
unfolding itoa
is_empty-itoa n = digits_of_some n n

atoi_of_digits :
    (s : Text) (v : ℕ)
    → is_empty s ≡ false
    → fold_digits 0 s ≡ some v
    → v < 2 ^ 63
    → atoi s ≡ some (pos v)
unfolding atoi fold_digits
atoi_of_digits [] v full value fits = ground arith
atoi_of_digits (c ∷ s) v full value fits = ground arith

-- A number that fits an int is read back from its decimal digits.
pub atoi-itoa : (n : ℕ) → n < 2 ^ 63 → atoi (itoa n) ≡ some (pos n)
unfolding itoa
atoi-itoa n fits =
    atoi_of_digits (digits_of (suc n) n) n (digits_of_some n n)
      (digits_of_value (suc n) n (omega arith)) fits
