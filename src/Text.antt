-- ===== src/Text.antt =====
-- Go strings. The texts that reach the driver are valid UTF-8 (protobuf and JSON strings), and are
-- read as their code points. `/`, `.` and all that the driver looks for are ASCII, so a step over
-- bytes and a step over code points see the same thing.
pub mod Prefix
use Prim.Native.Char.{code}
use Prim.Native.String.{String}
use csi_driver_ipfs.Base.{
  ℕ, ◌≡◌, ◌≢◌, ◌↔◌, Bool, true, false, ◌&&◌, List, [], ◌∷◌, arith, ◌==◌, refl,
}

abbrev pub Text : Type 0
Text = List ℕ

-- A literal.
abbrev pub lit : String → Text
lit String.[] = []
lit (String.◌∷◌ c s) = code c ∷ lit s

-- s == ""
abbrev pub is_empty : Text → Bool
is_empty [] = true
is_empty (c ∷ s) = false

-- s == t
unfoldable pub text_eq : Text → Text → Bool
text_eq [] [] = true
text_eq [] (d ∷ t) = false
text_eq (c ∷ s) [] = false
text_eq (c ∷ s) (d ∷ t) = c == d && text_eq s t

pub text_eq_iff : (s t : Text) → (text_eq s t ≡ true) ↔ (s ≡ t)
unfolding text_eq
text_eq_iff [] [] = (λ h. refl, λ h. refl)
text_eq_iff [] (d ∷ t) = ground arith
text_eq_iff (c ∷ s) [] = ground arith
text_eq_iff (c ∷ s) (d ∷ t) = ground (arith, text_eq_iff s t)

pub text_eq_refl : (s : Text) → text_eq s s ≡ true
text_eq_refl s = (text_eq_iff s s).1 refl

pub text_eq-false : (s t : Text) → text_eq s t ≡ false → s ≢ t
text_eq-false s t h e = ground (arith, text_eq_iff s t)
