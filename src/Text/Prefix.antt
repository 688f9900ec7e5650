-- ===== src/Text/Prefix.antt =====
-- `strings.HasPrefix`
use mathlib.Core.List.{List, [], ◌∷◌, ◌++◌}
use csi_driver_ipfs.Base.{ℕ, ◌≡◌, refl, Bool, true, false, ◌&&◌, arith, ◌==◌}

unfoldable pub has_prefix : List ℕ → List ℕ → Bool
has_prefix s [] = true
has_prefix [] (d ∷ p) = false
has_prefix (c ∷ s) (d ∷ p) = c == d && has_prefix s p

-- What is left of a text after a prefix of it.
unfoldable pub strip : List ℕ → List ℕ → List ℕ
strip s [] = s
strip [] (d ∷ p) = []
strip (c ∷ s) (d ∷ p) = strip s p

pub has_prefix-append : (p s : List ℕ) → has_prefix (p ++ s) p ≡ true
unfolding has_prefix
has_prefix-append [] s = refl
has_prefix-append (d ∷ p) s = ground (arith, has_prefix-append p s)

pub append-strip : (s p : List ℕ) → has_prefix s p ≡ true → p ++ strip s p ≡ s
unfolding has_prefix strip
append-strip s [] h = refl
append-strip [] (d ∷ p) h = ground arith
append-strip (c ∷ s) (d ∷ p) h = ground (arith, append-strip s p)
