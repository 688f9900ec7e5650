-- ===== src/Base/Exec.antt =====
-- Methods that change a state and may fail. A method that fails leaves behind what it did before.
use mathlib.Core.Path.{◌≡◌, refl, ◌∙◌}
use csi_driver_ipfs.Base.Outcome.{Result, ok, err}

abbrev pub Exec {ℓ} : Type ℓ → Type ℓ → Type ℓ → Type ℓ
Exec S E A = S → Result E A × S

module _ {ℓ} {S E A : Type ℓ} where
  abbrev pub return : A → Exec S E A
  return a s = (ok a, s)

  abbrev pub fail : E → Exec S E A
  fail e s = (err e, s)

module _ {ℓ} {S E A B : Type ℓ} where
  abbrev pub continue : Result E A → (A → Exec S E B) → Exec S E B
  continue (ok a) f s = f a s
  continue (err e) f s = (err e, s)

  infixl 10 ◌>>=◌
  -- `if err != nil { return err }` after a call
  abbrev pub ◌>>=◌ : Exec S E A → (A → Exec S E B) → Exec S E B
  ◌>>=◌ m f s = continue (m s).0 f (m s).1

  infixl 10 ◌>>◌
  abbrev pub ◌>>◌ : Exec S E A → Exec S E B → Exec S E B
  m >> k = m >>= λ _. k

abbrev pub map_error {ℓ} : {E F A : Type ℓ} → (E → F) → Result E A → Result F A
map_error f (ok a) = ok a
map_error f (err e) = err (f e)

pub map_error-ok {ℓ} :
    {E F A : Type ℓ} (r : Result E A) (f : E → F) (a : A) → map_error f r ≡ ok a → r ≡ ok a
map_error-ok (ok b) f a h = cc
map_error-ok (err e) f a h = cc

module _ {ℓ} {S E A B : Type ℓ} where
  -- A chain that succeeds has succeeded at its first call, and goes on from there.
  pub continue-ok :
      (r : Result E A) (f : A → Exec S E B) (s : S) (b : B)
      → (continue r f s).0 ≡ ok b
      → (a : A) × (r ≡ ok a) × ((f a s).0 ≡ ok b) × (continue r f s ≡ f a s)
  continue-ok (ok a) f s b h = (a, refl, h, refl)
  continue-ok (err e) f s b h = cc

  pub bind-ok :
      (m : Exec S E A) (f : A → Exec S E B) (s : S) (b : B)
      → ((m >>= f) s).0 ≡ ok b
      → (a : A) × ((m s).0 ≡ ok a) × ((f a (m s).1).0 ≡ ok b) × ((m >>= f) s ≡ f a (m s).1)
  bind-ok m f s b h = continue-ok (m s).0 f (m s).1 b h

module _ {ℓ} {S E A B C : Type ℓ} (view : S → C) where
  continue-keeps :
      (r : Result E A) (f : A → Exec S E B) (s : S)
      → ((a : A) (t : S) → view (f a t).1 ≡ view t)
      → view (continue r f s).1 ≡ view s
  continue-keeps (ok a) f s rest = rest a s
  continue-keeps (err e) f s rest = refl

  -- A chain leaves alone what each of its calls leaves alone, wherever it fails.
  pub bind-keeps :
      (m : Exec S E A) (f : A → Exec S E B) (s : S)
      → view (m s).1 ≡ view s
      → ((a : A) (t : S) → view (f a t).1 ≡ view t)
      → view ((m >>= f) s).1 ≡ view s
  bind-keeps m f s first rest = continue-keeps (m s).0 f (m s).1 rest ∙ first

module _ {ℓ} {S E A B C : Type ℓ} (view : S → C) (e : E) where
  continue-fails :
      (r : Result E A) (f : A → Exec S E B) (s : S)
      → ((a : A) (t : S) → (f a t).0 ≡ err e → view (f a t).1 ≡ view t)
      → (continue r f s).0 ≡ err e
      → view (continue r f s).1 ≡ view s
  continue-fails (ok a) f s rest h = rest a s h
  continue-fails (err e') f s rest h = refl

  -- A chain that fails leaves alone what its first call does, and the rest where that fails.
  pub bind-fails :
      (m : Exec S E A) (f : A → Exec S E B) (s : S)
      → view (m s).1 ≡ view s
      → ((a : A) (t : S) → (f a t).0 ≡ err e → view (f a t).1 ≡ view t)
      → ((m >>= f) s).0 ≡ err e
      → view ((m >>= f) s).1 ≡ view s
  bind-fails m f s first rest h = continue-fails (m s).0 f (m s).1 rest h ∙ first

module _ {ℓ} {S E F A : Type ℓ} where
  -- `if err != nil { return f(err) }`
  abbrev pub or_else : Exec S E A → (E → F) → Exec S F A
  or_else m f s = (map_error f (m s).0, (m s).1)

  -- A call whose error the caller inspects.
  abbrev pub attempt : Exec S E A → Exec S F (Result E A)
  attempt m s = (ok (m s).0, (m s).1)
