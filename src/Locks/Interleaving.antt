-- ===== src/Locks/Interleaving.antt =====
-- Concurrent controller calls over one lock set: any number of calls, in any interleaving.
use csi_driver_ipfs.Base.{
  ℕ, ◌+◌, ◌≡◌, refl, ap, Bool, true, false, List, [], ◌∷◌, ◌++◌, arith, if◌then◌else◌,
}
use csi_driver_ipfs.Text.{Text, text_eq, text_eq_iff}
use csi_driver_ipfs.Locks.{VolumeLocks, new_volume_locks, is_held, try_acquire, release}
use csi_driver_ipfs.Locks.Laws.{is_held-release}

-- A call that runs between TryAcquire and the deferred Release.
pub record Holder : Type 0 where
  pub call : ℕ
  pub key : Text

pub record System : Type 0 where
  pub locks : VolumeLocks
  pub holders : List Holder

abbrev pub initial : System
initial = record { locks = new_volume_locks; holders = [] }

-- A call enters when TryAcquire answers true, and is turned away (Aborted) when it answers false.
-- A call that runs may end at any time, which releases its key.
pub data Step (s t : System) : Type 0 where
  enter :
      (call : ℕ) (key : Text)
      → (try_acquire key s.locks).0 ≡ true
      → t ≡ record {
        locks = (try_acquire key s.locks).1;
        holders = record { call = call; key = key } ∷ s.holders;
      }
      → Step s t
  turned_away :
      (call : ℕ) (key : Text)
      → (try_acquire key s.locks).0 ≡ false
      → t ≡ record { locks = (try_acquire key s.locks).1; holders = s.holders }
      → Step s t
  leave :
      (before : List Holder) (h : Holder) (after : List Holder)
      → s.holders ≡ before ++ h ∷ after
      → t ≡ record { locks = release h.key s.locks; holders = before ++ after }
      → Step s t

pub data Reach : System → Type 0 where
  start : Reach initial
  next : {s t : System} → Reach s → Step s t → Reach t

-- The number of running calls that hold a key.
abbrev pub holding : Text → List Holder → ℕ
holding k [] = 0
holding k (h ∷ holders) = (if text_eq h.key k then 1 else 0) + holding k holders

holding-append :
    (k : Text) (xs ys : List Holder) → holding k (xs ++ ys) ≡ holding k xs + holding k ys
holding-append k [] ys = omega arith
holding-append k (h ∷ xs) ys = omega (arith, holding-append k xs ys)

abbrev pub one_if : Bool → ℕ
one_if b = if b then 1 else 0

-- The lock set says of each key whether a running call holds it, and no two calls do.
abbrev pub IsConsistent : System → Type 0
IsConsistent s = (k : Text) → holding k s.holders ≡ one_if (is_held k s.locks)

Step-IsConsistent : (s t : System) → Step s t → IsConsistent s → IsConsistent t
unfolding try_acquire is_held
Step-IsConsistent s t (enter call key free e) c k =
    rw e (ground (arith, c k, c key, text_eq_iff key k))
Step-IsConsistent s t (turned_away call key busy e) c k = rw e (ground (arith, c k))
Step-IsConsistent s t (leave before h after split e) c k = rw e (
    ground (
      arith,
      c k,
      ap (holding k) split,
      holding-append k before (h ∷ after),
      holding-append k before after,
      is_held-release h.key k s.locks,
    ))

-- In every state that concurrent calls can reach, the number of running calls that hold a key is
-- one if the lock set has the key, and zero if not: calls on one key never overlap, and a key is
-- not left locked by a call that has ended.
pub Reach-IsConsistent : {s : System} → Reach s → IsConsistent s
unfolding is_held
Reach-IsConsistent start k = refl
Reach-IsConsistent (next {s} {t} r step) k = Step-IsConsistent s t step (Reach-IsConsistent r) k
