-- ===== src/Locks/Keys.antt =====
-- The lock set as a set: the order in which its keys were taken, which the list keeps, is forgotten.
-- A Go map has no order either.
use mathlib.Core.Bool.{Bool-set}
use mathlib.Core.Quot
use mathlib.Core.Quot.{Quot, Quot-set}
use csi_driver_ipfs.Base.{◌≡◌, ◌≢◌, Bool, arith}
use csi_driver_ipfs.Text.{Text, text_eq_iff}
use csi_driver_ipfs.Locks.{VolumeLocks, is_held, try_acquire, release}
use csi_driver_ipfs.Locks.Laws.{is_held-release, try_acquire_lem}

-- Two lists with the same keys.
abbrev pub SameKeys : VolumeLocks → VolumeLocks → Type 0
SameKeys xs ys = (k : Text) → is_held k xs ≡ is_held k ys

abbrev pub Keys : Type 0
Keys = Quot SameKeys

-- The set of the keys that a list holds.
abbrev pub keys : VolumeLocks → Keys
keys locks = Quot.mk locks

try_acquire-SameKeys :
    (key : Text) (xs ys : VolumeLocks)
    → SameKeys xs ys
    → SameKeys (try_acquire key xs).1 (try_acquire key ys).1
try_acquire-SameKeys key xs ys h k =
    ground (arith, (try_acquire_lem key k xs).1, (try_acquire_lem key k ys).1, h k)

try_acquire-same :
    (key : Text) (xs ys : VolumeLocks)
    → SameKeys xs ys
    → (try_acquire key xs).0 ≡ (try_acquire key ys).0
try_acquire-same key xs ys h =
    ground (arith, (try_acquire_lem key key xs).0, (try_acquire_lem key key ys).0, h key)

release-SameKeys :
    (key : Text) (xs ys : VolumeLocks) → SameKeys xs ys → SameKeys (release key xs) (release key ys)
release-SameKeys key xs ys h k =
    ground (arith, is_held-release key k xs, is_held-release key k ys, h k)

-- What TryAcquire answers on a set of keys, the set after it, and the set after Release.
pub answer : Text → Keys → Bool
answer key = Quot.lift (hlevel) (λ xs. (try_acquire key xs).0) (try_acquire-same key)

pub acquired : Text → Keys → Keys
acquired key =
    Quot.lift Quot-set (λ xs. Quot.mk (try_acquire key xs).1)
      (λ xs ys h. Quot.sound (try_acquire-SameKeys key xs ys h))

pub released : Text → Keys → Keys
released key =
    Quot.lift Quot-set (λ xs. Quot.mk (release key xs))
      (λ xs ys h. Quot.sound (release-SameKeys key xs ys h))

module _ (j k : Text) (differ : j ≢ k) where
  answer-acquired : (s : Keys) → answer k (acquired j s) ≡ answer k s
  unfolding answer acquired
  answer-acquired =
      Quot.ind (λ s. Bool-set _ _)
        (λ xs. ground (
          arith,
          (try_acquire_lem k k xs).0,
          (try_acquire_lem k k (try_acquire j xs).1).0,
          (try_acquire_lem j k xs).1,
          text_eq_iff j k,
        ))

  answer-released : (s : Keys) → answer k (released j s) ≡ answer k s
  unfolding answer released
  answer-released =
      Quot.ind (λ s. Bool-set _ _)
        (λ xs. ground (
          arith,
          (try_acquire_lem k k xs).0,
          (try_acquire_lem k k (release j xs)).0,
          is_held-release j k xs,
          text_eq_iff j k,
        ))

  acquired_comm : (s : Keys) → acquired k (acquired j s) ≡ acquired j (acquired k s)
  unfolding acquired
  acquired_comm =
      Quot.ind (λ s. Quot-set _ _)
        (λ xs. Quot.sound (λ i. ground (
          arith,
          (try_acquire_lem k i (try_acquire j xs).1).1,
          (try_acquire_lem j i xs).1,
          (try_acquire_lem j i (try_acquire k xs).1).1,
          (try_acquire_lem k i xs).1,
        )))

  acquired-released_comm : (s : Keys) → acquired k (released j s) ≡ released j (acquired k s)
  unfolding acquired released
  acquired-released_comm =
      Quot.ind (λ s. Quot-set _ _)
        (λ xs. Quot.sound (λ i. ground (
          arith,
          (try_acquire_lem k i (release j xs)).1,
          is_held-release j i xs,
          is_held-release j i (try_acquire k xs).1,
          (try_acquire_lem k i xs).1,
          text_eq_iff j i,
          text_eq_iff k i,
        )))

  released_comm : (s : Keys) → released k (released j s) ≡ released j (released k s)
  unfolding released
  released_comm =
      Quot.ind (λ s. Quot-set _ _)
        (λ xs. Quot.sound (λ i. ground (
          arith,
          is_held-release k i (release j xs),
          is_held-release j i xs,
          is_held-release j i (release k xs),
          is_held-release k i xs,
        )))

-- Calls on different keys do not see each other. TryAcquire answers the same before and after a
-- TryAcquire or a Release of another key, and of any two of the calls it does not matter which comes
-- first: the lock set after them is the same set of keys.
pub calls_commute :
    (j k : Text)
    → j ≢ k
    → (locks : VolumeLocks)
    → ((try_acquire k (try_acquire j locks).1).0 ≡ (try_acquire k locks).0)
      × ((try_acquire k (release j locks)).0 ≡ (try_acquire k locks).0)
      × (keys (try_acquire k (try_acquire j locks).1).1
          ≡ keys (try_acquire j (try_acquire k locks).1).1)
      × (keys (try_acquire k (release j locks)).1 ≡ keys (release j (try_acquire k locks).1))
      × (keys (release k (release j locks)) ≡ keys (release j (release k locks)))
unfolding answer acquired released
calls_commute j k differ locks = (
  answer-acquired j k differ (keys locks),
  answer-released j k differ (keys locks),
  acquired_comm j k differ (keys locks),
  acquired-released_comm j k differ (keys locks),
  released_comm j k differ (keys locks),
)
