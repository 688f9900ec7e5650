-- ===== src/Locks/Progress.antt =====
-- No deadlock: a key is kept back by the one call that holds it, and by nothing else.
use csi_driver_ipfs.Base.{
  ◌≡◌, ◌≢◌, ◌⊎◌, refl, ap, true, false, List, [], ◌∷◌, ◌++◌, arith, Bool-cases, inl, inr,
}
use csi_driver_ipfs.Text.{Text, text_eq, text_eq_iff}
use csi_driver_ipfs.Locks.Laws.{is_held-release}
use csi_driver_ipfs.Locks.{is_held, try_acquire, release}
use csi_driver_ipfs.Locks.Interleaving.{
  Holder, System, Step, leave, Reach, holding, Reach-IsConsistent,
}

-- A step in which a running call ends, the one that is named.
pub record Ends (h : Holder) (s t : System) : Type 0 where
  pub before : List Holder
  pub after : List Holder
  pub split : s.holders ≡ before ++ h ∷ after
  pub result : t ≡ record { locks = release h.key s.locks; holders = before ++ after }

pub Ends-Step : {h : Holder} {s t : System} → Ends h s t → Step s t
Ends-Step {h} e = leave e.before h e.after e.split e.result

find_holder :
    (key : Text) (holders : List Holder)
    → holding key holders ≢ 0
    → (before : List Holder) × (h : Holder) × (after : List Holder) × (holders
        ≡ before ++ h ∷ after)
      × (h.key ≡ key)
find_holder key [] some_one = absurd (some_one refl)
find_holder key (h ∷ holders) some_one = elim (Bool-cases (text_eq h.key key)) [
  | inl here ↦ ([], h, holders, refl, (text_eq_iff h.key key).0 here)
  | inr other ↦
      let rest : holding key holders ≢ 0 = λ e. some_one (ground (arith, e, other)) in
      let (before, g, after, split, same) = find_holder key holders rest in
      (h ∷ before, g, after, ap (λ l. h ∷ l) split, same)
]

taken_when_free :
    (key : Text) (s : System) → is_held key s.locks ≡ false → (try_acquire key s.locks).0 ≡ true
unfolding try_acquire
taken_when_free key s free = rw free refl

-- In every state that concurrent calls can reach, TryAcquire takes the key that is asked for, or
-- there is a running call that holds the key, and as soon as that one call ends TryAcquire takes the
-- key.
pub Reach_progress :
    {s : System} (key : Text)
    → Reach s
    → ((try_acquire key s.locks).0 ≡ true)
      ⊎ ((h : Holder) × (t : System) × (h.key ≡ key)
          × Ends h s t
          × ((try_acquire key t.locks).0 ≡ true))
Reach_progress {s} key r = elim (Bool-cases (is_held key s.locks)) [
  | inr free ↦ inl (taken_when_free key s free)
  | inl held ↦
      let one : holding key s.holders ≢ 0 =
        λ e. ground (arith, e, held, Reach-IsConsistent r key) in
      let (before, h, after, split, same) = find_holder key s.holders one in
      let t : System = record { locks = release h.key s.locks; holders = before ++ after } in
      let released : is_held key t.locks ≡ false =
        ground (arith, is_held-release h.key key s.locks, text_eq_iff h.key key, same) in
      inr (
        h,
        t,
        same,
        record { before = before; after = after; split = split; result = refl },
        taken_when_free key t released,
      )
]
