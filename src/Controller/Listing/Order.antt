-- ===== src/Controller/Listing/Order.antt =====
-- The sort by volume ID in ListVolumes. `sort.Slice` is modelled as the insertion sort that it is on
-- short slices.
use mathlib.Core.List.Perm
use mathlib.Core.List.{Perm, append-nil}
use csi_driver_ipfs.Base.{
  ◌≡◌, Bool, true, false, ◌&&◌, ◌||◌, List, [], ◌∷◌, ◌++◌, arith, ltb, ◌==◌, if◌then◌else◌,
  Bool-cases, inl, inr, All,
}
use csi_driver_ipfs.Text.{Text}
use csi_driver_ipfs.Csi.{Volume}

-- `s < t` on Go strings. UTF-8 keeps the order of the code points.
unfoldable pub text_lt : Text → Text → Bool
text_lt s [] = false
text_lt [] (d ∷ t) = true
text_lt (c ∷ s) (d ∷ t) = ltb c d || c == d && text_lt s t

abbrev pub less : Volume → Volume → Bool
less v w = text_lt v.volume_id w.volume_id

unfoldable pub insert_by_id : Volume → List Volume → List Volume
insert_by_id v [] = v ∷ []
insert_by_id v (w ∷ ws) = let rest = insert_by_id v ws in if less v w then v ∷ w ∷ ws else w ∷ rest

unfoldable pub sort_onto : List Volume → List Volume → List Volume
sort_onto sorted [] = sorted
sort_onto sorted (v ∷ vs) = sort_onto (insert_by_id v sorted) vs

unfoldable pub sort_by_id : List Volume → List Volume
sort_by_id vs = sort_onto [] vs

abbrev pub NotAfter : Volume → Volume → Type 0
NotAfter v w = less w v ≡ false

abbrev pub IsSorted : List Volume → Type 0
IsSorted [] = Unit
IsSorted (v ∷ vs) = All (NotAfter v) vs × IsSorted vs

text_lt-asym : (s t : Text) → text_lt s t ≡ true → text_lt t s ≡ false
unfolding text_lt
text_lt-asym s [] h = ground arith
text_lt-asym [] (d ∷ t) h = ground arith
text_lt-asym (c ∷ s) (d ∷ t) h = ground (arith, text_lt-asym s t)

text_lt_trans : (s t u : Text) → text_lt t s ≡ false → text_lt u t ≡ false → text_lt u s ≡ false
unfolding text_lt
text_lt_trans [] t u h k = ground arith
text_lt_trans (c ∷ s) [] u h k = ground arith
text_lt_trans (c ∷ s) (d ∷ t) [] h k = ground arith
text_lt_trans (c ∷ s) (d ∷ t) (e ∷ u) h k = ground (arith, text_lt_trans s t u)

All-NotAfter :
    (v w : Volume) (ws : List Volume) → NotAfter v w → All (NotAfter w) ws → All (NotAfter v) ws
All-NotAfter v w [] h k = tt
All-NotAfter v w (x ∷ ws) h (k, ks) =
    (text_lt_trans v.volume_id w.volume_id x.volume_id h k, All-NotAfter v w ws h ks)

All-insert :
    (u v : Volume) (ws : List Volume)
    → NotAfter u v
    → All (NotAfter u) ws
    → All (NotAfter u) (insert_by_id v ws)
unfolding insert_by_id
All-insert u v [] h k = (h, tt)
All-insert u v (w ∷ ws) h (k, ks) = elim (Bool-cases (less v w)) [
  | inl before ↦ rw before (h, (k, ks))
  | inr after ↦ rw after (k, All-insert u v ws h ks)
]

insert-IsSorted : (v : Volume) (ws : List Volume) → IsSorted ws → IsSorted (insert_by_id v ws)
unfolding insert_by_id
insert-IsSorted v [] h = (tt, tt)
insert-IsSorted v (w ∷ ws) (k, ks) = elim (Bool-cases (less v w)) [
  | inl before ↦
      let first : NotAfter v w = text_lt-asym v.volume_id w.volume_id before in
      rw before ((first, All-NotAfter v w ws first k), (k, ks))
  | inr after ↦ rw after (All-insert w v ws after k, insert-IsSorted v ws ks)
]

insert-Perm : (v : Volume) (ws : List Volume) → Perm (insert_by_id v ws) (v ∷ ws)
unfolding insert_by_id
insert-Perm v [] = Perm.refl (v ∷ [])
insert-Perm v (w ∷ ws) = elim (Bool-cases (less v w)) [
  | inl before ↦ rw before (Perm.refl (v ∷ w ∷ ws))
  | inr after ↦ rw after (Perm.trans (Perm.cons w (insert-Perm v ws)) (Perm.swap v w ws))
]

sort_onto-IsSorted : (done vs : List Volume) → IsSorted done → IsSorted (sort_onto done vs)
unfolding sort_onto
sort_onto-IsSorted done [] h = h
sort_onto-IsSorted done (v ∷ vs) h =
    sort_onto-IsSorted (insert_by_id v done) vs (insert-IsSorted v done h)

Perm-past : (v : Volume) (vs ws : List Volume) → Perm (vs ++ v ∷ ws) (v ∷ vs ++ ws)
Perm-past v [] ws = Perm.refl (v ∷ ws)
Perm-past v (w ∷ vs) ws = Perm.trans (Perm.cons w (Perm-past v vs ws)) (Perm.swap v w (vs ++ ws))

sort_onto-Perm : (done vs : List Volume) → Perm (sort_onto done vs) (vs ++ done)
unfolding sort_onto
sort_onto-Perm done [] = Perm.refl done
sort_onto-Perm done (v ∷ vs) =
    Perm.trans (sort_onto-Perm (insert_by_id v done) vs)
      (Perm.trans (Perm.append_left vs (insert-Perm v done)) (Perm-past v vs done))

sort_by_id-IsSorted : (vs : List Volume) → IsSorted (sort_by_id vs)
unfolding sort_by_id
sort_by_id-IsSorted vs = sort_onto-IsSorted [] vs tt

sort_by_id-Perm : (vs : List Volume) → Perm (sort_by_id vs) vs
unfolding sort_by_id
sort_by_id-Perm vs = rw (append-nil vs) at (sort_onto-Perm [] vs)

-- The volumes that ListVolumes pages through are sorted by ID, none before one with a smaller ID,
-- and they are the volumes that the store listed: none is lost and none is added.
pub sort_by_id_lem : (vs : List Volume) → IsSorted (sort_by_id vs) × Perm (sort_by_id vs) vs
sort_by_id_lem vs = (sort_by_id-IsSorted vs, sort_by_id-Perm vs)
