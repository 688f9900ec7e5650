-- ===== src/Store/Volumes/Laws.antt =====
-- What `GetVolumeAttributes` and `ListVolumes` find in the lister's cache, and that they agree.
use csi_driver_ipfs.Base.{
  ◌≡◌, refl, sym, ◌⊎◌, inl, inr, true, false, none, some, List, [], ◌∷◌, arith, All, Any, ok, err,
  Bool-cases,
}
use csi_driver_ipfs.Text.{Text, is_empty, text_eq_iff}
use csi_driver_ipfs.Errors.{Error, is_pv_not_found}
use csi_driver_ipfs.Store.{VolumeAttributes}
use csi_driver_ipfs.Store.Volumes.{
  PersistentVolume, Lister, csi_attributes, pv_to_attributes, has_handle, find_handle,
  get_volume_attributes,
}

-- The attributes of a volume with the handle `id`, kept in the list.
abbrev pub Holds : Text → List PersistentVolume → VolumeAttributes → Type 0
Holds id all a =
    (a.volume_id ≡ id) × Any (λ pv. (has_handle id pv ≡ true) × (pv_to_attributes pv ≡ ok a)) all

handle_attributes :
    (id : Text) (pv : PersistentVolume)
    → is_empty id ≡ false
    → has_handle id pv ≡ true
    → (a : VolumeAttributes) × (pv_to_attributes pv ≡ ok a) × (a.volume_id ≡ id)
unfolding has_handle pv_to_attributes
handle_attributes id pv filled h = go pv.csi refl
  where
    go :
        (o : _)
        → pv.csi ≡ o
        → (a : VolumeAttributes) × (pv_to_attributes pv ≡ ok a) × (a.volume_id ≡ id)
    go none e = ground arith
    go (some csi) e =
        (csi_attributes pv csi, rw e refl, ground (arith, text_eq_iff csi.volume_handle id))

find_handle_found :
    (id : Text) (all : List PersistentVolume)
    → is_empty id ≡ false
    → Any (λ pv. has_handle id pv ≡ true) all
    → (a : VolumeAttributes) × (find_handle id all ≡ ok a) × Holds id all a
unfolding find_handle
find_handle_found id [] filled h = absurd h
find_handle_found id (pv ∷ all) filled h = elim (Bool-cases (has_handle id pv)) [
  | inl here ↦
      let (a, e, same) = handle_attributes id pv filled here in
      (a, rw here e, (same, inl (here, e)))
  | inr there ↦
      let (a, e, held) = find_handle_found id all filled (later there h) in
      (a, rw there e, (held.0, inr held.1))
]
  where
    later :
        has_handle id pv ≡ false
        → Any (λ p. has_handle id p ≡ true) (pv ∷ all)
        → Any (λ p. has_handle id p ≡ true) all
    later e (inl here) = cc
    later e (inr more) = more

find_handle_absent :
    (id : Text) (all : List PersistentVolume)
    → All (λ pv. has_handle id pv ≡ false) all
    → (e : Error) × (find_handle id all ≡ err e) × (is_pv_not_found e ≡ true)
unfolding find_handle is_pv_not_found
find_handle_absent id [] h = (_, refl, refl)
find_handle_absent id (pv ∷ all) (h, hs) = rw h (find_handle_absent id all hs)

-- A synced cache: `list` returns all its volumes, `get` one of them or an error, and reading it
-- changes nothing.
pub record IsCached {W : Type 0} (lister : Lister W) (all : List PersistentVolume) (w : W)
    : Type 0 where
  pub lists : lister.list w ≡ (ok all, w)
  pub gets :
      (name : Text)
      → ((e : Error) × (lister.get name w ≡ (err e, w)))
        ⊎ ((pv : PersistentVolume) × (lister.get name w ≡ (ok pv, w)) × Any (λ p. p ≡ pv) all)

holds_member :
    (id : Text) (all : List PersistentVolume) (pv : PersistentVolume) (a : VolumeAttributes)
    → Any (λ p. p ≡ pv) all
    → has_handle id pv ≡ true
    → pv_to_attributes pv ≡ ok a
    → Any (λ p. (has_handle id p ≡ true) × (pv_to_attributes p ≡ ok a)) all
holds_member id [] pv a m h e = absurd m
holds_member id (p ∷ all) pv a (inl same) h e = inl (rw same (h, e))
holds_member id (p ∷ all) pv a (inr m) h e = inr (holds_member id all pv a m h e)

none_member :
    (id : Text) (all : List PersistentVolume) (pv : PersistentVolume)
    → Any (λ p. p ≡ pv) all
    → All (λ p. has_handle id p ≡ false) all
    → has_handle id pv ≡ false
none_member id [] pv m h = absurd m
none_member id (p ∷ all) pv (inl same) (h, hs) = rw (sym same) h
none_member id (p ∷ all) pv (inr m) (h, hs) = none_member id all pv m hs

handle-cases :
    (id : Text) (all : List PersistentVolume)
    → Any (λ pv. has_handle id pv ≡ true) all ⊎ All (λ pv. has_handle id pv ≡ false) all
handle-cases id [] = inr tt
handle-cases id (pv ∷ all) = elim (Bool-cases (has_handle id pv)) [
  | inl here ↦ inl (inl here)
  | inr other ↦ elim (handle-cases id all) [
    | inl later ↦ inl (inr later)
    | inr absent ↦ inr (other, absent)
  ]
]

module _ {W : Type 0} (lister : Lister W) (all : List PersistentVolume) (w : W)
    (cached : IsCached lister all w) (id : Text) where
  -- For a synced cache and an ID that is not empty: if a volume of the cache has the ID for its
  -- handle, GetVolumeAttributes returns the attributes of such a volume, under that ID.
  pub get_volume_attributes_found :
      is_empty id ≡ false
      → Any (λ pv. has_handle id pv ≡ true) all
      → (a : VolumeAttributes) × (get_volume_attributes lister id w ≡ (ok a, w)) × Holds id all a
  unfolding get_volume_attributes
  get_volume_attributes_found filled some_handle =
      let (a, e, held) = find_handle_found id all filled some_handle in
      elim (cached.gets id) [
        | inl (x, g) ↦ (a, rw (g, cached.lists, e) refl, held)
        | inr (pv, g, m) ↦ elim (Bool-cases (has_handle id pv)) [
          | inl here ↦
              let (b, e', same) = handle_attributes id pv filled here in
              (b, rw (g, here, e') refl, (same, holds_member id all pv b m here e'))
          | inr other ↦ (a, rw (g, other, cached.lists, e) refl, held)
        ]
      ]

  -- For a synced cache: if no volume of the cache has the ID for its handle, GetVolumeAttributes
  -- fails with an error that `errors.Is` takes for ErrPVNotFound.
  pub get_volume_attributes_absent :
      All (λ pv. has_handle id pv ≡ false) all
      → (e : Error) × (get_volume_attributes lister id w ≡ (err e, w)) × (is_pv_not_found e ≡ true)
  unfolding get_volume_attributes
  get_volume_attributes_absent absent =
      let (x, e, is) = find_handle_absent id all absent in
      elim (cached.gets id) [
        | inl (y, g) ↦ (x, rw (g, cached.lists, e) refl, is)
        | inr (pv, g, m) ↦ (x, rw (g, none_member id all pv m absent, cached.lists, e) refl, is)
      ]

  -- GetVolumeAttributes on a synced cache, under an ID that is not empty: either a volume of the
  -- cache has the ID for its handle, and the answer is the attributes of such a volume, under that
  -- ID; or none has, and the answer is an error that `errors.Is` takes for ErrPVNotFound.
  pub get_volume_attributes_lem :
      is_empty id ≡ false
      → ((a : VolumeAttributes) × (get_volume_attributes lister id w ≡ (ok a, w)) × Holds id all a)
        ⊎ (All (λ pv. has_handle id pv ≡ false) all
            × ((e : Error) × (get_volume_attributes lister id w ≡ (err e, w))
                × (is_pv_not_found e ≡ true)))
  get_volume_attributes_lem filled = elim (handle-cases id all) [
    | inl some_handle ↦ inl (get_volume_attributes_found filled some_handle)
    | inr absent ↦ inr (absent, get_volume_attributes_absent absent)
  ]
