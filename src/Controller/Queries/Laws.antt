-- ===== src/Controller/Queries/Laws.antt =====
-- What the reading methods answer.
use csi_driver_ipfs.Base.{
  ℕ, ◌-◌, ◌^◌, ◌≤◌, ◌<◌, ◌≡◌, refl, ap, inl, inr, true, false, Option, none, some, List, [], ◌∷◌,
  suc, ◌+◌, arith, ltb, ◌⊎◌, ◌||◌, if◌then◌else◌, Result, ok, err, All, Any, Bool-cases,
  Option-cases,
}
use csi_driver_ipfs.Base.Int.{ℤ, pos, negsuc, is_positive, IsPositive}
use csi_driver_ipfs.Text.{Text, is_empty}
use csi_driver_ipfs.Errors.{Error, is_pv_not_found}
use csi_driver_ipfs.Csi.{
  Code, invalid_argument, not_found, internal, AccessMode, VolumeCapability, CapacityRange,
}
use csi_driver_ipfs.Store.{VolumeAttributes}
use csi_driver_ipfs.Driver.{Driver, State, RepoStat}
use csi_driver_ipfs.Controller.Capacity.{requested_size, parse_capacity_from_request}
use csi_driver_ipfs.Controller.Queries.{
  is_supported_mode, confirmed, unsupported, validate_loop, is_nil, to_int64, available_capacity,
  Validation, Expansion, controller_expand_volume, validate_volume_capabilities, get_capacity,
}

-- A capability with no access mode, or with a supported one.
abbrev pub IsFine : VolumeCapability → Type 0
IsFine c = (m : AccessMode) → c.access_mode ≡ some m → is_supported_mode m ≡ true

abbrev pub HasMode : VolumeCapability → Type 0
HasMode c = (m : AccessMode) × (c.access_mode ≡ some m)

abbrev pub HasUnsupported : VolumeCapability → Type 0
HasUnsupported c = (m : AccessMode) × (c.access_mode ≡ some m) × (is_supported_mode m ≡ false)

validate_loop_fine :
    (all rest : List VolumeCapability)
    → All IsFine rest
    → validate_loop all (some all) rest ≡ confirmed (some all)
unfolding validate_loop
validate_loop_fine all [] h = refl
validate_loop_fine all (c ∷ rest) (h, hs) = elim (Option-cases c.access_mode) [
  | inl e ↦ rw e (validate_loop_fine all rest hs)
  | inr (m, e) ↦ rw (e, h m e) (validate_loop_fine all rest hs)
]

validate_loop_confirms :
    (all rest : List VolumeCapability)
    → All IsFine rest
    → Any HasMode rest
    → validate_loop all none rest ≡ confirmed (some all)
unfolding validate_loop
validate_loop_confirms all [] h k = absurd k
validate_loop_confirms all (c ∷ rest) (h, hs) (inl (m, e)) =
    rw (e, h m e) (validate_loop_fine all rest hs)
validate_loop_confirms all (c ∷ rest) (h, hs) (inr more) = elim (Option-cases c.access_mode) [
  | inl e ↦ rw e (validate_loop_confirms all rest hs more)
  | inr (m, e) ↦ rw (e, h m e) (validate_loop_fine all rest hs)
]

validate_loop_refuses :
    (all rest : List VolumeCapability) (answer : Option (List VolumeCapability))
    → Any HasUnsupported rest
    → (m : AccessMode) × (validate_loop all answer rest ≡ unsupported m)
      × (is_supported_mode m ≡ false)
unfolding validate_loop
validate_loop_refuses all [] answer h = absurd h
validate_loop_refuses all (c ∷ rest) answer (inl (m, e, bad)) = (m, rw (e, bad) refl, bad)
validate_loop_refuses all (c ∷ rest) answer (inr more) = elim (Option-cases c.access_mode) [
  | inl e ↦ rw e (validate_loop_refuses all rest answer more)
  | inr (m, e) ↦ elim (Bool-cases (is_supported_mode m)) [
    | inl good ↦ rw (e, good) (validate_loop_refuses all rest (some all) more)
    | inr bad ↦ (m, rw (e, bad) refl, bad)
  ]
]

is_nil_of_Any {ℓ} : {A : Type ℓ} (P : A → Type 0) (xs : List A) → Any P xs → is_nil xs ≡ false
is_nil_of_Any P [] h = absurd h
is_nil_of_Any P (x ∷ xs) h = refl

module _ {W : Type 0} (d : Driver W) (id : Text) (caps : List VolumeCapability) (s : State W)
    (a : VolumeAttributes) (w₁ : W) (named : is_empty id ≡ false)
    (read : d.volumes.get_volume_attributes id s.world ≡ (ok a, w₁)) where
  -- Capabilities of a volume that is found under an ID that is not empty: if every access mode
  -- among them is supported and there is one, all the capabilities are confirmed.
  pub validate_volume_capabilities_confirms :
      All IsFine caps
      → Any HasMode caps
      → (validate_volume_capabilities d id caps s).0 ≡ ok (confirmed (some caps))
  unfolding validate_volume_capabilities
  validate_volume_capabilities_confirms fine mode =
      rw (named, is_nil_of_Any HasMode caps mode, read)
        (ap ok (validate_loop_confirms caps caps fine mode))

  -- Capabilities of a volume that is found under an ID that is not empty, one of which has an
  -- access mode that is not supported: nothing is confirmed, and the answer names such a mode.
  pub validate_volume_capabilities_refuses :
      Any HasUnsupported caps
      → (m : AccessMode) × ((validate_volume_capabilities d id caps s).0 ≡ ok (unsupported m))
        × (is_supported_mode m ≡ false)
  unfolding validate_volume_capabilities
  validate_volume_capabilities_refuses bad =
      let found = validate_loop_refuses caps caps none bad in
      (found.0, rw (named, is_nil_of_Any HasUnsupported caps bad, read) (ap ok found.1), found.2)

-- The access modes that the capabilities have, in order.
abbrev pub modes : List VolumeCapability → List AccessMode
modes [] = []
modes (c ∷ caps) = elim c.access_mode [ none ↦ modes caps | some mode ↦ mode ∷ modes caps ]

abbrev pub first_unsupported : List AccessMode → Option AccessMode
first_unsupported [] = none
first_unsupported (m ∷ ms) = if is_supported_mode m then first_unsupported ms else some m

abbrev pub verdict_of : Option AccessMode → Option (List VolumeCapability) → Validation
verdict_of (some mode) answer = unsupported mode
verdict_of none answer = confirmed answer

-- What is to be answered: the first mode that is not supported, and else all the capabilities if one
-- of them has a mode.
abbrev pub verdict : List VolumeCapability → Validation
verdict caps =
    verdict_of (first_unsupported (modes caps)) (if is_nil (modes caps) then none else some caps)

validate_loop-verdict :
    (all rest : List VolumeCapability) (answer : Option (List VolumeCapability))
    → validate_loop all answer rest
      ≡ verdict_of
          (first_unsupported (modes rest))
          (if is_nil (modes rest) then answer else some all)
unfolding validate_loop
validate_loop-verdict all [] answer = refl
validate_loop-verdict all (c ∷ rest) answer =
    ground (arith, validate_loop-verdict all rest answer, validate_loop-verdict all rest (some all))

abbrev pub judged : List VolumeCapability → Result Error VolumeAttributes → Result Code Validation
judged caps (ok attrs) = ok (verdict caps)
judged caps (err e) = err (if is_pv_not_found e then not_found else internal)

-- ValidateVolumeCapabilities of any request: without an ID or without capabilities it is refused; a
-- volume that cannot be read is NotFound or Internal; and of a volume that is read the answer names
-- the first access mode that is not supported, and else confirms all the capabilities if one of
-- them has a mode, and nothing if none has.
pub validate_volume_capabilities-verdict :
    {W : Type 0} (d : Driver W) (id : Text) (caps : List VolumeCapability) (s : State W)
    → (validate_volume_capabilities d id caps s).0 ≡ (
        if is_empty id || is_nil caps
        then err invalid_argument
        else judged caps (d.volumes.get_volume_attributes id s.world).0)
unfolding validate_volume_capabilities
validate_volume_capabilities-verdict d id caps s =
    ground (arith, validate_loop-verdict caps caps none)

-- GetCapacity where the free space fits an int64: it is what IPFS may still store, and zero where
-- IPFS stores more than it may.
get_capacity_exact :
    {W : Type 0} (d : Driver W) (s : State W) (stat : RepoStat) (w₁ : W)
    → d.ipfs.get_repo_stat s.world ≡ (ok stat, w₁)
    → stat.storage_max - stat.repo_size < 2 ^ 63
    → (get_capacity d s).0 ≡ ok (pos (stat.storage_max - stat.repo_size))
unfolding get_capacity available_capacity to_int64
get_capacity_exact d s stat w₁ answer fits = rw answer (ground arith)

-- GetCapacity where the free space does not fit an int64, as with the storage limit 2 ^ 64 - 1: the
-- capacity that is answered is negative.
get_capacity_negative :
    {W : Type 0} (d : Driver W) (s : State W) (stat : RepoStat) (w₁ : W)
    → d.ipfs.get_repo_stat s.world ≡ (ok stat, w₁)
    → 2 ^ 63 ≤ stat.storage_max - stat.repo_size
    → (get_capacity d s).0 ≡ ok (negsuc (2 ^ 64 - 1 - (stat.storage_max - stat.repo_size)))
unfolding get_capacity available_capacity to_int64
get_capacity_negative d s stat w₁ answer big = rw answer (ground arith)

-- GetCapacity where IPFS answers its limit and its size, both uint64: the free space, which is zero
-- where the limit is passed, is answered if it is less than 2 ^ 63, and otherwise a number that is
-- negative and less than the free space by 2 ^ 64.
pub get_capacity_lem :
    {W : Type 0} (d : Driver W) (s : State W) (stat : RepoStat) (w₁ : W)
    → d.ipfs.get_repo_stat s.world ≡ (ok stat, w₁)
    → stat.storage_max < 2 ^ 64
    → ((stat.storage_max - stat.repo_size < 2 ^ 63)
        × ((get_capacity d s).0 ≡ ok (pos (stat.storage_max - stat.repo_size))))
      ⊎ ((n : ℕ) × (2 ^ 63 ≤ stat.storage_max - stat.repo_size)
          × ((get_capacity d s).0 ≡ ok (negsuc n))
          × (suc n + (stat.storage_max - stat.repo_size) ≡ 2 ^ 64))
get_capacity_lem d s stat w₁ answer bounded =
    elim (Bool-cases (ltb (stat.storage_max - stat.repo_size) (2 ^ 63))) [
      | inl fits ↦
          let small : stat.storage_max - stat.repo_size < 2 ^ 63 = ground arith in
          inl (small, get_capacity_exact d s stat w₁ answer small)
      | inr over ↦
          let big : 2 ^ 63 ≤ stat.storage_max - stat.repo_size = ground arith in
          inr (
            2 ^ 64 - 1 - (stat.storage_max - stat.repo_size),
            big,
            get_capacity_negative d s stat w₁ answer big,
            omega arith,
          )
    ]

is_positive-IsPositive : (z : ℤ) → is_positive z ≡ true → IsPositive z
is_positive-IsPositive (pos n) h = ground arith
is_positive-IsPositive (negsuc n) h = ground arith

-- An expansion that is acknowledged has a positive size: the required size, or the limit where no
-- size is required; and the node has to expand too.
pub controller_expand_volume-IsPositive :
    {W : Type 0} (id : Text) (range : Option CapacityRange) (s : State W) (e : Expansion)
    → (controller_expand_volume id range s).0 ≡ ok e
    → IsPositive e.capacity_bytes
      × (e.node_expansion_required ≡ true)
      × ((r : CapacityRange) × (range ≡ some r) × (e.capacity_bytes ≡ requested_size r))
unfolding controller_expand_volume parse_capacity_from_request
controller_expand_volume-IsPositive id none s e h = ground arith
controller_expand_volume-IsPositive id (some r) s e h = elim (Bool-cases (is_empty id)) [
  | inl unnamed ↦ ground arith
  | inr named ↦ elim (Bool-cases (is_positive (requested_size r))) [
    | inl good ↦
        (let e≡ : e ≡ record { capacity_bytes = requested_size r; node_expansion_required = true } =
            ground arith in
          rw e≡ (is_positive-IsPositive (requested_size r) good, refl, (r, refl, refl)))
    | inr bad ↦ ground arith
  ]
]
