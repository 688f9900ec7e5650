-- ===== src/Controller/References/Count.antt =====
-- What `cidReferenceUsage` counts.
use csi_driver_ipfs.Base.{
  ◌<◌, ◌≡◌, refl, ◌≢◌, inl, inr, true, false, List, [], ◌∷◌, arith, All, Any, Bool-cases,
}
use csi_driver_ipfs.Text.{Text, lit, text_eq_iff}
use csi_driver_ipfs.Dict.{get}
use csi_driver_ipfs.Store.{VolumeAttributes}
use csi_driver_ipfs.Driver.{param_cid, param_pinning}
use csi_driver_ipfs.Controller.Create.{is_pinning_enabled}
use csi_driver_ipfs.Controller.References.{is_reference, count_references}

-- Another volume that has the CID, and was not created with pinning off.
pub record References (cid excluded_volume_id : Text) (v : VolumeAttributes) : Type 0 where
  pub other : v.volume_id ≢ excluded_volume_id
  pub same_cid : get param_cid v.attributes ≡ cid
  pub pinned : get param_pinning v.attributes ≢ lit "false"

module _ (cid excluded : Text) where
  references :
      (v : VolumeAttributes) → References cid excluded v → is_reference cid excluded v ≡ true
  unfolding is_reference is_pinning_enabled
  references v h = ground (
    arith,
    text_eq_iff v.volume_id excluded,
    text_eq_iff (get param_cid v.attributes) cid,
    text_eq_iff (get param_pinning v.attributes) (lit "false"),
  )

  pub is_reference-References :
      (v : VolumeAttributes) → is_reference cid excluded v ≡ true → References cid excluded v
  unfolding is_reference is_pinning_enabled
  is_reference-References v h = record {
    other = ground (arith, text_eq_iff v.volume_id excluded);
    same_cid = ground (arith, text_eq_iff (get param_cid v.attributes) cid);
    pinned = ground (arith, text_eq_iff (get param_pinning v.attributes) (lit "false"));
  }

  not-References :
      (v : VolumeAttributes) → ¬ (References cid excluded v) → is_reference cid excluded v ≡ false
  not-References v h = elim (Bool-cases (is_reference cid excluded v)) [
    | inl counts ↦ absurd (h (is_reference-References v counts))
    | inr passed ↦ passed
  ]

  pub count_references-pos :
      (vs : List VolumeAttributes)
      → Any (References cid excluded) vs
      → 0 < count_references cid excluded vs
  unfolding count_references
  count_references-pos [] h = absurd h
  count_references-pos (v ∷ vs) (inl here) = ground (arith, references v here)
  count_references-pos (v ∷ vs) (inr more) = omega (arith, count_references-pos vs more)

  pub count_references-zero :
      (vs : List VolumeAttributes)
      → All (λ v. ¬ (References cid excluded v)) vs
      → count_references cid excluded vs ≡ 0
  unfolding count_references
  count_references-zero [] h = refl
  count_references-zero (v ∷ vs) (h, hs) =
      ground (arith, not-References v h, count_references-zero vs hs)
