-- ===== src/Ipfs/Presence.antt =====
-- When StatCID says that a CID is not there.
use csi_driver_ipfs.Base.{
  ◌≡◌, refl, sym, ap, true, false, [], ◌∷◌, ◌++◌, map, Result, ok, err, Bool-cases, inl, inr,
}
use csi_driver_ipfs.Base.Exec.{or_else, map_error-ok, bind-ok}
use csi_driver_ipfs.Text.{Text, lit}
use csi_driver_ipfs.Text.Prefix.{has_prefix, strip, append-strip}
use csi_driver_ipfs.Sanitize.{to_lower}
use csi_driver_ipfs.Errors.{Error, wrapped}
use csi_driver_ipfs.Ipfs.{message, contains, says_not_found, stat_outcome, parse_cid_path, stat_cid}
use csi_driver_ipfs.Ipfs.Kubo.{Api, Session}

-- The text has the part somewhere in it.
abbrev pub Occurs : Text → Text → Type 0
Occurs part s = (before : Text) × (after : Text) × (s ≡ before ++ part ++ after)

contains-Occurs : (s part : Text) → contains s part ≡ true → Occurs part s
unfolding contains
contains-Occurs [] part h = ([], strip [] part, sym (append-strip [] part h))
contains-Occurs (c ∷ s) part h = elim (Bool-cases (has_prefix (c ∷ s) part)) [
  | inl here ↦ ([], strip (c ∷ s) part, sym (append-strip (c ∷ s) part here))
  | inr later ↦
      let found = contains-Occurs s part (rw later at h) in
      (c ∷ found.0, found.1, ap (λ t. c ∷ t) found.2)
]

stat_outcome_absent :
    {A : Type 0} (r : Result Error A)
    → stat_outcome r ≡ ok false
    → (e : Error) × (r ≡ err e) × (says_not_found e ≡ true)
stat_outcome_absent (ok a) h = cc
stat_outcome_absent (err e) h = elim (Bool-cases (says_not_found e)) [
  | inl says ↦ (e, refl, says)
  | inr other ↦ cc (rw other at h)
]

-- StatCID answers that a CID is not there only if the CID could be parsed, kubo was asked for it, and
-- kubo failed with a message that has "not found" in it, in lower or upper case.
pub stat_cid_absent :
    {W H : Type 0} (k : Api W H) (cid : Text) (s : Session W H)
    → (stat_cid k cid s).0 ≡ ok false
    → (path : Text) × (e : Error) × (k.decode_cid cid ≡ ok path)
      × ((k.get path s.world).0 ≡ err e)
      × Occurs (lit "not found") (map to_lower (message e))
unfolding stat_cid parse_cid_path says_not_found
stat_cid_absent k cid s h =
    let parsed = bind-ok (or_else (parse_cid_path k cid) wrapped) _ s false h in
    let answer = stat_outcome_absent (k.get parsed.0 s.world).0 parsed.2 in
    (
      parsed.0,
      answer.0,
      map_error-ok _ wrapped parsed.0 (map_error-ok _ wrapped parsed.0 parsed.1),
      answer.1,
      contains-Occurs (map to_lower (message answer.0)) (lit "not found") answer.2,
    )
