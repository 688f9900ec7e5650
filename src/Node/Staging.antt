-- ===== src/Node/Staging.antt =====
-- What staging and unstaging a volume do: a stage empties the directory before it fills it, and an
-- unstage imports the directory before it cleans it up.
use csi_driver_ipfs.Base.{
  ◌≡◌, refl, ap, ◌∙◌, true, false, ◌&&◌, List, [], ◌∷◌, Result, ok, err, Bool-cases, inl, inr,
  if◌then◌else◌, arith,
}
use csi_driver_ipfs.Base.Exec.{or_else, bind-ok, map_error-ok}
use csi_driver_ipfs.Text.{Text, is_empty}
use csi_driver_ipfs.Dict.{Dict, get}
use csi_driver_ipfs.Errors.{Error, Op}
use csi_driver_ipfs.Csi.{internal}
use csi_driver_ipfs.Store.{VolumeAttributes}
use csi_driver_ipfs.Driver.{
  Driver, State, Event, param_cid, param_mfs_path, cid_fetched, mfs_exported, mfs_imported,
  path_removed, directory_made, directory_read, mount_point_cleaned, volume_read,
}
use csi_driver_ipfs.Driver.Calls
use csi_driver_ipfs.Driver.Calls.{call}
use csi_driver_ipfs.Controller.Create.{as_internal}
use csi_driver_ipfs.Node.{import_path, import_staged, node_unstage_volume}
use csi_driver_ipfs.Node.Content.{
  join_path, remove_entries, ensure_empty_directory, refill, fetch_content_to_path,
}

-- The removals of the entries of a directory, added to the calls so far.
abbrev pub removals : Text → List Text → List Event → List Event
removals path [] events = events
removals path (entry ∷ entries) events =
    removals path entries (path_removed (join_path path entry) (ok tt) ∷ events)

-- The calls that empty a directory with these entries.
abbrev pub emptied : Text → List Text → List Event → List Event
emptied path entries events =
    removals path entries (directory_read path (ok entries) ∷ directory_made path (ok tt) ∷ events)

-- The call that fetches the content that a volume context names.
abbrev pub fetched : Dict → Text → Event
fetched volume_context dest =
    let cid = get param_cid volume_context in
    if is_empty cid
    then mfs_exported (get param_mfs_path volume_context) dest (ok tt)
    else cid_fetched cid dest (ok tt)

module _ {W : Type 0} (d : Driver W) where
  remove_entries_ok :
      (path : Text) (entries : List Text) (s : State W)
      → (remove_entries d path entries s).0 ≡ ok tt
      → (remove_entries d path entries s).1.events ≡ removals path entries s.events
  unfolding remove_entries
  remove_entries_ok path [] s h = refl
  remove_entries_ok path (entry ∷ entries) s h =
      let run =
        bind-ok (Calls.remove_all d (join_path path entry)) (λ _. remove_entries d path entries) s
          tt h in
      ap (λ r. r.1.events) run.3
      ∙ remove_entries_ok path entries _ run.2
      ∙ ap (λ r. removals path entries (path_removed (join_path path entry) r ∷ s.events)) run.1

  ensure_empty_ok :
      (path : Text) (s : State W)
      → (ensure_empty_directory d path s).0 ≡ ok tt
      → (entries : List Text) × ((ensure_empty_directory d path s).1.events
          ≡ emptied path entries s.events)
  unfolding ensure_empty_directory
  ensure_empty_ok path s h =
      let made = bind-ok (Calls.mkdir_all d path) _ s tt h in
      let listed = bind-ok (Calls.read_dir d path) _ _ tt made.2 in
      (
        listed.0,
        ap (λ r. r.1.events) made.3
            ∙ ap (λ r. r.1.events) listed.3
            ∙ remove_entries_ok path listed.0 _ listed.2
            ∙ ap
                (λ r. removals path listed.0 (
                  directory_read path r
                  ∷ directory_made path (Calls.mkdir_all d path s).0
                  ∷ s.events))
                listed.1
            ∙ ap
                (λ r.
                  removals path listed.0
                    (directory_read path (ok listed.0) ∷ directory_made path r ∷ s.events))
                made.1,
      )

  refill_ok :
      (dest : Text) (op : Op W Unit) (event : Result Error Unit → Event) (s : State W)
      → (refill d dest (call op event) s).0 ≡ ok tt
      → (entries : List Text) × ((refill d dest (call op event) s).1.events
          ≡ event (ok tt) ∷ emptied dest entries s.events)
  unfolding refill
  refill_ok dest op event s h =
      let run = bind-ok (or_else (ensure_empty_directory d dest) as_internal) _ s tt h in
      let empty = ensure_empty_ok dest s (map_error-ok _ as_internal tt run.1) in
      (
        empty.0,
        ap (λ r. r.1.events) run.3
            ∙ ap (λ r. event r ∷ (ensure_empty_directory d dest s).1.events)
                (map_error-ok _ as_internal tt run.2)
            ∙ ap (λ events. event (ok tt) ∷ events) empty.1,
      )

  -- A fetch of a content that the volume context names, where it succeeds: it made and listed the
  -- directory, removed every entry that it listed, and only then fetched, the CID if there is one and
  -- the MFS path otherwise.
  pub fetch_content_refills :
      (volume_context : Dict) (dest : Text) (s : State W)
      → is_empty (get param_cid volume_context) && is_empty (get param_mfs_path volume_context)
        ≡ false
      → (fetch_content_to_path d volume_context dest s).0 ≡ ok tt
      → (entries : List Text) × ((fetch_content_to_path d volume_context dest s).1.events
          ≡ fetched volume_context dest ∷ emptied dest entries s.events)
  unfolding fetch_content_to_path
  fetch_content_refills volume_context dest s content h =
      elim (Bool-cases (is_empty (get param_cid volume_context))) [
        | inr named ↦ rw named (
            refill_ok dest (d.ipfs.get_cid_content (get param_cid volume_context) dest)
              (cid_fetched (get param_cid volume_context) dest) s (rw named at h))
        | inl unnamed ↦
            let stored : is_empty (get param_mfs_path volume_context) ≡ false = ground arith in
            rw unnamed (
              rw stored (
                refill_ok dest (d.ipfs.export_mfs (get param_mfs_path volume_context) dest)
                  (mfs_exported (get param_mfs_path volume_context) dest) s
                  (rw (unnamed, stored) at h)))
      ]

module _ {W : Type 0} (d : Driver W) (id staging : Text) (s : State W) (named : is_empty id ≡ false)
    (placed : is_empty staging ≡ false) where
  -- The answer of the store, and the world after it.
  abbrev answer : Result Error VolumeAttributes
  answer = (d.volumes.get_volume_attributes id s.world).0

  abbrev after_read : W
  after_read = (d.volumes.get_volume_attributes id s.world).1

  -- Unstaging a volume whose content belongs to an MFS path, with an ID and a staging path that
  -- are not empty, where the import of the staged files fails: the call fails, and the staging
  -- directory is not cleaned up, so that the files stay.
  pub node_unstage_keeps :
      (e : Error)
      → is_empty (import_path answer) ≡ false
      → (d.ipfs.import_to_mfs staging (import_path answer) after_read).0 ≡ err e
      → ((node_unstage_volume d id staging s).0 ≡ err internal)
        × ((node_unstage_volume d id staging s).1.events
            ≡ mfs_imported staging (import_path answer) (err e) ∷ volume_read id answer ∷ s.events)
  unfolding node_unstage_volume import_staged
  node_unstage_keeps e owned fails = rw (named, placed, owned, fails) (refl, refl)

  -- Unstaging a volume whose content belongs to an MFS path, with an ID and a staging path that
  -- are not empty, where the import succeeds: the staging directory is cleaned up after the
  -- import, and the call succeeds whatever the cleanup answers.
  pub node_unstage_writes_back :
      is_empty (import_path answer) ≡ false
      → (d.ipfs.import_to_mfs staging (import_path answer) after_read).0 ≡ ok tt
      → ((node_unstage_volume d id staging s).0 ≡ ok tt)
        × ((r : Result Error Unit) × ((node_unstage_volume d id staging s).1.events
              ≡ mount_point_cleaned staging r
                ∷ mfs_imported staging (import_path answer) (ok tt)
                ∷ volume_read id answer
                ∷ s.events))
  unfolding node_unstage_volume import_staged
  node_unstage_writes_back owned written = rw (named, placed, owned, written) (refl, (_, refl))

  -- Unstaging a volume that is read-only, has no MFS path or cannot be read: nothing is imported,
  -- the staging directory is cleaned up, and the call succeeds whatever the cleanup answers.
  pub node_unstage_without_import :
      is_empty (import_path answer) ≡ true
      → ((node_unstage_volume d id staging s).0 ≡ ok tt)
        × ((node_unstage_volume d id staging s).1.events
            ≡ mount_point_cleaned staging (d.host.cleanup_mount_point staging after_read).0
              ∷ volume_read id answer
              ∷ s.events)
  unfolding node_unstage_volume import_staged
  node_unstage_without_import free = rw (named, placed, free) (refl, refl)
