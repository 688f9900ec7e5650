-- ===== src/Node/Publishing.antt =====
-- What publishing a volume does.
use mathlib.Core.Path.{subst}
use csi_driver_ipfs.Base.{
  arith, ◌&&◌, sym, ◌≡◌, refl, ap, inl, inr, Bool, true, false, List, ◌∷◌, Result, ok, err,
  Bool-cases, Result-cases, err_ne_ok,
}
use csi_driver_ipfs.Base.Exec.{return, ◌>>◌, ◌>>=◌, or_else, bind-ok, map_error-ok}
use csi_driver_ipfs.Text.{Text, is_empty}
use csi_driver_ipfs.Errors.{Error}
use csi_driver_ipfs.Driver.{
  Driver, State, Event, param_cid, param_mfs_path, directory_made, mount_point_tested, mounted,
}
use csi_driver_ipfs.Driver.Calls
use csi_driver_ipfs.Controller.Create.{as_internal}
use csi_driver_ipfs.Node.{
  PublishRequest, publish_source, is_not_mounted, mount_source, node_publish_volume,
}
use csi_driver_ipfs.Dict.{Dict, get}
use csi_driver_ipfs.Node.Content.{join_path, fetch_content_to_path}
use csi_driver_ipfs.Node.Staging.{fetched, emptied, fetch_content_refills}
use csi_driver_ipfs.Node.Options.{build_mount_options}

-- Where the source of a publish comes from, and the calls after those `before` it: the staging path
-- as it is, or the volume's own directory, which is made and, if the volume context names a content,
-- emptied and filled with it.
pub data Sourced {W : Type 0} (d : Driver W) (req : PublishRequest) (before : List Event)
    : Text → List Event → Type 0 where
  as_staged :
      is_empty req.staging_target_path ≡ false → Sourced d req before req.staging_target_path before
  as_made :
      is_empty req.staging_target_path ≡ true
      → is_empty (get param_cid req.volume_context)
          && is_empty (get param_mfs_path req.volume_context)
        ≡ true
      → Sourced d req before
          (join_path d.cfg.mount_dir req.volume_id)
          (directory_made (join_path d.cfg.mount_dir req.volume_id) (ok tt) ∷ before)
  as_filled :
      is_empty req.staging_target_path ≡ true
      → is_empty (get param_cid req.volume_context)
          && is_empty (get param_mfs_path req.volume_context)
        ≡ false
      → (entries : List Text)
      → Sourced d req before (join_path d.cfg.mount_dir req.volume_id) (
          fetched req.volume_context (join_path d.cfg.mount_dir req.volume_id)
          ∷ emptied
              (join_path d.cfg.mount_dir req.volume_id)
              entries
              (directory_made (join_path d.cfg.mount_dir req.volume_id) (ok tt) ∷ before))

-- The mount of a source on the target with the request's options.
abbrev pub mount_of : PublishRequest → Text → Event
mount_of req source =
    mounted source req.target_path (build_mount_options req.read_only req.mount_flags) (ok tt)

-- The calls that leave the target mounted, after those `before` them: it was a mount point, or the
-- source was mounted on it, after the target was made once more where the
-- test said that it does not exist.
pub data Mounted {W : Type 0} (d : Driver W) (req : PublishRequest) (source : Text)
    (before : List Event) : List Event → Type 0 where
  already : Mounted d req source before (mount_point_tested req.target_path (ok false) ∷ before)
  mounts :
      Mounted d req source before
        (mount_of req source ∷ mount_point_tested req.target_path (ok true) ∷ before)
  mounts_made :
      (e : Error)
      → d.host.is_not_exist e ≡ true
      → Mounted d req source before (
          mount_of req source
          ∷ directory_made req.target_path (ok tt)
          ∷ mount_point_tested req.target_path (err e)
          ∷ before)

-- A publish that has made the source, then the target, and has then left the source mounted on it.
pub record IsMounted {W : Type 0} (d : Driver W) (req : PublishRequest) (before events : List Event)
    : Type 0 where
  pub source : Text
  pub calls : List Event
  pub sourced : Sourced d req before source calls
  pub mounts : Mounted d req source (directory_made req.target_path (ok tt) ∷ calls) events

module _ {W : Type 0} (d : Driver W) where
  fetch_nothing :
      (context : Dict) (dest : Text) (s : State W)
      → is_empty (get param_cid context) && is_empty (get param_mfs_path context) ≡ true
      → (fetch_content_to_path d context dest s).1 ≡ s
  unfolding fetch_content_to_path
  fetch_nothing context dest s h = ground arith

  -- The volume's own directory, after it was made and the content fetched.
  filled_ok :
      (req : PublishRequest) (s : State W)
      → is_empty req.staging_target_path ≡ true
      → (d.host.mkdir_all (join_path d.cfg.mount_dir req.volume_id) s.world).0 ≡ ok tt
      → (fetch_content_to_path d req.volume_context
          (join_path d.cfg.mount_dir req.volume_id)
          (Calls.mkdir_all d (join_path d.cfg.mount_dir req.volume_id) s).1).0
        ≡ ok tt
      → Sourced d req s.events
          (join_path d.cfg.mount_dir req.volume_id)
          (fetch_content_to_path d req.volume_context
            (join_path d.cfg.mount_dir req.volume_id)
            (Calls.mkdir_all d (join_path d.cfg.mount_dir req.volume_id) s).1).1.events
  filled_ok req s none_staged made fetches =
      let dir = join_path d.cfg.mount_dir req.volume_id in
      let t = (Calls.mkdir_all d dir s).1 in
      elim (Bool-cases (
        is_empty (get param_cid req.volume_context)
        && is_empty (get param_mfs_path req.volume_context))) [
          | inl nothing ↦
              rw (fetch_nothing req.volume_context dir t nothing, made)
                (as_made none_staged nothing)
          | inr content ↦
              let (entries, calls) =
                fetch_content_refills d req.volume_context dir t content fetches in
              rw calls (
                subst
                  (λ r. Sourced d req s.events dir (
                    fetched req.volume_context dir
                    ∷ emptied dir entries (directory_made dir r ∷ s.events)))
                  (sym made) (as_filled none_staged content entries))
        ]

  publish_source_ok :
      (req : PublishRequest) (source : Text) (s : State W)
      → (publish_source d req s).0 ≡ ok source
      → Sourced d req s.events source (publish_source d req s).1.events
  unfolding publish_source
  publish_source_ok req source s h = elim (Bool-cases (is_empty req.staging_target_path)) [
    | inr is ↦
        let same : req.staging_target_path ≡ source = cc (rw is at h) in
        rw is (subst (λ p. Sourced d req s.events p s.events) same (as_staged is))
    | inl none_staged ↦
        let dir = join_path d.cfg.mount_dir req.volume_id in
        let (_, made, rest, e₁) =
          bind-ok (or_else (Calls.mkdir_all d dir) as_internal)
            (λ _. fetch_content_to_path d req.volume_context dir >> return dir) s source
            (rw none_staged at h) in
        let t = (Calls.mkdir_all d dir s).1 in
        let (_, fetched_it, done, e₂) =
          bind-ok (fetch_content_to_path d req.volume_context dir) (λ _. return dir) t source
            rest in
        let from : (d.host.mkdir_all dir s.world).0 ≡ ok tt = map_error-ok _ as_internal tt made in
        let same : dir ≡ source = cc done in
        rw none_staged (
          rw (e₁, e₂)
            (subst
              (λ p.
                Sourced d req s.events p
                  (fetch_content_to_path d req.volume_context dir t).1.events)
              same (filled_ok req s none_staged from fetched_it)))
  ]

  mount_source_ok :
      (req : PublishRequest) (source : Text) (s : State W)
      → (mount_source d req source true s).0 ≡ ok tt
      → (mount_source d req source true s).1.events ≡ mount_of req source ∷ s.events
  unfolding mount_source
  mount_source_ok req source s h =
      ap
        (λ r.
          mounted source req.target_path (build_mount_options req.read_only req.mount_flags) r
          ∷ s.events)
        (map_error-ok _ as_internal tt h)

  -- The part of a publish after the source is there.
  mount_ok :
      (req : PublishRequest) (source : Text) (tested : Result Error Bool) (s : State W)
      (before : List Event)
      → s.events ≡ mount_point_tested req.target_path tested ∷ before
      → ((is_not_mounted d req.target_path tested >>= mount_source d req source) s).0 ≡ ok tt
      → Mounted d req source before
          ((is_not_mounted d req.target_path tested >>= mount_source d req source) s).1.events
  unfolding is_not_mounted
  mount_ok req source (ok false) s before e h = unfold mount_source in (rw e already)
  mount_ok req source (ok true) s before e h = rw (mount_source_ok req source s h, e) mounts
  mount_ok req source (err x) s before e h = elim (Bool-cases (d.host.is_not_exist x)) [
    | inr other ↦ absurd (err_ne_ok (rw other at h))
    | inl missing ↦ elim (Result-cases (d.host.mkdir_all req.target_path s.world).0) [
      | inl (u, made) ↦
          rw (missing, made)
            (rw (mount_source_ok req source _ (rw (missing, made) at h), e) (mounts_made x missing))
      | inr (f, fails) ↦ absurd (err_ne_ok (rw (missing, fails) at h))
    ]
  ]

  -- A publish that succeeds has used the staging path for its source if there is one, and otherwise
  -- the volume's own directory, which it has made and, if the volume context names a content,
  -- emptied and filled with it. Then it has made the target and tested it: it was found to be a mount
  -- point, or the source was mounted on it with the request's options, and no call came after that.
  pub node_publish_volume-IsMounted :
      (req : PublishRequest) (s : State W)
      → (node_publish_volume d req s).0 ≡ ok tt
      → IsMounted d req s.events (node_publish_volume d req s).1.events
  unfolding node_publish_volume
  node_publish_volume-IsMounted req s h = elim (Bool-cases (is_empty req.volume_id)) [
    | inl unnamed ↦ absurd (err_ne_ok (rw unnamed at h))
    | inr named ↦ elim (Bool-cases (is_empty req.target_path)) [
      | inl unplaced ↦ absurd (err_ne_ok (rw (named, unplaced) at h))
      | inr placed ↦
          let from = bind-ok (publish_source d req) _ s tt (rw (named, placed) at h) in
          let made =
            bind-ok (or_else (Calls.mkdir_all d req.target_path) as_internal) _ _ tt from.2 in
          let t = (publish_source d req s).1 in
          rw (named, placed)
            (record {
              source = from.0;
              calls = t.events;
              sourced = publish_source_ok req from.0 s from.1;
              mounts =
                  rw (from.3, made.3)
                    (mount_ok req from.0 _ _ (directory_made req.target_path (ok tt) ∷ t.events)
                      (ap
                        (λ r.
                          mount_point_tested req.target_path
                            (Calls.is_likely_not_mount_point d req.target_path
                              (Calls.mkdir_all d req.target_path t).1).0
                          ∷ directory_made req.target_path r
                          ∷ t.events)
                        (map_error-ok _ as_internal tt made.1))
                      made.2);
            })
    ]
  ]

  -- A publish of a staged volume whose target is a mount point already succeeds, and it mounts
  -- nothing.
  pub node_publish_again :
      (req : PublishRequest) (s : State W) (w₁ w₂ : W)
      → is_empty req.volume_id ≡ false
      → is_empty req.target_path ≡ false
      → is_empty req.staging_target_path ≡ false
      → d.host.mkdir_all req.target_path s.world ≡ (ok tt, w₁)
      → d.host.is_likely_not_mount_point req.target_path w₁ ≡ (ok false, w₂)
      → ((node_publish_volume d req s).0 ≡ ok tt)
        × ((node_publish_volume d req s).1.events
            ≡ mount_point_tested req.target_path (ok false)
              ∷ directory_made req.target_path (ok tt)
              ∷ s.events)
  unfolding node_publish_volume publish_source is_not_mounted mount_source
  node_publish_again req s w₁ w₂ named placed staged made is_mounted =
      rw (named, placed, staged, made, is_mounted) (refl, refl)
