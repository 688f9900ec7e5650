-- ===== src/Startup/Equipped.antt =====
-- The driver that is made over started informers.
use csi_driver_ipfs.Base.{
  ◌≡◌, refl, ap, ◌∙◌, sym, Option, none, some, ◌++◌, map, Result, ok, err, arith,
}
use csi_driver_ipfs.Base.Exec.{bind-ok, map_error-ok}
use csi_driver_ipfs.Store.{VolumeStore, SnapshotStore}
use csi_driver_ipfs.Store.Volumes.{pv_store}
use csi_driver_ipfs.Store.Snapshots
use csi_driver_ipfs.Driver.{Host, Driver, Config, IpfsClient, new_driver}
use csi_driver_ipfs.Ipfs.Kubo.{Session}
use csi_driver_ipfs.Ipfs.Dial.{Dialer}
use csi_driver_ipfs.Kubernetes.{Ref, Library}
use csi_driver_ipfs.Kubernetes.Informers.{
  InformerManager, new_informer_manager, get_pv_lister, get_vsc_lister, factory_of,
}
use csi_driver_ipfs.Startup.{
  Process, State, Exit, at_cluster, with_manager, answering, snapshot_store_of, fatal, no_driver,
}
use csi_driver_ipfs.Startup.Steps.{make_driver, start_informers, equip}
use csi_driver_ipfs.Startup.Serving.{fresh, informed, start_informers_ok, start_informers_keeps}

answering-ok :
    {B : Type 0} (r : Result Exit Unit) (b c : B) → answering r b ≡ ok c → (r ≡ ok tt) × (b ≡ c)
answering-ok (ok a) b c h = (refl, ground arith)
answering-ok (err exit) b c h = cc

-- The lister over the factory for contents, where there is one.
abbrev pub content_lister_over : {W : Type 0} → Library W → Option Ref → Option (Snapshots.Lister W)
content_lister_over lib none = none
content_lister_over lib (some factory) = some (lib.content_lister factory)

-- The same for the factory of the client that is used.
abbrev pub content_lister_of : {W : Type 0} → Library W → Option Ref → Option (Snapshots.Lister W)
content_lister_of lib none = none
content_lister_of lib (some client) = some (lib.content_lister (lib.snapshot_factory client))

content_lister-factory :
    {W : Type 0} (lib : Library W) (snapshot : Option Ref)
    → content_lister_over lib (factory_of lib.snapshot_factory snapshot)
      ≡ content_lister_of lib snapshot
content_lister-factory lib none = refl
content_lister-factory lib (some client) = refl

get_vsc_lister-over :
    {W : Type 0} (lib : Library W) (im : InformerManager)
    → get_vsc_lister lib im ≡ content_lister_over lib im.snapshot_informer_factory
unfolding get_vsc_lister
get_vsc_lister-over lib im = ground arith

-- The stores of a driver over the listers of the two factories, without the second where no
-- snapshot client is used.
pub record IsOver {W : Type 0} (lib : Library W) (kube : Ref) (snapshot : Option Ref) (d : Driver W)
    : Type 0 where
  pub volumes : d.volumes ≡ pv_store (lib.volume_lister (lib.core_factory kube))
  pub snapshots : d.snapshots ≡ snapshot_store_of (content_lister_of lib snapshot)

new_driver-ok :
    {W : Type 0} (cfg : Config) (ipfs : IpfsClient W) (volumes : VolumeStore W)
    (snapshots : Option (SnapshotStore W)) (host : Host W) (d : Driver W)
    → new_driver cfg ipfs volumes snapshots host ≡ ok d
    → (d.volumes ≡ volumes) × (d.snapshots ≡ snapshots)
unfolding new_driver
new_driver-ok cfg ipfs volumes snapshots host d h = ground arith

module _ {M V H : Type 0} (dialer : Dialer M V H) (process : Process (Session V H)) where
  make_driver-IsOver :
      (cfg : Config) (ipfs : IpfsClient (Session V H)) (im : InformerManager) (kube : Ref)
      (snapshot : Option Ref) (s : State (Session V H)) (d : Driver (Session V H))
      → im.core_informer_factory ≡ process.library.core_factory kube
      → im.snapshot_informer_factory ≡ factory_of process.library.snapshot_factory snapshot
      → (make_driver dialer process cfg ipfs im s).0 ≡ ok d
      → IsOver process.library kube snapshot d
  unfolding make_driver get_pv_lister
  make_driver-IsOver cfg ipfs im kube snapshot s d core content h =
      let made = new_driver-ok cfg ipfs _ _ process.host d (map_error-ok _ (fatal no_driver) d h) in
      record {
        volumes = made.0 ∙ ap (λ f. pv_store (process.library.volume_lister f)) core;
        snapshots =
            made.1
            ∙ ap snapshot_store_of (get_vsc_lister-over process.library im)
            ∙ ap (λ f. snapshot_store_of (content_lister_over process.library f)) content
            ∙ ap snapshot_store_of (content_lister-factory process.library snapshot);
      }

  pub equip_ok :
      (cfg : Config) (ipfs : IpfsClient (Session V H)) (kube : Ref) (snapshot : Option Ref)
      (s : State (Session V H)) (d : Driver (Session V H))
      → (equip dialer process cfg ipfs kube snapshot s).0 ≡ ok d
      → ((equip dialer process cfg ipfs kube snapshot s).1.events
          ≡ map at_cluster (informed process.library kube snapshot) ++ s.events)
        × IsOver process.library kube snapshot d
  unfolding equip make_driver
  equip_ok cfg ipfs kube snapshot s d h =
      let lib = process.library in
      let (im, ran, made, e) =
        bind-ok (with_manager (new_informer_manager lib kube snapshot) (start_informers lib))
          (make_driver dialer process cfg ipfs) s d h in
      let (done, kept) =
        answering-ok (start_informers lib (fresh lib kube snapshot s.world)).0 _ im ran in
      let keeps = start_informers_keeps lib kube snapshot s.world done in
      (
        ap (λ (r : Result Exit _ × State _). r.1.events) e
            ∙ ap (λ es. map at_cluster es ++ s.events)
                (start_informers_ok lib kube snapshot s.world done),
        make_driver-IsOver cfg ipfs im kube snapshot
            (with_manager (new_informer_manager lib kube snapshot) (start_informers lib) s).1 d
            (ap (λ (m : InformerManager). m.core_informer_factory) (sym kept) ∙ keeps.0)
            (ap (λ (m : InformerManager). m.snapshot_informer_factory) (sym kept) ∙ keeps.1) made,
      )
