-- ===== src/Kubernetes/Informers.antt =====
-- pkg/kubernetes/informers.go: the informer manager.

pub mod Sync
use csi_driver_ipfs.Base.{
  Bool, true, false, Option, none, some, List, [], ◌∷◌, ◌++◌, Result, ok, err, if◌then◌else◌,
}
use csi_driver_ipfs.Base.Exec.{Exec, return, fail, continue, ◌>>=◌, ◌>>◌, or_else}
use csi_driver_ipfs.Text.{lit}
use csi_driver_ipfs.Errors.{Error, external, wrapped}
use csi_driver_ipfs.Store.Volumes
use csi_driver_ipfs.Store.Snapshots
use csi_driver_ipfs.Kubernetes.{
  Ref, Handlers, Library, Event, informer_requested, handler_added, factory_started, sync_awaited,
}
use csi_driver_ipfs.Kubernetes

-- A nil pointer or function is `none`. A HasSynced function is the informer that it belongs to.
pub record InformerManager : Type 0 where
  pub kube_client : Ref
  pub snapshot_client : Option Ref
  pub core_informer_factory : Ref
  pub snapshot_informer_factory : Option Ref
  pub pv_informer : Option Ref
  pub pv_synced : Option Ref
  pub vsc_informer : Option Ref
  pub vsc_synced : Option Ref

-- The manager, and what is outside it.
pub record State (W : Type 0) : Type 0 where
  pub manager : InformerManager
  pub outside : Kubernetes.State W

abbrev pub Method : Type 0 → Type 0 → Type 0
Method W A = Exec (State W) Error A

module _ {W : Type 0} where
  abbrev pub outside : {A : Type 0} → Kubernetes.Part W A → Method W A
  outside part s = ((part s.outside).0, record s { outside = (part s.outside).1 })

  -- A call that cannot fail.
  abbrev pub note : Event → (W → W) → Method W Unit
  note event change s = (
    ok tt,
    record s {
      outside = record { events = event ∷ s.outside.events; world = change s.outside.world };
    },
  )

  -- An assignment to fields of the manager.
  abbrev pub assign : (InformerManager → InformerManager) → Method W Unit
  assign change s = (ok tt, record s { manager = change s.manager })

  abbrev pub manager : Method W InformerManager
  manager s = (ok s.manager, s)

abbrev pub factory_of : (Ref → Ref) → Option Ref → Option Ref
factory_of make none = none
factory_of make (some client) = some (make client)

-- `if im.pvSynced != nil { cacheSyncs = append(cacheSyncs, im.pvSynced) }`
abbrev pub append_if : Option Ref → List Ref → List Ref
append_if none syncs = syncs
append_if (some sync) syncs = syncs ++ sync ∷ []

-- cacheSyncs
abbrev pub cache_syncs : InformerManager → List Ref
cache_syncs im = append_if im.vsc_synced (append_if im.pv_synced [])

module _ {W : Type 0} (lib : Library W) where
  unfoldable pub new_informer_manager : Ref → Option Ref → InformerManager
  new_informer_manager kube_client snapshot_client = record {
    kube_client = kube_client;
    snapshot_client = snapshot_client;
    core_informer_factory = lib.core_factory kube_client;
    snapshot_informer_factory = factory_of lib.snapshot_factory snapshot_client;
    pv_informer = none;
    pv_synced = none;
    vsc_informer = none;
    vsc_synced = none;
  }

  -- `if im.pvInformer == nil`, which asks the factory for the informer.
  abbrev pub ensure : Option Ref → Ref → Ref → Method W Ref
  ensure (some informer) factory made = return informer
  ensure none factory made = do note (informer_requested factory made) (λ w. w); return made

  abbrev pub add_handler : Ref → Handlers W → Method W Unit
  add_handler informer handlers = outside (
      or_else (Kubernetes.call (lib.add_event_handler informer handlers) (handler_added informer))
        wrapped)

  unfoldable pub add_pv_listener : Handlers W → Method W Unit
  add_pv_listener handlers = do
    im ← manager
    informer ←
        ensure im.pv_informer im.core_informer_factory
          (lib.volume_informer im.core_informer_factory)
    assign (λ m. record m { pv_informer = some informer; pv_synced = some informer })
    add_handler informer handlers

  abbrev add_vsc_to : Option Ref → Handlers W → Method W Unit
  add_vsc_to none handlers = return tt
  add_vsc_to (some factory) handlers = do
    im ← manager
    informer ← ensure im.vsc_informer factory (lib.content_informer factory)
    assign (λ m. record m { vsc_informer = some informer; vsc_synced = some informer })
    add_handler informer handlers

  unfoldable pub add_vsc_listener : Handlers W → Method W Unit
  add_vsc_listener handlers = do im ← manager; add_vsc_to im.snapshot_informer_factory handlers

  unfoldable pub get_pv_lister : InformerManager → Volumes.Lister W
  get_pv_lister im = lib.volume_lister im.core_informer_factory

  unfoldable pub get_vsc_lister : InformerManager → Option (Snapshots.Lister W)
  get_vsc_lister im = elim im.snapshot_informer_factory [
    | none ↦ none
    | some factory ↦ some (lib.content_lister factory)
  ]

  abbrev pub start_one : Ref → Method W Unit
  start_one factory = note (factory_started factory) (lib.start_factory factory)

  abbrev pub start_if : Option Ref → Method W Unit
  start_if none = return tt
  start_if (some factory) = start_one factory

  -- cache.WaitForCacheSync
  abbrev pub await : List Ref → Method W Bool
  await syncs s =
      let answer = lib.wait_for_cache_sync syncs s.outside.world in
      (
        ok answer.0,
        record s {
          outside = record {
            events = sync_awaited syncs answer.0 ∷ s.outside.events;
            world = answer.1;
          };
        },
      )

  -- `if len(cacheSyncs) == 0 { return nil }`, and the wait.
  abbrev pub await_all : List Ref → Method W Unit
  await_all [] = return tt
  await_all (sync ∷ syncs) = do
    synced ← await (sync ∷ syncs)
    if synced then return tt else fail (external (lit "kubernetes informer cache sync incomplete"))

  unfoldable pub start : Method W Unit
  start = do
    im ← manager
    start_one im.core_informer_factory
    start_if im.snapshot_informer_factory
    await_all (cache_syncs im)
