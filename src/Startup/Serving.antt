-- ===== src/Startup/Serving.antt =====
-- What a process that serves has gone through.
use csi_driver_ipfs.Base.{
  ◌≡◌, true, Option, none, some, List, [], ◌∷◌, ◌++◌, map, ok, arith, if◌then◌else◌,
}
use csi_driver_ipfs.Ipfs.Kubo.{Session}
use csi_driver_ipfs.Ipfs.Dial.{Dialer}
use csi_driver_ipfs.Kubernetes.{
  Ref, RestConfig, Library, core_made, snapshot_made, discovered, get_kube_config, new_kube_client,
  new_snapshot_client, is_volume_snapshot_api_available, sync_awaited, handler_added,
  informer_requested, factory_started,
}
use csi_driver_ipfs.Kubernetes
use csi_driver_ipfs.Kubernetes.Informers.{
  factory_of, new_informer_manager, add_pv_listener, add_vsc_listener, start,
}
use csi_driver_ipfs.Kubernetes.Informers
use csi_driver_ipfs.Endpoint.{parse_listen_address}
use csi_driver_ipfs.Endpoint
use csi_driver_ipfs.Driver.{Driver}
use csi_driver_ipfs.Startup.{
  State, Server, Event, at_endpoint, listened, registered, serving, node_service, identity_service,
  controller_service, reflection_service, Process, Flags,
}
use csi_driver_ipfs.Startup.Steps.{start_informers, serve}

module _ {W : Type 0} (lib : Library W) (kube : Ref) where
  abbrev pub volumes : Ref
  volumes = lib.volume_informer (lib.core_factory kube)

  abbrev pub contents : Ref → Ref
  contents client = lib.content_informer (lib.snapshot_factory client)

  abbrev pub fresh : Option Ref → W → Informers.State W
  fresh snapshot w = record {
    manager = new_informer_manager lib kube snapshot;
    outside = record { events = []; world = w };
  }

  -- The calls by which the informers were made, heard and started, the last one first.
  abbrev pub informed : Option Ref → List Kubernetes.Event
  informed none =
      sync_awaited (volumes ∷ []) true
      ∷ factory_started (lib.core_factory kube)
      ∷ handler_added volumes (ok tt)
      ∷ informer_requested (lib.core_factory kube) volumes
      ∷ []
  informed (some client) =
      sync_awaited (volumes ∷ contents client ∷ []) true
      ∷ factory_started (lib.snapshot_factory client)
      ∷ factory_started (lib.core_factory kube)
      ∷ handler_added (contents client) (ok tt)
      ∷ informer_requested (lib.snapshot_factory client) (contents client)
      ∷ handler_added volumes (ok tt)
      ∷ informer_requested (lib.core_factory kube) volumes
      ∷ []

  pub start_informers_ok :
      (snapshot : Option Ref) (w : W)
      → (start_informers lib (fresh snapshot w)).0 ≡ ok tt
      → (start_informers lib (fresh snapshot w)).1.outside.events ≡ informed snapshot
  unfolding start_informers new_informer_manager add_pv_listener add_vsc_listener start
  start_informers_ok none w h = ground arith
  start_informers_ok (some client) w h = ground arith

  pub start_informers_keeps :
      (snapshot : Option Ref) (w : W)
      → (start_informers lib (fresh snapshot w)).0 ≡ ok tt
      → ((start_informers lib (fresh snapshot w)).1.manager.core_informer_factory
          ≡ lib.core_factory kube)
        × ((start_informers lib (fresh snapshot w)).1.manager.snapshot_informer_factory
            ≡ factory_of lib.snapshot_factory snapshot)
  unfolding start_informers new_informer_manager add_pv_listener add_vsc_listener start
  start_informers_keeps none w h = ground arith
  start_informers_keeps (some client) w h = ground arith

-- The calls of a server that was set up, the last one first.
abbrev pub served : {W : Type 0} → Flags → Server W → List Event
served flags server =
    serving server.scheme server.addr
      ∷ registered node_service
      ∷ registered controller_service
      ∷ registered identity_service
      ∷ (if flags.grpc_reflect then registered reflection_service ∷ [] else [])
    ++ listened server.scheme server.addr (ok tt) ∷ []

module _ {M V H : Type 0} (dialer : Dialer M V H) (process : Process (Session V H))
    (flags : Flags) where
  pub serve_ok :
      (d : Driver (Session V H)) (s : State (Session V H)) (server : Server (Session V H))
      → (serve dialer process flags d s).0 ≡ ok server
      → (server.driver ≡ d)
        × (parsed : List Endpoint.Event) × ((serve dialer process flags d s).1.events
            ≡ served flags server ++ map at_endpoint parsed ++ s.events)
  unfolding serve
  serve_ok d s server h =
      let looked =
        (parse_listen_address process.endpoint flags.endpoint
          (record { events = []; world = s.world })) in
      (ground arith, looked.1.events, ground arith)
