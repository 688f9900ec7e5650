-- ===== src/Startup/Exits.antt =====
-- What a process that exits has not done.
use csi_driver_ipfs.Base.{
  ◌≡◌, refl, sym, ◌∙◌, Bool, true, false, Option, List, [], ◌∷◌, ◌++◌, map, err, Bool-cases,
  Result-cases, err_ne_ok, inl, inr, arith, if◌then◌else◌,
}
use csi_driver_ipfs.Base.Exec.{fail, bind-keeps, bind-fails}
use csi_driver_ipfs.Driver.{Config, Driver, IpfsClient}
use csi_driver_ipfs.Ipfs.Kubo.{Session}
use csi_driver_ipfs.Ipfs.Dial.{Dialer, new_client}
use csi_driver_ipfs.Kubernetes
use csi_driver_ipfs.Kubernetes.{Ref, get_kube_config}
use csi_driver_ipfs.Kubernetes.Informers.{new_informer_manager}
use csi_driver_ipfs.Endpoint
use csi_driver_ipfs.Endpoint.{parse_listen_address}
use csi_driver_ipfs.Startup.{
  Flags, Exit, no_ipfs_client, version_printed, Event, hostname_read, at_cluster, at_endpoint,
  listened, registered, serving, stopped, State, Process, config_of, address, call, cluster,
  with_manager, no_kube_config, no_core_client, no_listener,
}
use csi_driver_ipfs.Startup.Steps.{
  choose_node_id, lift, make_driver, make_clients, start_informers, serve, connect, equip, assemble,
  launch, start_up, run,
}

-- The services that are registered, the start of the server and its stop.
abbrev pub served_events : List Event → List Event
served_events [] = []
served_events (hostname_read r ∷ events) = served_events events
served_events (at_cluster c ∷ events) = served_events events
served_events (at_endpoint c ∷ events) = served_events events
served_events (listened s a r ∷ events) = served_events events
served_events (registered s ∷ events) = registered s ∷ served_events events
served_events (serving s a ∷ events) = serving s a ∷ served_events events
served_events (stopped ∷ events) = stopped ∷ served_events events

served-cluster :
    (calls : List Kubernetes.Event) (events : List Event)
    → served_events (map at_cluster calls ++ events) ≡ served_events events
served-cluster [] events = refl
served-cluster (c ∷ calls) events = served-cluster calls events

served-endpoint :
    (calls : List Endpoint.Event) (events : List Event)
    → served_events (map at_endpoint calls ++ events) ≡ served_events events
served-endpoint [] events = refl
served-endpoint (c ∷ calls) events = served-endpoint calls events

module _ {M V H : Type 0} (dialer : Dialer M V H) (process : Process (Session V H)) (flags : Flags)
    (exit : Exit) where
  abbrev view : State (Session V H) → List Event
  view s = served_events s.events

  cluster-keeps :
      {A : Type 0} (part : Kubernetes.Part (Session V H) A) (e : Exit) (s : State (Session V H))
      → view (cluster part e s).1 ≡ view s
  cluster-keeps part e s =
      served-cluster (part (record { events = []; world = s.world })).1.events s.events

  choose_node_id-keeps :
      (s : State (Session V H)) → view (choose_node_id dialer process flags.node_id s).1 ≡ view s
  unfolding choose_node_id
  choose_node_id-keeps s = ground arith

  connect-keeps : (s : State (Session V H)) → view (connect dialer process flags s).1 ≡ view s
  unfolding connect
  connect-keeps s =
      bind-keeps view (cluster (get_kube_config process.library flags.kube_config) no_kube_config) _
        s (cluster-keeps (get_kube_config process.library flags.kube_config) no_kube_config s)
        (λ config t. cluster-keeps (make_clients dialer process flags config) no_core_client t)

  equip-keeps :
      (config : Config) (ipfs : IpfsClient (Session V H)) (kube : Ref) (snapshot : Option Ref)
      (s : State (Session V H))
      → view (equip dialer process config ipfs kube snapshot s).1 ≡ view s
  unfolding equip make_driver
  equip-keeps config ipfs kube snapshot s =
      bind-keeps view
        (with_manager (new_informer_manager process.library kube snapshot)
          (start_informers process.library))
        _ s
        (served-cluster
          (start_informers process.library (record {
            manager = new_informer_manager process.library kube snapshot;
            outside = record { events = []; world = s.world };
          })).1.outside.events
          s.events)
        (λ im t. refl)

  serve-fails :
      (driver : Driver (Session V H)) (s : State (Session V H))
      → (serve dialer process flags driver s).0 ≡ err exit
      → view (serve dialer process flags driver s).1 ≡ view s
  unfolding serve
  serve-fails driver s h =
      bind-fails view exit (address (parse_listen_address process.endpoint flags.endpoint)) _ s
        (served-endpoint
          (parse_listen_address process.endpoint flags.endpoint
            (record { events = []; world = s.world })).1.events
          s.events)
        (λ at t fails.
          bind-fails view exit (call (process.listen at.0 at.1) (listened at.0 at.1) no_listener) _
            t refl
            (λ u v more. elim (Bool-cases flags.grpc_reflect) [
              | inl on ↦ absurd (err_ne_ok (sym (rw on at more)))
              | inr off ↦ absurd (err_ne_ok (sym (rw off at more)))
            ])
            fails)
        h

  assemble-fails :
      (config : Config) (ipfs : IpfsClient (Session V H)) (s : State (Session V H))
      → (assemble dialer process flags config ipfs s).0 ≡ err exit
      → view (assemble dialer process flags config ipfs s).1 ≡ view s
  unfolding assemble
  assemble-fails config ipfs s h =
      bind-fails view exit (connect dialer process flags) _ s (connect-keeps s)
        (λ clients t fails.
          bind-fails view exit (equip dialer process config ipfs clients.0 clients.1) _ t
            (equip-keeps config ipfs clients.0 clients.1 t)
            (λ driver u more. serve-fails driver u more) fails)
        h

  launch-fails :
      (s : State (Session V H))
      → (launch dialer process flags s).0 ≡ err exit
      → view (launch dialer process flags s).1 ≡ view s
  unfolding launch
  launch-fails s h =
      bind-fails view exit (choose_node_id dialer process flags.node_id) _ s
        (choose_node_id-keeps s)
        (λ id t fails.
          bind-fails view exit
            (lift dialer process (new_client dialer flags.ipfs_api) no_ipfs_client) _ t refl
            (λ ipfs u more. assemble-fails (config_of flags id) ipfs u more) fails)
        h

  begun-fails :
      (printed : Bool) (s : State (Session V H))
      → ((if printed then fail version_printed else launch dialer process flags) s).0 ≡ err exit
      → view ((if printed then fail version_printed else launch dialer process flags) s).1 ≡ view s
  begun-fails true s h = refl
  begun-fails false s h = launch-fails s h

  start_up-fails :
      (s : State (Session V H))
      → (start_up dialer process flags s).0 ≡ err exit
      → view (start_up dialer process flags s).1 ≡ view s
  unfolding start_up
  start_up-fails s h = begun-fails flags.version s h

  -- A process that exits, because the version was asked for or at whichever step: it has registered
  -- no service and not begun to serve.
  pub run_exits :
      (s : State (Session V H))
      → (run dialer process flags s).0 ≡ err exit
      → served_events (run dialer process flags s).1.events ≡ served_events s.events
  unfolding run
  run_exits s h = elim (Result-cases (start_up dialer process flags s).0) [
    | inl (server, serves) ↦ absurd (err_ne_ok (sym (rw serves at h)))
    | inr (e, fails) ↦ rw fails (start_up-fails s (fails ∙ rw fails at h))
  ]
