-- ===== src/Startup/Ready.antt =====
-- A process that serves: over synced caches, and with the stores that the cluster has.
use csi_driver_ipfs.Base.{◌≡◌, ap, ◌∙◌, sym, List, ◌∷◌, ◌++◌, map, Result, ok, arith}
use mathlib.Core.List.{append_assoc}
use mathlib.Core.Path.{subst}
use csi_driver_ipfs.Base.Exec.{◌>>=◌, bind-ok}
use csi_driver_ipfs.Driver.{Config, IpfsClient}
use csi_driver_ipfs.Ipfs.Kubo.{Session}
use csi_driver_ipfs.Ipfs.Dial.{Dialer, new_client}
use csi_driver_ipfs.Kubernetes.{Ref, Library}
use csi_driver_ipfs.Kubernetes
use csi_driver_ipfs.Endpoint
use csi_driver_ipfs.Startup.{
  Flags, Process, Server, State, Event, Exit, at_cluster, at_endpoint, stopped, config_of,
  no_ipfs_client,
}
use csi_driver_ipfs.Startup.Steps.{
  choose_node_id, connect, serve, equip, assemble, launch, start_up, run, lift,
}
use csi_driver_ipfs.Startup.Equipped.{IsOver, equip_ok}
use csi_driver_ipfs.Startup.Serving.{informed, served, serve_ok}
use csi_driver_ipfs.Startup.Connected.{Chosen, limited, connect-Chosen}
use csi_driver_ipfs.Startup.{hostname_read}
use csi_driver_ipfs.Text.{Text, is_empty}
use csi_driver_ipfs.Kubernetes.{RestConfig, configured, core_made}
use csi_driver_ipfs.Base.{Option, [], if◌then◌else◌}

-- The calls of the steps, put together.
in_order :
    (connected_events equipped_events events set_up parsed heard connected before : List Event)
    → events ≡ set_up ++ parsed ++ equipped_events
    → equipped_events ≡ heard ++ connected_events
    → connected_events ≡ connected ++ before
    → events ≡ set_up ++ parsed ++ heard ++ connected ++ before
in_order c e s u p h n b hs he hc = rw (hs, he, hc) (simp append_assoc)

-- The calls until the node ID is there: the hostname is asked for where the flags have no ID.
abbrev pub identified : Flags → Text → List Event → List Event
identified flags hostname before =
    if is_empty flags.node_id then hostname_read (ok hostname) ∷ before else before

module _ {M V H : Type 0} (dialer : Dialer M V H) (process : Process (Session V H))
    (flags : Flags) where
  -- A process that has come to serve: all its calls after those `before` them, and what its driver
  -- stands on.
  pub record IsReady (server : Server (Session V H)) (before events : List Event) : Type 0 where
    pub hostname : Text
    pub config : RestConfig
    pub kube : Ref
    pub snapshot : Option Ref
    pub chosen : List Kubernetes.Event
    pub parsed : List Endpoint.Event
    pub choice :
        Chosen
          (limited dialer process flags config)
          (core_made (limited dialer process flags config) (ok kube) ∷ [])
          snapshot
          chosen
    pub calls :
        events
        ≡ served flags server
          ++ map at_endpoint parsed
          ++ map at_cluster (informed process.library kube snapshot)
          ++ map at_cluster chosen
          ++ at_cluster (configured flags.kube_config (ok config))
            ∷ identified flags hostname before
    pub over : IsOver process.library kube snapshot server.driver

  assemble-IsReady :
      (cfg : Config) (ipfs : IpfsClient (Session V H)) (hostname : Text) (before : List Event)
      (s : State (Session V H)) (server : Server (Session V H))
      → s.events ≡ identified flags hostname before
      → (assemble dialer process flags cfg ipfs s).0 ≡ ok server
      → IsReady server before (assemble dialer process flags cfg ipfs s).1.events
  unfolding assemble
  assemble-IsReady cfg ipfs hostname before s server known h =
      let ((kube, snapshot), linked, h1, e1) =
        bind-ok (connect dialer process flags)
          (λ clients.
            equip dialer process cfg ipfs clients.0 clients.1 >>= serve dialer process flags)
          s server h in
      let t = (connect dialer process flags s).1 in
      let (d, made, h2, e2) =
        bind-ok (equip dialer process cfg ipfs kube snapshot) (serve dialer process flags) t server
          h1 in
      let (config, chosen, choice, called) =
        connect-Chosen dialer process flags s kube snapshot linked in
      let (equipped, over) = equip_ok dialer process cfg ipfs kube snapshot t d made in
      let (same, parsed, set_up) = serve_ok dialer process flags d _ server h2 in
      record {
        hostname = hostname;
        config = config;
        kube = kube;
        snapshot = snapshot;
        chosen = chosen;
        parsed = parsed;
        choice = choice;
        calls =
            ap (λ (r : Result Exit _ × State _). r.1.events) (e1 ∙ e2)
            ∙ in_order t.events _ _ (served flags server) (map at_endpoint parsed) _
                (map at_cluster chosen) _ set_up equipped
                (called
                  ∙ ap
                      (λ es.
                        map at_cluster chosen
                        ++ at_cluster (configured flags.kube_config (ok config)) ∷ es)
                      known);
        over = subst (IsOver process.library kube snapshot) (sym same) over;
      }

  choose_node_id_ok :
      (s : State (Session V H)) (id : Text)
      → (choose_node_id dialer process flags.node_id s).0 ≡ ok id
      → (hostname : Text) × ((choose_node_id dialer process flags.node_id s).1.events
          ≡ identified flags hostname s.events)
  unfolding choose_node_id
  choose_node_id_ok s id h = (id, ground arith)

  launch-IsReady :
      (s : State (Session V H)) (server : Server (Session V H))
      → (launch dialer process flags s).0 ≡ ok server
      → IsReady server s.events (launch dialer process flags s).1.events
  unfolding launch
  launch-IsReady s server h =
      let (id, chose, h1, e1) =
        bind-ok (choose_node_id dialer process flags.node_id)
          (λ id.
            lift dialer process (new_client dialer flags.ipfs_api) no_ipfs_client
            >>= assemble dialer process flags (config_of flags id))
          s server h in
      let t = (choose_node_id dialer process flags.node_id s).1 in
      let (ipfs, _, h2, e2) =
        bind-ok (lift dialer process (new_client dialer flags.ipfs_api) no_ipfs_client)
          (assemble dialer process flags (config_of flags id)) t server h1 in
      let (hostname, known) = choose_node_id_ok s id chose in
      rw (e1 ∙ e2) (assemble-IsReady (config_of flags id) ipfs hostname s.events t server known h2)

  run-launch :
      (s : State (Session V H)) (server : Server (Session V H))
      → (run dialer process flags s).0 ≡ ok server
      → ((launch dialer process flags s).0 ≡ ok server)
        × ((run dialer process flags s).1.events
            ≡ stopped ∷ (launch dialer process flags s).1.events)
  unfolding run start_up
  run-launch s server h = ground arith

  -- A process that serves, whatever the cluster, IPFS and the system answered. It has made, in this
  -- order and with no other call of the cluster's library: the configuration, the core client, and
  -- the snapshot client, which it uses exactly where that could be made, a core client for the
  -- discovery too, and the discovery found the snapshot API. Then the informers of the volumes and,
  -- with a snapshot client that it uses, of the snapshot contents were heard and started, and the
  -- caches of all of them had synced together. The driver's volume store reads the volumes' lister,
  -- and it has a snapshot store, over the contents' lister, exactly where the snapshot client is
  -- used. After that the socket was opened, each of the three services was registered, and the
  -- process served until it was told to stop.
  pub run_serves :
      (s : State (Session V H)) (server : Server (Session V H))
      → (run dialer process flags s).0 ≡ ok server
      → (calls : List Event) × ((run dialer process flags s).1.events ≡ stopped ∷ calls)
        × IsReady server s.events calls
  run_serves s server h =
      let (launched, calls) = run-launch s server h in
      ((launch dialer process flags s).1.events, calls, launch-IsReady s server launched)
