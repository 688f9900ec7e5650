-- ===== src/Startup/Steps.antt =====
-- The steps of `main` of cmd/csi-driver-ipfs/main.go, in their order.
use csi_driver_ipfs.Base.{Bool, Option, none, some, ◌∷◌, Result, ok, err, if◌then◌else◌}
use csi_driver_ipfs.Base.Exec.{Exec, return, fail, ◌>>=◌, ◌>>◌, map_error, or_else, attempt}
use csi_driver_ipfs.Text.{Text, is_empty}
use csi_driver_ipfs.Errors.{Error}
use csi_driver_ipfs.Store.Volumes.{pv_store}
use csi_driver_ipfs.Driver.{Config, Driver, IpfsClient, new_driver}
use csi_driver_ipfs.Ipfs.Kubo.{Session}
use csi_driver_ipfs.Ipfs.Dial.{Dialer, new_client}
use csi_driver_ipfs.Kubernetes.{
  Ref, RestConfig, Handlers, Library, get_kube_config, new_kube_client, new_snapshot_client,
  is_volume_snapshot_api_available,
}
use csi_driver_ipfs.Kubernetes
use csi_driver_ipfs.Kubernetes.Informers.{
  InformerManager, new_informer_manager, add_pv_listener, add_vsc_listener, get_pv_lister,
  get_vsc_lister, start,
}
use csi_driver_ipfs.Kubernetes.Informers
use csi_driver_ipfs.Endpoint.{parse_listen_address}
use csi_driver_ipfs.Startup.{
  Flags, Exit, version_printed, hostname_unknown, no_ipfs_client, no_kube_config, no_core_client,
  no_volume_listener, no_content_listener, no_informers, no_driver, no_listener, hostname_read,
  listened, registered, serving, stopped, identity_service, controller_service, node_service,
  Process, Server, Part, fatal, call, note, cluster, address, with_manager, noop, snapshot_store_of,
  register_reflection, config_of,
}

abbrev pub use_if_available : Bool → Ref → Option Ref
use_if_available available client = if available then some client else none

module _ {W : Type 0} (lib : Library W) where
  abbrev usable : Result Error Ref → RestConfig → Kubernetes.Part W (Option Ref)
  usable (err e) config = return none
  usable (ok client) config = do
    available ← is_volume_snapshot_api_available lib config
    return (use_if_available available client)

  -- The snapshot client, which is dropped where the API is not registered.
  unfoldable pub choose_snapshot_client : RestConfig → Kubernetes.Part W (Option Ref)
  choose_snapshot_client config = do
    made ← attempt (new_snapshot_client lib config)
    usable made config

  unfoldable pub start_informers : Exec (Informers.State W) Exit Unit
  start_informers = do
    or_else (add_pv_listener lib noop) (fatal no_volume_listener)
    or_else (add_vsc_listener lib noop) (fatal no_content_listener)
    or_else (start lib) (fatal no_informers)

module _ {M V H : Type 0} (dialer : Dialer M V H) (process : Process (Session V H)) where
  -- `if *nodeID == ""`
  unfoldable pub choose_node_id : Text → Part (Session V H) Text
  choose_node_id id =
      if is_empty id then call process.hostname hostname_read hostname_unknown else return id

  abbrev pub lift : {E A : Type 0} → Result E A → Exit → Part (Session V H) A
  lift r exit s = (map_error (fatal exit) r, s)

  -- The stores over a started manager, and the driver over the stores.
  unfoldable pub make_driver :
      Config
      → IpfsClient (Session V H)
      → InformerManager
      → Part (Session V H) (Driver (Session V H))
  make_driver config ipfs im =
      lift
        (new_driver config ipfs (pv_store (get_pv_lister process.library im))
          (snapshot_store_of (get_vsc_lister process.library im)) process.host)
        no_driver

  -- The listener and the server on it.
  unfoldable pub serve : Flags → Driver (Session V H) → Part (Session V H) (Server (Session V H))
  serve flags driver = do
    at ← address (parse_listen_address process.endpoint flags.endpoint)
    call (process.listen at.0 at.1) (listened at.0 at.1) no_listener
    register_reflection flags.grpc_reflect
    note (registered identity_service)
    note (registered controller_service)
    note (registered node_service)
    note (serving at.0 at.1)
    return (record { driver = driver; scheme = at.0; addr = at.1 })

  -- The flags' limits, the core client, and the snapshot client if it is used.
  unfoldable pub make_clients :
      Flags → RestConfig → Kubernetes.Part (Session V H) (Ref × Option Ref)
  make_clients flags config = do
    let limited : RestConfig = record config {
      qps = process.to_float32 flags.kube_qps;
      burst = flags.kube_burst;
    }
    kube ← new_kube_client process.library limited
    snapshot ← choose_snapshot_client process.library limited
    return (kube, snapshot)

  unfoldable pub connect : Flags → Part (Session V H) (Ref × Option Ref)
  connect flags = do
    config ← cluster (get_kube_config process.library flags.kube_config) no_kube_config
    cluster (make_clients flags config) no_core_client

  -- The informers, and the driver over their listers.
  unfoldable pub equip :
      Config
      → IpfsClient (Session V H)
      → Ref
      → Option Ref
      → Part (Session V H) (Driver (Session V H))
  equip config ipfs kube snapshot = do
    im ←
        with_manager (new_informer_manager process.library kube snapshot)
          (start_informers process.library)
    make_driver config ipfs im

  -- From the clients of the cluster to the server.
  unfoldable pub assemble :
      Flags → Config → IpfsClient (Session V H) → Part (Session V H) (Server (Session V H))
  assemble flags config ipfs = do
    clients ← connect flags
    driver ← equip config ipfs clients.0 clients.1
    serve flags driver

  unfoldable pub launch : Flags → Part (Session V H) (Server (Session V H))
  launch flags = do
    node_id ← choose_node_id flags.node_id
    ipfs ← lift (new_client dialer flags.ipfs_api) no_ipfs_client
    assemble flags (config_of flags node_id) ipfs

  unfoldable pub start_up : Flags → Part (Session V H) (Server (Session V H))
  start_up flags = if flags.version then fail version_printed else launch flags

  -- `<-ctx.Done()` and the deferred stop.
  abbrev until_done : Part (Session V H) Unit
  until_done s = (ok tt, record { events = stopped ∷ s.events; world = process.wait_done s.world })

  unfoldable pub run : Flags → Part (Session V H) (Server (Session V H))
  run flags = do server ← start_up flags; until_done; return server
