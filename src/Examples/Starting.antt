-- ===== src/Examples/Starting.antt =====
-- The theorems on the start of the process, at an input: an API server that has the snapshot API.
use csi_driver_ipfs.Base.{◌≡◌, refl, true, false, none, some, List, [], ◌∷◌, ◌++◌, ok}
use csi_driver_ipfs.Base.Int.{pos}
use csi_driver_ipfs.Text.{Text, lit, text_eq}
use csi_driver_ipfs.Store.Volumes.{pv_store}
use csi_driver_ipfs.Store.Volumes
use csi_driver_ipfs.Store.Snapshots.{vsc_store}
use csi_driver_ipfs.Store.Snapshots
use csi_driver_ipfs.MfsPath.{clean, render, is_abs, join, elements, resolve, split, step}
use csi_driver_ipfs.Driver.{new_driver}
use csi_driver_ipfs.Ipfs.Kubo.{Session}
use csi_driver_ipfs.Ipfs.Dial.{Dialer, new_client}
use csi_driver_ipfs.Ipfs.Service.{kubo_client}
use csi_driver_ipfs.Kubernetes.{
  Ref, Library, get_kube_config, new_kube_client, new_snapshot_client,
  is_volume_snapshot_api_available,
}
use csi_driver_ipfs.Kubernetes
use csi_driver_ipfs.Kubernetes.Informers.{
  State, add_pv_listener, add_vsc_listener, start, new_informer_manager, get_pv_lister,
  get_vsc_lister,
}
use csi_driver_ipfs.Kubernetes.Informers.Sync.{
  requested, has, on_volumes, on_contents, register_all, created, started, awaited, start_awaits,
}
use csi_driver_ipfs.Endpoint.{
  parse_listen_address, listen_at, listen_unix, clear_socket, check_removed,
}
use csi_driver_ipfs.Startup.{Flags, Process, Server, Event, noop, at_cluster, at_endpoint, stopped}
use csi_driver_ipfs.Startup.Steps.{
  choose_node_id, choose_snapshot_client, make_clients, connect, start_informers, make_driver,
  equip, assemble, launch, serve, start_up, run,
}
use csi_driver_ipfs.Startup
use csi_driver_ipfs.Startup.Ready.{IsReady}
use csi_driver_ipfs.Startup.{Event}
use csi_driver_ipfs.Startup.Ready.{run_serves}
use csi_driver_ipfs.Startup.Exits.{served_events, run_exits}
use csi_driver_ipfs.Startup.{no_listener}
use csi_driver_ipfs.Base.{err, [], ◌≡◌}
use csi_driver_ipfs.Errors.{external}
use csi_driver_ipfs.Examples.{config, host, done}
use csi_driver_ipfs.Examples.Client.{api, session}
use csi_driver_ipfs.Examples.Listening.{system}

abbrev volume_lister : {W : Type 0} → Volumes.Lister W
volume_lister = record {
  get = λ name w. (ok (record { name = name; csi = none; storage = none }), w);
  list = λ w. (ok [], w);
}

abbrev content_lister : {W : Type 0} → Snapshots.Lister W
content_lister = record { list = λ w. (ok [], w) }

abbrev library : {W : Type 0} → Library W
library = record {
  build_config_from_flags = λ path w. (ok (record { access = 1; qps = 0; burst = pos 0 }), w);
  in_cluster_config = λ w. (ok (record { access = 2; qps = 0; burst = pos 0 }), w);
  core_client = λ config w. (ok 3, w);
  snapshot_client = λ config w. (ok 4, w);
  server_resources = λ client name. done;
  core_factory = λ client. 10;
  snapshot_factory = λ client. 20;
  volume_informer = λ factory. 11;
  content_informer = λ factory. 21;
  add_event_handler = λ informer handlers. done;
  start_factory = λ factory w. w;
  wait_for_cache_sync = λ syncs w. (true, w);
  volume_lister = λ factory. volume_lister;
  content_lister = λ factory. content_lister;
}

abbrev outside : Kubernetes.State Unit
outside = record { events = []; world = tt }

abbrev listening : State Unit
listening =
    register_all library (on_contents noop ∷ on_volumes noop ∷ on_contents noop ∷ [])
      (created library 3 (some 4) outside)

start_awaits_example :
    (syncs : List Ref) × ((start library listening).1.outside.events
      ≡ awaited syncs ++ started listening.manager ++ listening.outside.events)
    × ((i : Ref) → has i syncs ≡ has i (requested listening.outside.events))
unfolding start add_pv_listener add_vsc_listener new_informer_manager
start_awaits_example =
    start_awaits library 3 (some 4) outside
      (on_contents noop ∷ on_volumes noop ∷ on_contents noop ∷ []) listening refl refl refl

abbrev flags : Flags
flags = record {
  endpoint = lit "unix:///csi/csi.sock";
  node_id = [];
  ipfs_api = lit "/ip4/127.0.0.1/tcp/5001";
  ipfs_mfs_root = lit "/csi";
  driver_name = lit "ipfs.csi";
  mount_dir = lit "/mnt";
  grpc_reflect = true;
  pin_failure = [];
  version = false;
  kube_config = [];
  kube_qps = 50;
  kube_burst = pos 100;
  driver_version = lit "v1";
}

abbrev dialer : Dialer Unit Unit Text
dialer = record { new_multiaddr = λ address. ok tt; new_api = λ address. ok api }

abbrev process : Process (Session Unit Text)
process = record {
  hostname = λ w. (ok (lit "node"), w);
  listen = λ scheme addr. done;
  wait_done = λ w. w;
  to_float32 = λ bits. bits;
  endpoint = system;
  host = host;
  library = library;
}

abbrev server : Server (Session Unit Text)
server = record {
  driver = record {
    cfg = config (lit "/csi");
    ipfs = kubo_client api;
    volumes = pv_store volume_lister;
    snapshots = some (vsc_store content_lister);
    host = host;
  };
  scheme = lit "unix";
  addr = lit "/csi/csi.sock";
}

abbrev before_start : Startup.State (Session Unit Text)
before_start = record { events = []; world = session }

run_serves_example :
    (calls : List Event) × ((run dialer process flags before_start).1.events ≡ stopped ∷ calls)
    × IsReady dialer process flags server [] calls
unfolding run start_up launch assemble equip connect make_clients choose_node_id
    choose_snapshot_client start_informers make_driver serve new_client new_driver get_kube_config
    new_kube_client new_snapshot_client is_volume_snapshot_api_available new_informer_manager
    add_pv_listener add_vsc_listener get_pv_lister get_vsc_lister start parse_listen_address
    listen_at listen_unix clear_socket check_removed clean text_eq render is_abs join elements
    resolve split step
run_serves_example = run_serves dialer process flags before_start server refl

-- A system on which the socket is taken.
abbrev taken : Process (Session Unit Text)
taken = record process { listen = λ scheme addr w. (err (external (lit "address in use")), w) }

run_exits_example : served_events (run dialer taken flags before_start).1.events ≡ []
unfolding run start_up launch assemble equip connect make_clients choose_node_id
    choose_snapshot_client start_informers make_driver serve new_client new_driver get_kube_config
    new_kube_client new_snapshot_client is_volume_snapshot_api_available new_informer_manager
    add_pv_listener add_vsc_listener get_pv_lister get_vsc_lister start parse_listen_address
    listen_at listen_unix clear_socket check_removed clean text_eq render is_abs join elements
    resolve split step
run_exits_example = run_exits dialer taken flags no_listener before_start refl
