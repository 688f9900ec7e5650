-- ===== src/Startup.antt =====
-- `main` of cmd/csi-driver-ipfs/main.go, from the parsed flags on. Log output, the registration of
-- metrics and the failure of a server that already serves are left out. Steps has what runs.
pub mod Steps
pub mod Serving
pub mod Connected
pub mod Equipped
pub mod Ready
pub mod Exits
use csi_driver_ipfs.Base.{
  ℕ, Bool, true, false, Option, none, some, List, [], ◌∷◌, ◌++◌, map, Result, ok, err,
  if◌then◌else◌,
}
use csi_driver_ipfs.Base.Int.{ℤ}
use csi_driver_ipfs.Base.Exec.{Exec, return, fail, ◌>>=◌, ◌>>◌, map_error, or_else, attempt}
use csi_driver_ipfs.Text.{Text, is_empty}
use csi_driver_ipfs.Errors.{Error, Op}
use csi_driver_ipfs.Store.{VolumeStore, SnapshotStore}
use csi_driver_ipfs.Store.Volumes.{pv_store}
use csi_driver_ipfs.Store.Snapshots.{vsc_store}
use csi_driver_ipfs.Store.Snapshots
use csi_driver_ipfs.Driver.{Config, Driver, Host, IpfsClient, new_driver}
use csi_driver_ipfs.Ipfs.Kubo.{Session}
use csi_driver_ipfs.Ipfs.Dial.{Dialer, new_client}
use csi_driver_ipfs.Kubernetes.{
  Ref, RestConfig, Handlers, Library, get_kube_config, new_kube_client, new_snapshot_client,
  is_volume_snapshot_api_available,
}
use csi_driver_ipfs.Kubernetes
use csi_driver_ipfs.Kubernetes.Informers.{
  InformerManager, new_informer_manager, add_pv_listener, add_vsc_listener, get_pv_lister,
  get_vsc_lister, start,
}
use csi_driver_ipfs.Kubernetes.Informers
use csi_driver_ipfs.Endpoint.{parse_listen_address}
use csi_driver_ipfs.Endpoint

-- The flags, and the version that the build has set. `kube_qps` is a float64, as its bits.
pub record Flags : Type 0 where
  pub endpoint : Text
  pub node_id : Text
  pub ipfs_api : Text
  pub ipfs_mfs_root : Text
  pub driver_name : Text
  pub mount_dir : Text
  pub grpc_reflect : Bool
  pub pin_failure : Text
  pub version : Bool
  pub kube_config : Text
  pub kube_qps : ℕ
  pub kube_burst : ℤ
  pub driver_version : Text

-- Why the process exits before it serves: the version was printed, or a step was fatal.
pub data Exit : Type 0 where
  version_printed hostname_unknown no_ipfs_client no_kube_config no_core_client : Exit
  no_volume_listener no_content_listener no_informers no_driver bad_endpoint no_listener : Exit

pub data Service : Type 0 where
  reflection_service identity_service controller_service node_service : Service

pub data Event : Type 0 where
  hostname_read : Result Error Text → Event
  at_cluster : Kubernetes.Event → Event
  at_endpoint : Endpoint.Event → Event
  listened : Text → Text → Result Error Unit → Event
  registered : Service → Event
  serving : Text → Text → Event
  stopped : Event

pub record State (W : Type 0) : Type 0 where
  pub events : List Event
  pub world : W

-- What the process takes from the operating system, besides the library of the cluster. `wait_done`
-- is the wait for a signal, and `to_float32` Go's conversion.
pub record Process (W : Type 0) : Type 0 where
  pub hostname : Op W Text
  pub listen : Text → Text → Op W Unit
  pub wait_done : W → W
  pub to_float32 : ℕ → ℕ
  pub endpoint : Endpoint.System W
  pub host : Host W
  pub library : Library W

pub record Server (W : Type 0) : Type 0 where
  pub driver : Driver W
  pub scheme : Text
  pub addr : Text

abbrev pub Part : Type 0 → Type 0 → Type 0
Part W A = Exec (State W) Exit A

abbrev pub fatal : {A : Type 0} → Exit → A → Exit
fatal exit e = exit

abbrev pub answering : {A B : Type 0} → Result Exit A → B → Result Exit B
answering (ok a) b = ok b
answering (err exit) b = err exit

module _ {W : Type 0} where
  abbrev pub call : {A : Type 0} → Op W A → (Result Error A → Event) → Exit → Part W A
  call op event exit s = (
    map_error (fatal exit) (op s.world).0,
    record { events = event (op s.world).0 ∷ s.events; world = (op s.world).1 },
  )

  abbrev pub note : Event → Part W Unit
  note event s = (ok tt, record s { events = event ∷ s.events })

  -- A call of this repository's packages, whose own calls come after those so far.
  abbrev pub cluster : {A : Type 0} → Kubernetes.Part W A → Exit → Part W A
  cluster part exit s =
      let answer = part (record { events = []; world = s.world }) in
      (
        map_error (fatal exit) answer.0,
        record { events = map at_cluster answer.1.events ++ s.events; world = answer.1.world },
      )

  abbrev pub address : Endpoint.Part W (Text × Text) → Part W (Text × Text)
  address part s =
      let answer = part (record { events = []; world = s.world }) in
      (
        map_error (fatal bad_endpoint) answer.0,
        record { events = map at_endpoint answer.1.events ++ s.events; world = answer.1.world },
      )

  -- A use of the informer manager, which is returned as it is afterwards.
  abbrev pub with_manager :
      InformerManager → Exec (Informers.State W) Exit Unit → Part W InformerManager
  with_manager im part s =
      let answer =
        part (record { manager = im; outside = record { events = []; world = s.world } }) in
      (
        answering answer.0 answer.1.manager,
        record {
          events = map at_cluster answer.1.outside.events ++ s.events;
          world = answer.1.outside.world;
        },
      )

  -- noopCreate, noopUpdate and noopRemove
  abbrev pub noop : Handlers W
  noop = record { add = λ o w. w; update = λ o n w. w; remove = λ o w. w }

  -- NewSnapshotStoreFromVSCLister, whose result is nil for a nil lister.
  abbrev pub snapshot_store_of : Option (Snapshots.Lister W) → Option (SnapshotStore W)
  snapshot_store_of none = none
  snapshot_store_of (some lister) = some (vsc_store lister)

  abbrev pub register_reflection : Bool → Part W Unit
  register_reflection reflect = if reflect then note (registered reflection_service) else return tt

abbrev pub config_of : Flags → Text → Config
config_of flags node_id = record {
  driver_name = flags.driver_name;
  node_id = node_id;
  version = flags.driver_version;
  mount_dir = flags.mount_dir;
  mfs_root = flags.ipfs_mfs_root;
  pin_failure_policy = flags.pin_failure;
}
