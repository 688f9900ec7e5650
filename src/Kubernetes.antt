-- ===== src/Kubernetes.antt =====
-- pkg/kubernetes/kubernetes.go and snapshot_api.go: the clients of the cluster. Kubernetes' client
-- library is a parameter.
pub mod Informers
use csi_driver_ipfs.Base.{ℕ, Bool, true, false, List, ◌∷◌, Result, ok, err, if◌then◌else◌}
use csi_driver_ipfs.Base.Int.{ℤ}
use csi_driver_ipfs.Base.Exec.{Exec, return, ◌>>=◌, or_else, attempt}
use csi_driver_ipfs.Text.{Text, lit, is_empty}
use csi_driver_ipfs.Errors.{Error, wrapped, Op}
use csi_driver_ipfs.Store.Volumes
use csi_driver_ipfs.Store.Snapshots

-- An object of the library, behind a pointer or an interface.
abbrev pub Ref : Type 0
Ref = ℕ

-- The parts of a *rest.Config that the program sets. `qps` is a float32, as its bits.
pub record RestConfig : Type 0 where
  pub access : Ref
  pub qps : ℕ
  pub burst : ℤ

-- cache.ResourceEventHandlerFuncs, whose functions the informer runs.
pub record Handlers (W : Type 0) : Type 0 where
  pub add : Ref → W → W
  pub update : Ref → Ref → W → W
  pub remove : Ref → W → W

-- A factory is the one made for a client, an informer the one that the factory has for the resource;
-- the library makes it at the first request.
pub record Library (W : Type 0) : Type 0 where
  pub build_config_from_flags : Text → Op W RestConfig
  pub in_cluster_config : Op W RestConfig
  pub core_client : RestConfig → Op W Ref
  pub snapshot_client : RestConfig → Op W Ref
  pub server_resources : Ref → Text → Op W Unit
  pub core_factory : Ref → Ref
  pub snapshot_factory : Ref → Ref
  pub volume_informer : Ref → Ref
  pub content_informer : Ref → Ref
  pub add_event_handler : Ref → Handlers W → Op W Unit
  pub start_factory : Ref → W → W
  pub wait_for_cache_sync : List Ref → W → Bool × W
  pub volume_lister : Ref → Volumes.Lister W
  pub content_lister : Ref → Snapshots.Lister W

-- The calls of the library that start-up makes, each with what was answered.
pub data Event : Type 0 where
  configured : Text → Result Error RestConfig → Event
  core_made : RestConfig → Result Error Ref → Event
  snapshot_made : RestConfig → Result Error Ref → Event
  discovered : Ref → Text → Result Error Unit → Event
  informer_requested : Ref → Ref → Event
  handler_added : Ref → Result Error Unit → Event
  factory_started : Ref → Event
  sync_awaited : List Ref → Bool → Event

-- `events` lists the calls so far, the last one first.
pub record State (W : Type 0) : Type 0 where
  pub events : List Event
  pub world : W

abbrev pub Part : Type 0 → Type 0 → Type 0
Part W A = Exec (State W) Error A

abbrev pub call : {W A : Type 0} → Op W A → (Result Error A → Event) → Part W A
call op event s =
    ((op s.world).0, record { events = event (op s.world).0 ∷ s.events; world = (op s.world).1 })

-- "snapshot.storage.k8s.io/v1"
abbrev pub snapshot_api : Text
snapshot_api = lit "snapshot.storage.k8s.io/v1"

abbrev pub is_found : {A : Type 0} → Result Error A → Bool
is_found (ok a) = true
is_found (err e) = false

module _ {W : Type 0} (lib : Library W) where
  unfoldable pub get_kube_config : Text → Part W RestConfig
  get_kube_config path =
      if is_empty path
      then or_else (call lib.in_cluster_config (configured path)) wrapped
      else or_else (call (lib.build_config_from_flags path) (configured path)) wrapped

  unfoldable pub new_kube_client : RestConfig → Part W Ref
  new_kube_client config = or_else (call (lib.core_client config) (core_made config)) wrapped

  unfoldable pub new_snapshot_client : RestConfig → Part W Ref
  new_snapshot_client config =
      or_else (call (lib.snapshot_client config) (snapshot_made config)) wrapped

  -- The discovery over a client that could be made.
  abbrev discover : Result Error Ref → Part W Bool
  discover (err e) = return false
  discover (ok client) = do
    answer ←
        attempt (call (lib.server_resources client snapshot_api) (discovered client snapshot_api))
    return (is_found answer)

  unfoldable pub is_volume_snapshot_api_available : RestConfig → Part W Bool
  is_volume_snapshot_api_available config = do
    client ← attempt (call (lib.core_client config) (core_made config))
    discover client
