-- ===== src/Startup/Connected.antt =====
-- The clients of the cluster that a process has made, and whether it uses the snapshot client.
use mathlib.Core.Path.{subst}
use csi_driver_ipfs.Base.{
  arith, ◌≡◌, refl, ap, ◌∙◌, inl, inr, Option, none, some, List, [], ◌∷◌, ◌++◌, map, Result, ok,
  err, Result-cases,
}
use csi_driver_ipfs.Base.Exec.{return, ◌>>=◌, bind-ok, map_error-ok}
use csi_driver_ipfs.Errors.{Error, wrapped}
use csi_driver_ipfs.Ipfs.Kubo.{Session}
use csi_driver_ipfs.Ipfs.Dial.{Dialer}
use csi_driver_ipfs.Kubernetes.{
  Ref, RestConfig, Library, configured, core_made, snapshot_made, discovered, snapshot_api,
  get_kube_config, new_kube_client, new_snapshot_client, is_volume_snapshot_api_available,
}
use csi_driver_ipfs.Kubernetes
use csi_driver_ipfs.Startup.{
  State, Exit, at_cluster, no_kube_config, no_core_client, fatal, cluster, Process, Flags,
}
use csi_driver_ipfs.Startup.Steps.{make_clients, choose_snapshot_client, connect}

-- How the choice of the snapshot client went: the calls after those `before` it, the last one first,
-- and the client that is used. It is used exactly where it could be made, a core client for the
-- discovery too, and the discovery has found the snapshot API.
pub data Chosen (config : RestConfig) (before : List Kubernetes.Event)
    : Option Ref → List Kubernetes.Event → Type 0 where
  no_client : (e : Error) → Chosen config before none (snapshot_made config (err e) ∷ before)
  no_core :
      (client : Ref) (e : Error)
      → Chosen config before none
          (core_made config (err e) ∷ snapshot_made config (ok client) ∷ before)
  no_api :
      (client core : Ref) (e : Error)
      → Chosen config before none (
          discovered core snapshot_api (err e)
          ∷ core_made config (ok core)
          ∷ snapshot_made config (ok client)
          ∷ before)
  has_api :
      (client core : Ref)
      → Chosen config before (some client) (
          discovered core snapshot_api (ok tt)
          ∷ core_made config (ok core)
          ∷ snapshot_made config (ok client)
          ∷ before)

choose_snapshot_client-Chosen :
    {W : Type 0} (lib : Library W) (config : RestConfig) (s : Kubernetes.State W)
    → (snapshot : Option Ref) × ((choose_snapshot_client lib config s).0 ≡ ok snapshot)
      × Chosen config s.events snapshot (choose_snapshot_client lib config s).1.events
unfolding choose_snapshot_client new_snapshot_client is_volume_snapshot_api_available
choose_snapshot_client-Chosen lib config s =
    let w₁ = (lib.snapshot_client config s.world).1 in
    let w₂ = (lib.core_client config w₁).1 in
    elim (Result-cases (lib.snapshot_client config s.world).0) [
      | inr (e, fails) ↦ (none, rw fails refl, rw fails (no_client e))
      | inl (client, made) ↦ elim (Result-cases (lib.core_client config w₁).0) [
        | inr (e, fails) ↦ (none, rw (made, fails) refl, rw (made, fails) (no_core client e))
        | inl (core, linked) ↦ elim (Result-cases (lib.server_resources core snapshot_api w₂).0) [
          | inr (e, fails) ↦
              (none, rw (made, linked, fails) refl, rw (made, linked, fails) (no_api client core e))
          | inl (u, found) ↦ (
            some client,
            rw (made, linked, found) refl,
            rw (made, linked, found) (has_api client core),
          )
        ]
      ]
    ]

module _ {M V H : Type 0} (dialer : Dialer M V H) (process : Process (Session V H))
    (flags : Flags) where
  -- The configuration with the limits of the flags.
  abbrev pub limited : RestConfig → RestConfig
  limited config = record config {
    qps = process.to_float32 flags.kube_qps;
    burst = flags.kube_burst;
  }

  make_clients-Chosen :
      (config : RestConfig) (s : Kubernetes.State (Session V H)) (kube : Ref)
      (snapshot : Option Ref)
      → (make_clients dialer process flags config s).0 ≡ ok (kube, snapshot)
      → Chosen
          (limited config)
          (core_made (limited config) (ok kube) ∷ s.events)
          snapshot
          (make_clients dialer process flags config s).1.events
  unfolding make_clients new_kube_client
  make_clients-Chosen config s kube snapshot h =
      let chosen = choose_snapshot_client process.library (limited config) in
      let (k, made, rest, first) =
        bind-ok (new_kube_client process.library (limited config))
          (λ k. chosen >>= λ c. return (k, c)) s (kube, snapshot) h in
      let t = (new_kube_client process.library (limited config) s).1 in
      let (c, found, done, second) = bind-ok chosen (λ c. return (k, c)) t (kube, snapshot) rest in
      let (o, is, chose) = choose_snapshot_client-Chosen process.library (limited config) t in
      let same_kube : k ≡ kube = cc done in
      let same : o ≡ snapshot = cc (is, found, done) in
      let answer : (process.library.core_client (limited config) s.world).0 ≡ ok kube =
        map_error-ok _ wrapped k made ∙ ap ok same_kube in
      rw (ap (λ r. r.1.events) first ∙ ap (λ r. r.1.events) second) (
        subst
          (λ x.
            Chosen (limited config) (core_made (limited config) (ok kube) ∷ s.events) x
              (chosen t).1.events)
          same
          (subst
            (λ r.
              Chosen (limited config) (core_made (limited config) r ∷ s.events) o
                (chosen t).1.events)
            answer chose))

  config_read :
      (s : State (Session V H)) (config : RestConfig)
      → (get_kube_config process.library flags.kube_config
          (record { events = []; world = s.world })).0
        ≡ ok config
      → (cluster (get_kube_config process.library flags.kube_config) no_kube_config s).1.events
        ≡ at_cluster (configured flags.kube_config (ok config)) ∷ s.events
  unfolding get_kube_config
  config_read s config h = ground arith

  -- The clients were made: the configuration was read, the core client was made from it, and the
  -- snapshot client was chosen.
  pub connect-Chosen :
      (s : State (Session V H)) (kube : Ref) (snapshot : Option Ref)
      → (connect dialer process flags s).0 ≡ ok (kube, snapshot)
      → (config : RestConfig) × (chosen : List Kubernetes.Event) × Chosen
          (limited config)
          (core_made (limited config) (ok kube) ∷ [])
          snapshot
          chosen
        × ((connect dialer process flags s).1.events
            ≡ map at_cluster chosen
              ++ at_cluster (configured flags.kube_config (ok config)) ∷ s.events)
  unfolding connect
  connect-Chosen s kube snapshot h =
      let (config, read, rest, first) =
        bind-ok (cluster (get_kube_config process.library flags.kube_config) no_kube_config)
          (λ config. cluster (make_clients dialer process flags config) no_core_client) s
          (kube, snapshot) h in
      let t = (cluster (get_kube_config process.library flags.kube_config) no_kube_config s).1 in
      let clients =
        make_clients dialer process flags config (record { events = []; world = t.world }) in
      (
        config,
        clients.1.events,
        make_clients-Chosen config (record { events = []; world = t.world }) kube snapshot
            (map_error-ok _ (fatal no_core_client) _ rest),
        ap (λ (r : Result Exit _ × State _). r.1.events) first
            ∙ ap (λ es. map at_cluster clients.1.events ++ es)
                (config_read s config (map_error-ok _ (fatal no_kube_config) config read)),
      )
