-- ===== src/Kubernetes/Informers/Sync.antt =====
-- Which caches have synced when the manager has started.
use csi_driver_ipfs.Base.{
  ◌≡◌, refl, Bool, true, false, ◌||◌, Option, none, some, List, [], ◌∷◌, ◌++◌, ok, ◌==◌, arith, sym,
}
use csi_driver_ipfs.Kubernetes.{
  Ref, Handlers, Library, Event, informer_requested, handler_added, factory_started, sync_awaited,
}
use csi_driver_ipfs.Kubernetes
use csi_driver_ipfs.Kubernetes.Informers.{
  InformerManager, State, new_informer_manager, add_pv_listener, add_vsc_listener, cache_syncs,
  start,
}

-- The informers that were asked for.
abbrev pub requested : List Event → List Ref
requested [] = []
requested (informer_requested factory informer ∷ events) = informer ∷ requested events
requested (_ ∷ events) = requested events

abbrev pub has : Ref → List Ref → Bool
has i [] = false
has i (j ∷ refs) = i == j || has i refs

-- A registered function is that of the informer, and exactly the informers that were asked for are
-- waited for.
pub record IsWired {W : Type 0} (s : State W) : Type 0 where
  pub pv : s.manager.pv_synced ≡ s.manager.pv_informer
  pub vsc : s.manager.vsc_synced ≡ s.manager.vsc_informer
  pub asked : (i : Ref) → has i (requested s.outside.events) ≡ has i (cache_syncs s.manager)

-- A registration, whatever comes of it.
pub data Registration (W : Type 0) : Type 0 where
  on_volumes on_contents : Handlers W → Registration W

-- The calls that start the factories of a manager, the last one first.
abbrev pub started : InformerManager → List Event
started im = elim im.snapshot_informer_factory [
  | none ↦ factory_started im.core_informer_factory ∷ []
  | some factory ↦ factory_started factory ∷ factory_started im.core_informer_factory ∷ []
]

-- The wait for the caches, where there are any.
abbrev pub awaited : List Ref → List Event
awaited [] = []
awaited (sync ∷ syncs) = sync_awaited (sync ∷ syncs) true ∷ []

module _ {W : Type 0} (lib : Library W) where
  abbrev pub register : Registration W → State W → State W
  register (on_volumes handlers) s = (add_pv_listener lib handlers s).1
  register (on_contents handlers) s = (add_vsc_listener lib handlers s).1

  abbrev pub register_all : List (Registration W) → State W → State W
  register_all [] s = s
  register_all (r ∷ rs) s = register_all rs (register r s)

  -- The manager that NewInformerManager has made.
  abbrev pub created : Ref → Option Ref → Kubernetes.State W → State W
  created kube snapshot outside = record {
    manager = new_informer_manager lib kube snapshot;
    outside = outside;
  }

  created-IsWired :
      (kube : Ref) (snapshot : Option Ref) (outside : Kubernetes.State W)
      → requested outside.events ≡ []
      → IsWired (created kube snapshot outside)
  unfolding new_informer_manager
  created-IsWired kube snapshot outside e = record { pv = refl; vsc = refl; asked = λ i. rw e refl }

  register-IsWired : (r : Registration W) (s : State W) → IsWired s → IsWired (register r s)
  unfolding add_pv_listener add_vsc_listener
  register-IsWired (on_volumes handlers) s h = record {
    pv = ground (arith, h.pv);
    vsc = ground (arith, h.vsc);
    asked = λ i. ground (arith, h.pv, h.vsc, h.asked i);
  }
  register-IsWired (on_contents handlers) s h = record {
    pv = ground (arith, h.pv);
    vsc = ground (arith, h.vsc);
    asked = λ i. ground (arith, h.pv, h.vsc, h.asked i);
  }

  register_all-IsWired :
      (rs : List (Registration W)) (s : State W) → IsWired s → IsWired (register_all rs s)
  register_all-IsWired [] s h = h
  register_all-IsWired (r ∷ rs) s h =
      register_all-IsWired rs (register r s) (register-IsWired r s h)

  pub start_ok :
      (s : State W)
      → (start lib s).0 ≡ ok tt
      → (start lib s).1.outside.events
        ≡ awaited (cache_syncs s.manager) ++ started s.manager ++ s.outside.events
  unfolding start
  start_ok s h = ground arith

  -- A start of a manager that succeeds, after any registrations, those that failed among them: the
  -- factories were started, and after that the caches of exactly the informers that had been asked
  -- for were waited for, together, and all had synced.
  pub start_awaits :
      (kube : Ref) (snapshot : Option Ref) (outside : Kubernetes.State W)
      (rs : List (Registration W)) (s : State W)
      → requested outside.events ≡ []
      → s ≡ register_all rs (created kube snapshot outside)
      → (start lib s).0 ≡ ok tt
      → (syncs : List Ref) × ((start lib s).1.outside.events
          ≡ awaited syncs ++ started s.manager ++ s.outside.events)
        × ((i : Ref) → has i syncs ≡ has i (requested s.outside.events))
  start_awaits kube snapshot outside rs s none_yet reached h =
      let wired : IsWired s =
        rw reached (register_all-IsWired rs _ (created-IsWired kube snapshot outside none_yet)) in
      (cache_syncs s.manager, start_ok s h, λ i. sym (wired.asked i))
