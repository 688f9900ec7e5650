-- ===== src/Identity.antt =====
-- pkg/driver/identity.go: the identity service.
use csi_driver_ipfs.Base.{
  ◌≡◌, refl, Bool, true, false, List, [], ◌∷◌, ◌∷◌, Result, ok, err, if◌then◌else◌,
}
use csi_driver_ipfs.Base.Exec.{return, fail, ◌>>=◌, attempt}
use csi_driver_ipfs.Text.{Text, is_empty}
use csi_driver_ipfs.Csi.{unavailable}
use csi_driver_ipfs.Errors.{Error}
use csi_driver_ipfs.Driver.{Driver, State, pinged}
use csi_driver_ipfs.Driver.Calls
use csi_driver_ipfs.Driver.Calls.{Method}

pub data PluginCapability : Type 0 where
  controller_service : PluginCapability

abbrev pub is_ok : Result Error Unit → Bool
is_ok (ok _) = true
is_ok (err _) = false

module _ {W : Type 0} (d : Driver W) where
  -- The name and the vendor version.
  unfoldable pub get_plugin_info : Method W (Text × Text)
  get_plugin_info =
      if is_empty d.cfg.driver_name
      then fail unavailable
      else return (d.cfg.driver_name, d.cfg.version)

  unfoldable pub get_plugin_capabilities : Method W (List PluginCapability)
  get_plugin_capabilities = return (controller_service ∷ [])

  -- Whether the driver is ready.
  unfoldable pub probe : Method W Bool
  probe = do answer ← attempt (Calls.ping d); return (is_ok answer)

  -- Probe never fails, and it makes one call, a ping; it answers ready where the ping succeeds, and
  -- not ready where it fails.
  pub probe_ready :
      (s : State W)
      → ((probe s).0 ≡ ok (is_ok (d.ipfs.ping s.world).0))
        × ((probe s).1.events ≡ pinged (d.ipfs.ping s.world).0 ∷ s.events)
        × ((probe s).1.locks ≡ s.locks)
  unfolding probe
  probe_ready s = (refl, refl, refl)
