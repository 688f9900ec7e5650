-- ===== src/Lifecycle/Restaged.antt =====
-- A volume that is unstaged on one node and staged on another, over one kubo.
use csi_driver_ipfs.Text.{Text}
use csi_driver_ipfs.Dict.{Dict}
use csi_driver_ipfs.Driver.{Driver, State}
use csi_driver_ipfs.Driver.Calls
use csi_driver_ipfs.Node.Content.{ensure_empty_directory}
use csi_driver_ipfs.Ipfs.Kubo.{Api, Session}
use csi_driver_ipfs.Ipfs.Service.{kubo_client}

-- The world in which a stage comes to fetch: the directory is made, and emptied.
abbrev pub ready : {W : Type 0} → Driver W → Text → State W → W
ready d dest s = (ensure_empty_directory d dest (Calls.mkdir_all d dest s).1).1.world

-- A driver over the kubo client.
abbrev pub over_kubo : {W H : Type 0} → Api W H → Driver (Session W H) → Driver (Session W H)
over_kubo k n = record n { ipfs = kubo_client k }
