-- ===== src/Ipfs/Service.antt =====
-- The client over kubo as the driver's interface, and what an unstage does through it.
use csi_driver_ipfs.Text.{Text}
use csi_driver_ipfs.Driver.{Driver, IpfsClient}
use csi_driver_ipfs.Ipfs
use csi_driver_ipfs.Ipfs.Kubo.{Api, Session}
use csi_driver_ipfs.Ipfs.Import.{import_to_mfs}

-- The interface Client, as the client implements it.
unfoldable pub kubo_client : {W H : Type 0} → Api W H → IpfsClient (Session W H)
kubo_client k = record {
  ping = Ipfs.ping k;
  stat_cid = Ipfs.stat_cid k;
  get_cid_content = Ipfs.get_cid_content k;
  pin_cid = Ipfs.pin_cid k;
  unpin_cid = Ipfs.unpin_cid k;
  mkdir_mfs = Ipfs.mkdir_mfs k;
  rm_mfs = Ipfs.rm_mfs k;
  export_mfs = Ipfs.export_mfs k;
  import_to_mfs = import_to_mfs k;
  resolve_mfs_cid = Ipfs.resolve_mfs_cid k;
  get_repo_stat = Ipfs.get_repo_stat k;
}
