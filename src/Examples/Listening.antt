-- ===== src/Examples/Listening.antt =====
-- The theorem on the listen address, at an input.
use csi_driver_ipfs.Base.{true, [], ok, err}
use csi_driver_ipfs.Text.{lit}
use csi_driver_ipfs.Errors.{external}
use csi_driver_ipfs.Endpoint.{
  System, State, IsSafe, parse_listen_address, parse_listen_address-IsSafe,
}

abbrev pub system : {W : Type 0} → System W
system = record {
  parse_url =
      λ endpoint. ok (record { scheme = lit "unix"; path = lit "/csi/csi.sock"; host = [] });
  lstat = λ path w. (ok true, w);
  remove = λ path w. (err (external (lit "device busy")), w);
  is_not_exist = λ e. true;
}

abbrev fresh : State Unit
fresh = record { events = []; world = tt }

parse_listen_address-IsSafe_example :
    IsSafe (parse_listen_address system (lit "unix:///csi/csi.sock") fresh).1.events
parse_listen_address-IsSafe_example =
    parse_listen_address-IsSafe system (lit "unix:///csi/csi.sock") fresh tt
