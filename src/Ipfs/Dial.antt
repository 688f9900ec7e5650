-- ===== src/Ipfs/Dial.antt =====
-- `NewClient` of pkg/ipfs/client.go. `new_multiaddr` is multiaddr.NewMultiaddr, and `new_api`
-- rpc.NewApi, which makes the client and sends nothing yet.
use csi_driver_ipfs.Base.{Result, ok, err, if◌then◌else◌}
use csi_driver_ipfs.Text.{Text, lit, is_empty}
use csi_driver_ipfs.Errors.{Error, external, wrapped}
use csi_driver_ipfs.Driver.{IpfsClient}
use csi_driver_ipfs.Ipfs.Kubo.{Api, Session}
use csi_driver_ipfs.Ipfs.Service.{kubo_client}

pub record Dialer (M V H : Type 0) : Type 0 where
  pub new_multiaddr : Text → Result Error M
  pub new_api : M → Result Error (Api V H)

-- ErrEmptyAddress
abbrev pub empty_address : Error
empty_address = external (lit "IPFS API address is empty")

abbrev pub client_of :
    {V H : Type 0} → Result Error (Api V H) → Result Error (IpfsClient (Session V H))
client_of (ok api) = ok (kubo_client api)
client_of (err e) = err (wrapped e)

abbrev pub dial :
    {M V H : Type 0} → Dialer M V H → Result Error M → Result Error (IpfsClient (Session V H))
dial dialer (ok address) = client_of (dialer.new_api address)
dial dialer (err e) = err (wrapped e)

unfoldable pub new_client :
    {M V H : Type 0} → Dialer M V H → Text → Result Error (IpfsClient (Session V H))
new_client dialer address =
    if is_empty address then err empty_address else dial dialer (dialer.new_multiaddr address)
