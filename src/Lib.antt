-- ===== src/Lib.antt =====
-- The CSI driver that serves IPFS content as Kubernetes volumes (pkg/driver): its controller, node and
-- identity services, the volume locks, and the stores through which it reads the cluster.
--
-- The driver keeps one piece of state of its own, the set of volume locks. All else is outside: the
-- IPFS node (pkg/ipfs/client.go), the cluster, and the host's file system and mounts. A method is
-- therefore a function of a state that holds the locks, a world W that answers the calls and may
-- change with each, and the list of the calls made so far with their answers, the last one first
-- (Driver.State). The world and its operations are parameters (Driver.IpfsClient, Driver.Host,
-- Store.VolumeStore, Store.SnapshotStore), so that a theorem holds for any behaviour of IPFS, the
-- cluster and the host, every failure included. A method that fails keeps the state it has reached
-- (Base.Exec). Log output, contexts and the wording of errors are left out; the gRPC code of a
-- failure is kept (Csi.Code).
--
--   Base, Text, Dict, Decimal   shared types and lemmas; Go's string, map[string]string, strconv
--   Sanitize, MfsPath           pkg/driver/utils.go: sanitizeVolumeID, normalizeMFSPath (path.Clean
--                               is written out); Under and Accepted say which paths it accepts
--   Errors, Store               pkg/driver/store: the errors, the interfaces, and their
--                               implementations over a lister (Store.Volumes, Store.Snapshots)
--   Locks                       pkg/driver/lock/volumelocks.go, and concurrent calls over one lock
--                               set as a step relation (Interleaving, Progress); Keys is the set
--                               of keys that the list stands for, a quotient
--   Csi                         the messages of the CSI specification that the driver reads and writes
--   Driver                      pkg/driver/driver.go: NewDriver, the calls and what they leave behind
--   Stats                       pkg/driver/utils.go: getVolumeStats and its saturating arithmetic
--   Controller                  pkg/driver/controller.go, with the helpers of utils.go: Create and its
--                               laws, References and Delete with Deletion, Locking, Queries, Listing
--                               (Pages and Client for a client that follows the tokens)
--   Node                        pkg/driver/node.go: Options, Content, and the methods, with Staging,
--                               Unstaging, Emptied and Publishing for their laws
--   Identity                    pkg/driver/identity.go
--   Lifecycle                   a volume from its creation to its deletion, through both services, and
--                               from one node to another (Restaged, over Node.Emptied)
--   Ipfs                        pkg/ipfs/client.go over kubo's RPC client (Ipfs.Kubo): the requests,
--                               ImportToMFS (Import, with Mirror, Stored and Isolated for its laws), AddPath
--                               (Add), Export (Written for the local files), Persisted for content
--                               that is imported and exported, Presence, the client as the driver's
--                               interface (Service), and its construction (Dial)
--   Kubernetes                  pkg/kubernetes: the clients of the cluster and the informer manager
--                               (Informers, with Sync for its laws)
--   Endpoint                    cmd/csi-driver-ipfs/main.go: parseListenAddress
--   Startup                     cmd/csi-driver-ipfs/main.go: main, with Steps for what it runs, and
--                               Serving, Connected, Equipped and Ready for what a process that
--                               serves has done, and Exits for one that exits
--   Logging                     pkg/logging, and pkg/grpc/middleware/logging.go (Middleware)
--   Examples                    a toy driver, and the theorems at concrete inputs
--
-- Numbers: uint64 values are native numbers with their wrap-around written out, int64 values are
-- signed integers (Base.Int). Texts are lists of code points. All loops are structural recursion.
-- Fuel is used for a client that follows page tokens (Controller.Listing.Pages.follow and
-- Controller.Listing.Client.read_all), where one request more than there are entries is shown to be
-- enough. What kubo, the writes of local files and the host document is named where it is relied on
-- (Ipfs.Import.Stored.IsMfs, Ipfs.Import.Isolated.IsLocal, Ipfs.Export.Written.IsWriter and Resolves,
-- Node.Emptied.IsHost), and so is a synced cache (Store.Volumes.Laws.IsCached).
--
-- Not modelled: what the log writes, the registration of metrics, a gRPC server that fails while it
-- serves, and pkg/utils/ptr.go, a helper of one line.
pub mod Base
pub mod Text
pub mod Sanitize
pub mod MfsPath
pub mod Decimal
pub mod Dict
pub mod Errors
pub mod Store
pub mod Locks
pub mod Csi
pub mod Driver
pub mod Stats
pub mod Controller
pub mod Node
pub mod Identity
pub mod Lifecycle
pub mod Ipfs
pub mod Kubernetes
pub mod Endpoint
pub mod Startup
pub mod Logging
mod Examples
