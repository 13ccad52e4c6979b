-- ===== src/Lib.antt =====
-- csi-runtime: a runtime for drivers of the Container Storage Interface. A driver gives managers, whose
-- optional methods decide what it can do; the runtime is the gRPC services around them.
--
-- The program's parts and the files that model them:
--
-- * The node server (node/nodeserver.go, with node/interface.go, node/utils.go and utils/mount.go).
--   Node/Server is `Server` and `New`; Node/Capability the checks of a volume capability;
--   Node/Devices the functions of utils/mount.go; Node/Publish, Node/Stage, Node/Unstage and
--   Node/Unpublish are `NodePublishVolume`, `NodeStageVolume`, `NodeUnstageVolume` and
--   `NodeUnpublishVolume`; Node/Info is the remaining calls, and Node/Utils is node/utils_linux.go. A
--   handler is a program (Base/Prog) of calls to what is outside (Node/Calls): the operating system,
--   the mounter of k8s.io/mount-utils, the driver's manager, and the volume locks. Nothing is assumed
--   of the answers but what a theorem names as a hypothesis.
-- * The volume locks (utils/volume_lock.go), in VolumeLocks. `TryAcquire` and `Release` hold the
--   mutex and so are one step each. The set of strings is a list of its members.
-- * Node/World runs one handler against an oracle that answers each call, with the history of the
--   calls so far; Node/Interleaving runs any number of requests at once, as a step relation in which
--   the scheduler picks the next thread and each call is answered in any way. Node/Guarded is the
--   discipline of the locks that a program may follow, and Node/Handlers goes through the handlers.
--   Node/Counted and Node/Bounded count their calls, and Node/Finish those of interleaved requests.
-- * Node/Mounts reads from the history what the node server has mounted. Node/Retries is about
--   publishing and unpublishing again and again, and Node/Cycle about the life of a volume on a node,
--   from its staging (Node/Staged, with the rules of Node/MayMount) to its unstaging (Node/Unstaged).
--   Node/Contract is an abstract machine for the requests, whose state is the sources on each path;
--   Node/Stacked reads that state from the mounts, Node/Obeys (with Node/Adds) goes through the
--   handlers, and Node/Fulfils is any number of requests, one after the other.
-- * The controller server (controller/controllerserver.go, controller/interface.go), in
--   Controller/Manager and Controller/Service: a manager is a record with an optional method for each
--   interface, over a world of its own.
-- * The identity server (identity/identityserver.go), in Identity; the driver that puts the servers
--   together (driver/driver.go), in Driver; the listener (utils/net.go), in Net.
-- * The metadata of a volume (metadata/metadata.go), in Metadata, and the store in memory
--   (storage/memory.go), in Storage/Memory: its state is a map of maps (Dict), passed along; the
--   mutex makes each method one step. encoding/json and `apiequality.Semantic.DeepEqual` are the
--   record Storage/Json, with the round trip of `Marshal` and `Unmarshal` as a hypothesis.
--   Storage/Abstract is the store as functions, which Storage/Refines compares it with.
-- * The interfaces of the stores (storage/interfaces.go), in Storage/Interface; both stores are such an
--   interface in Storage/Implements. What the comments of the interfaces promise is not a record of laws.
-- * The store on disk (storage/filesystem.go), in Storage/Disk: programs of the calls of
--   Storage/Disk/Calls, which Storage/Disk/Writes runs with the history of the calls. An open file is
--   told by its path, and filepath.Join, strconv.ParseInt and os.IsNotExist are the record `Os`. The
--   read-only `fs.FS` is one of the callees, whose answers are left open, but for a named hypothesis
--   of Storage/Disk/Rooted, that it rejects absolute names, as `os.DirFS` does. An `int` is taken to
--   have 64 bits, where the group ID is converted to it.
-- * The mount manager on Linux (mount-manager/device-utils.go), in Device: Device/Verify is
--   `VerifyDevicePath` and what it calls, as programs of the calls of Device/Calls; Device/Serial is
--   the two regular expressions, on Text/Match. `wait.Poll` is a parameter, of which is only assumed
--   that it runs its condition some number of times, and for its success at least once. Statter is
--   `StatFS` and `IsBlockDevice` (mount-manager/statter_linux.go), with numbers of 64 bits
--   (Base/Int64).
-- * The mount manager on Windows, in Windows: Windows/V1 and Windows/V1beta are the two mounters
--   (mount-manager/safe-mounter-v1_windows.go and safe-mounter-v1beta_windows.go), as programs of
--   calls to csi-proxy; Windows/Interface is `CSIProxyMounter` and Windows/Safe `NewSafeMounter`
--   (mount-manager/safe-mounter_windows.go); Windows/Statter is mount-manager/statter_windows.go and
--   Windows/Utils is node/utils_windows.go. Text/Decimal and Text/Fields are what they take from
--   packages strconv and strings; a number of 64 bits has at most twenty digits, the fuel of
--   `digits`.
-- * The gRPC server (server/server.go) with the lines of its log, in Grpc, and the run of a driver,
--   from `Driver.Start` to its return, in Driver/Lifecycle, with calls of `Driver.Stop` meanwhile.
--
-- Rpc and Csi hold the errors and the messages of the protocol. Package status is the record `Errors`;
-- package slice of lancet is the record `Slices` with the laws `IsLawful`. A status keeps its format and
-- the arguments apart. But for the digits no fuel is used, since the only loops are those over a finite
-- list. The files of a Go map are written in the order of the list that stands for it.
--
-- Not modelled: the packages grpc, mount-utils, csi-proxy and the operating system, which are calls with
-- any answer; the constructors that only call constructors; the fakes for tests; the atomic writer
-- (third_party), which is a copy of a Kubernetes library; and contexts with their cancellation, but for
-- the one of `Driver.Start`. The handlers are those of Linux: the default file system type is ext4.
pub mod Base
pub mod Controller
pub mod Csi
pub mod Device
pub mod Dict
pub mod Driver
pub mod Grpc
pub mod Identity
pub mod Metadata
pub mod Net
pub mod Node
pub mod Rpc
pub mod Statter
pub mod Storage
pub mod Tests
pub mod Text
pub mod VolumeLocks
pub mod Windows
