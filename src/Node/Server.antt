-- ===== src/Node/Server.antt =====
-- The node server of node/nodeserver.go, the interfaces of its manager (node/interface.go), and the
-- steps that its handlers share.
use csi_runtime.Base.{String, Bool, true, false, not, [], ◌∷◌, Option, none, some, str_eq}
use csi_runtime.Base.{Result, ok, err, ℤ, ◌||◌, if◌then◌else◌}
use csi_runtime.Base.Prog.{fail, call, ret, bind, ask, succeed, require}
use csi_runtime.Rpc.{Errors, Error, status, other, aborted, invalid_argument}
use csi_runtime.Csi.{Context}
use csi_runtime.Node.Calls.{Handler, ext, try_acquire, release, is_likely_not_mount_point}

-- Which of the interfaces `Validate`, `Mount`, `Populate`, `Block` and `Expand` the manager has.
pub record Manager : Type 0 where
  pub validates : Bool
  pub mounts : Bool
  pub populates : Bool
  pub blocks : Bool
  pub expands : Bool

-- `Server`; the mounter and the volume locks are the world that a handler runs in.
pub record Server : Type 0 where
  pub node_id : String
  pub manager : Manager
  pub max_volumes_per_node : ℤ
  pub segments : Option Context

abbrev pub err_no_implementation : Error
err_no_implementation = other "no implementation"

-- `New`, after the answer of `NewSafeMounter`.
unfoldable pub new : Result Error (Unit {0}) → String → ℤ → Manager → Result Error Server
new (err e) node_id max manager = err (other "can't create safe mounter: %w")
new (ok _) node_id max manager =
    if manager.mounts || (manager.populates || manager.blocks)
    then ok (record {
      node_id = node_id;
      manager = manager;
      max_volumes_per_node = max;
      segments = none;
    })
    else err err_no_implementation

abbrev pub is_empty : String → Bool
is_empty s = str_eq s ""

-- `if len(s) == 0 { return status.Error(codes.InvalidArgument, m) }`
unfoldable pub require_text : String → String → Handler (Unit {0})
unfolding require
require_text s m = require (not (is_empty s)) (status invalid_argument m [])

-- `TryAcquire`, the error when it fails, and the deferred `Release` when `body` returns.
unfoldable pub locked : {A : Type 0} → String → Handler A → Handler A
unfolding bind
locked id body = call (try_acquire id) λ acquired. elim acquired [
  | false ↦
      ret (err (status aborted "An operation with the given Volume ID %s already exists" (id ∷ [])))
  | true ↦ bind body (λ r. call (release id) (λ _. ret r))
]

-- `isVolumePathMounted`
unfoldable pub is_volume_path_mounted : String → Handler Bool
unfolding bind ask succeed
is_volume_path_mounted path =
    bind (ask (ext (is_likely_not_mount_point path)))
      λ r. elim r [ ok not_mnt ↦ succeed (not not_mnt) | err _ ↦ succeed false ]

-- `if p == nil { return e }`
unfoldable pub require_some : {A : Type 0} → Option A → Error → Handler A
unfolding succeed fail
require_some none e = fail e
require_some (some a) e = succeed a

-- `st, ok := status.FromError(err); if ok { return st.Err() }; return e`
unfoldable pub status_or : Errors → Error → Error → Error
status_or errors cause e = elim (errors.from_error cause) [ none ↦ e | some st ↦ st ]
