-- ===== src/Tests/Data.antt =====
-- A node server, requests for it and a world that answers them.
use csi_runtime.Base.{
  String, ◌≡◌, refl, Bool, true, false, not, ◌&&◌, ◌||◌, List, [], ◌∷◌, ◌++◌, Option, none, some,
  ok, arith, eq_iff, if◌then◌else◌, pos,
}
use csi_runtime.Rpc.{Error, Errors, KeepsStatus, status, other}
use csi_runtime.Csi.{
  VolumeCapability, block, mount, single_node_writer, single_node_reader_only,
  NodePublishVolumeRequest, NodeStageVolumeRequest, NodeUnstageVolumeRequest,
  NodeUnpublishVolumeRequest,
}
use csi_runtime.Node.Calls
use csi_runtime.Node.Calls.{Call, Answer, FileInfo, MountResponse}
use csi_runtime.Node.Devices.{mode_device}
use csi_runtime.Node.Server.{Server}
use csi_runtime.Node.Stage.{Slices}
use csi_runtime.Node.Requests.{Service}
use csi_runtime.Node.World.{Oracle, World}
use csi_runtime.Node.Outcomes.Stage.{contains, IsLawful}

abbrev from_error : Error → Option Error
from_error (status c m args) = some (status c m args)
from_error (other m) = none

abbrev message : Error → String
message (status c m args) = m
message (other m) = m

abbrev pub errors : Errors
errors = record { from_error = from_error; message = message }

pub errors-KeepsStatus : KeepsStatus errors
errors-KeepsStatus c m args = refl

abbrev difference : List String → List String → List String
difference [] b = []
difference (x ∷ a) b = let rest = difference a b in if contains x b then rest else x ∷ rest

abbrev pub slices : Slices
slices = record {
  union = λ a b. a ++ b;
  append_if_absent = λ a y. a ++ (y ∷ []);
  difference = difference;
}

abbrev pub server : Server
server = record {
  node_id = "node";
  manager = record {
    validates = false;
    mounts = true;
    populates = false;
    blocks = true;
    expands = true;
  };
  max_volumes_per_node = pos 0;
  segments = none;
}

abbrev pub service : Service
service = record { errors = errors; slices = slices; server = server }

abbrev pub mounted : VolumeCapability
mounted = record {
  access_type = some (mount (record { fs_type = "xfs"; mount_flags = "noatime" ∷ [] }));
  access_mode = some single_node_reader_only;
}

abbrev pub as_block : VolumeCapability
as_block = record { access_type = some block; access_mode = some single_node_writer }

abbrev pub publish_request : VolumeCapability → NodePublishVolumeRequest
publish_request vc = record {
  volume_id = "a";
  target_path = "/target";
  staging_target_path = "/staging";
  volume_context = [];
  volume_capability = some vc;
  readonly = true;
}

abbrev pub stage_request : VolumeCapability → NodeStageVolumeRequest
stage_request vc = record {
  volume_id = "a";
  staging_target_path = "/staging";
  volume_context = [];
  publish_context = [];
  secrets = [];
  volume_capability = some vc;
}

abbrev pub unstage_request : NodeUnstageVolumeRequest
unstage_request = record { volume_id = "a"; staging_target_path = "/staging" }

abbrev pub unpublish_request : String → NodeUnpublishVolumeRequest
unpublish_request id = record { volume_id = id; target_path = "/target" }

abbrev pub device : FileInfo
device = record { mode = mode_device; is_dir = false }

abbrev pub directory : FileInfo
directory = record { mode = 0; is_dir = true }

abbrev pub mount_answer : MountResponse
mount_answer = record {
  source = "/dev/sda";
  fstype = "";
  options = "sync" ∷ [];
  sensitive_options = "ro" ∷ "key" ∷ [];
  format = false;
}

-- Every call succeeds; a path is a directory, or the device that is given, and no link.
abbrev pub answer : FileInfo → Bool → (c : Call) → Answer c
answer file not_mnt (Calls.stat p) = ok file
answer file not_mnt (Calls.eval_symlinks p) = ok p
answer file not_mnt (Calls.symlink s p) = ok tt
answer file not_mnt (Calls.remove p) = ok tt
answer file not_mnt (Calls.remove_all p) = ok tt
answer file not_mnt (Calls.is_likely_not_mount_point p) = ok not_mnt
answer file not_mnt Calls.list_mounts = ok (record { device = "/dev/sda"; path = "/staging" } ∷ [])
answer file not_mnt (Calls.mount_sensitive s p t o x) = ok tt
answer file not_mnt (Calls.mount_sensitive_without_systemd s p t o x) = ok tt
answer file not_mnt (Calls.format_and_mount_sensitive s p t o x) = ok tt
answer file not_mnt (Calls.unmount p) = ok tt
answer file not_mnt (Calls.validate_capability vc) = ok tt
answer file not_mnt (Calls.attach_block a b c) = ok "/dev/sda"
answer file not_mnt (Calls.detach_block p) = ok tt
answer file not_mnt (Calls.mount p t a b c) = ok (some mount_answer)
answer file not_mnt (Calls.populate p a b c) = ok tt

abbrev pub oracle : FileInfo → Bool → Oracle
oracle file not_mnt h c = answer file not_mnt c

abbrev pub world : World
world = record { locks = record { locks = [] }; history = [] }

abbrev pub busy_world : World
busy_world = record { locks = record { locks = "a" ∷ [] }; history = [] }

contains-append :
    (x : String) (a b : List String) → contains x (a ++ b) ≡ (contains x a || contains x b)
contains-append x [] b = refl
contains-append x (y ∷ a) b = ground (arith, contains-append x a b)

contains-difference :
    (x : String) (a b : List String)
    → contains x (difference a b) ≡ (contains x a && not (contains x b))
contains-difference x [] b = refl
contains-difference x (y ∷ a) b = ground (arith, contains-difference x a b, eq_iff x y)

pub slices-IsLawful : IsLawful slices
slices-IsLawful = record {
  contains-union = contains-append;
  contains-append_if_absent = (λ x a y. ground (arith, contains-append x a (y ∷ [])));
  contains-difference = contains-difference;
}
