-- ===== src/Windows/Safe.antt =====
-- mount-manager/safe-mounter_windows.go: which mounter is taken, with the constructors of the two
-- mounters.
use Prim.Native.String.{◌++◌ as text_append}
use csi_runtime.Base.{String, Result, ok, err}
use csi_runtime.Base.Prog.{Prog, ask, bind, succeed, ◌>>◌}
use csi_runtime.Rpc.{Error}

pub data Version : Type 0 where
  v1 beta : Version

-- The clients of csi-proxy: the versions of the beta ones are filesystem/v1beta1, disk/v1beta2 and
-- volume/v1beta1.
pub data Client : Type 0 where
  filesystem disk volume : Client

-- `NewClient` of the package of a client.
pub data Call : Type 0 where
  new_client : Version → Client → Call

abbrev pub Answer : Call → Type 0
Answer _ = Result Error (Unit {0})

abbrev pub Io : Type 0 → Type 0
Io A = Prog Call Answer (Result Error A)

-- `NewCSIProxyMounterV1` and `NewCSIProxyMounterV1Beta`; a mounter is told by its version.
unfoldable pub new_csi_proxy_mounter : Version → Io Version
new_csi_proxy_mounter version = do
  ask (new_client version filesystem)
  ask (new_client version disk)
  ask (new_client version volume)
  succeed version

abbrev pub or_else : Io Version → Result Error Version → Io Version
or_else other (ok version) = succeed version
or_else other (err e) = other

-- `NewSafeMounter`
unfoldable pub new_safe_mounter : Io Version
new_safe_mounter = bind (new_csi_proxy_mounter v1) (or_else (new_csi_proxy_mounter beta))

-- `GetAPIVersions`, with the versions of the client packages.
unfoldable pub get_api_versions : (Version → Client → String) → Version → String
get_api_versions versions version = text_append "API Versions Disk: " (
    text_append (versions version disk) (
      text_append ", Filesystem: " (
        text_append (versions version filesystem)
          (text_append ", Volume: " (versions version volume)))))
