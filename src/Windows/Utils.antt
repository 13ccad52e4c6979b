-- ===== src/Windows/Utils.antt =====
-- node/utils_windows.go: what the node server asks of the mounter on Windows. The name
-- `defaultWindowsFsType` of its text is declared nowhere, and is a parameter.
use Prim.Native.Char.{code}
use Prim.Native.String.{String, ◌++◌ as text_append}
use csi_runtime.Base.{
  ℕ, ◌+◌, ℤ, Bool, true, false, ◌&&◌, List, Option, none, some, Result, ok, leb, ◌==◌,
  if◌then◌else◌,
}
use csi_runtime.Base.Prog.{succeed, fail, when◌then◌else◌, ◌>>=◌}
use csi_runtime.Windows.Proxy.{Fault, errorf, Io}
use csi_runtime.Windows.Interface.{CsiProxyMounter}

-- The simple folding of a letter to a small ASCII letter, with the long s and the Kelvin sign.
abbrev fold : ℕ → ℕ
fold c =
    if leb 65 c && leb c 90
    then c + 32
    else if c == 0x17f
    then 115
    else if c == 0x212a
    then 107
    else c

-- `strings.EqualFold(s, t)` for a `t` of ASCII letters.
unfoldable pub equal_fold : String → String → Bool
equal_fold String.[] String.[] = true
equal_fold String.[] (String.◌∷◌ d t) = false
equal_fold (String.◌∷◌ c s) String.[] = false
equal_fold (String.◌∷◌ c s) (String.◌∷◌ d t) = (fold (code c) == fold (code d)) && equal_fold s t

module _ {C : Type 0} {R : C → Type 0} where
  -- `m.Interface.(mounter.CSIProxyMounter)`
  abbrev pub cast : Option (CsiProxyMounter C R) → Io C R (CsiProxyMounter C R)
  cast none = fail (errorf "could not cast to csi proxy class")
  cast (some proxy) = succeed proxy

  -- `formatAndMount`
  unfoldable pub format_and_mount :
      String
      → String
      → String
      → String
      → List String
      → Option (CsiProxyMounter C R)
      → Io C R (Unit {0})
  format_and_mount default_windows_fs_type source target fstype options m =
      when equal_fold fstype "ntfs"
      then cast m >>= (λ proxy. proxy.format_and_mount source target fstype options)
      else fail (
          errorf (
            text_append "GCE PD CSI driver can only supports " (
              text_append default_windows_fs_type
                (text_append " file system, it does not support " fstype))))

  -- `preparePublishPath`
  unfoldable pub prepare_publish_path : String → Option (CsiProxyMounter C R) → Io C R (Unit {0})
  prepare_publish_path path m = do
    proxy ← cast m
    exists ← proxy.exists_path path
    when exists then proxy.remove_pod_dir path else succeed tt

  -- `cleanupPublishPath`
  unfoldable pub cleanup_publish_path : String → Option (CsiProxyMounter C R) → Io C R (Unit {0})
  cleanup_publish_path path m = cast m >>= λ proxy. proxy.remove_pod_dir path

  -- `cleanupStagePath`
  unfoldable pub cleanup_stage_path : String → Option (CsiProxyMounter C R) → Io C R (Unit {0})
  cleanup_stage_path path m = cast m >>= λ proxy. proxy.unmount_device path

  -- `getBlockSizeBytes`
  unfoldable pub get_block_size_bytes : String → Option (CsiProxyMounter C R) → Io C R ℤ
  get_block_size_bytes path m = cast m >>= λ proxy. proxy.get_disk_total_bytes path

-- `disableDevice`
unfoldable pub disable_device : String → Result Fault (Unit {0})
disable_device path = ok tt
