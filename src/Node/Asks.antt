-- ===== src/Node/Asks.antt =====
-- Each call of the node server at the type of its value, and the rule of `AllCalls` for it.
use csi_runtime.Base.{String, Bool, List, Option}
use csi_runtime.Base.Prog.{ask}
use csi_runtime.Base.AllCalls.{AllCalls, AllCalls-ask}
use csi_runtime.Csi.{Context, VolumeCapability}
use csi_runtime.Node.Calls.{FileInfo, MountPoint, MountResponse, Op, ext, Handler}
use csi_runtime.Node.Calls.{
  stat, eval_symlinks, symlink, remove, remove_all, is_likely_not_mount_point, list_mounts,
  mount_sensitive, mount_sensitive_without_systemd, format_and_mount_sensitive, unmount,
  validate_capability, attach_block, detach_block, mount, populate,
}

unfoldable pub do_stat : String → Handler FileInfo
unfolding ask
do_stat a = ask (ext (stat a))

unfoldable pub do_eval_symlinks : String → Handler String
unfolding ask
do_eval_symlinks a = ask (ext (eval_symlinks a))

unfoldable pub do_symlink : String → String → Handler (Unit {0})
unfolding ask
do_symlink a b = ask (ext (symlink a b))

unfoldable pub do_remove : String → Handler (Unit {0})
unfolding ask
do_remove a = ask (ext (remove a))

unfoldable pub do_remove_all : String → Handler (Unit {0})
unfolding ask
do_remove_all a = ask (ext (remove_all a))

unfoldable pub do_is_likely_not_mount_point : String → Handler Bool
unfolding ask
do_is_likely_not_mount_point a = ask (ext (is_likely_not_mount_point a))

unfoldable pub do_list_mounts : Handler (List MountPoint)
unfolding ask
do_list_mounts = ask (ext list_mounts)

unfoldable pub do_mount_sensitive :
    String → String → String → List String → List String → Handler (Unit {0})
unfolding ask
do_mount_sensitive a b c d e = ask (ext (mount_sensitive a b c d e))

unfoldable pub do_mount_sensitive_without_systemd :
    String → String → String → List String → List String → Handler (Unit {0})
unfolding ask
do_mount_sensitive_without_systemd a b c d e = ask (ext (mount_sensitive_without_systemd a b c d e))

unfoldable pub do_format_and_mount_sensitive :
    String → String → String → List String → List String → Handler (Unit {0})
unfolding ask
do_format_and_mount_sensitive a b c d e = ask (ext (format_and_mount_sensitive a b c d e))

unfoldable pub do_unmount : String → Handler (Unit {0})
unfolding ask
do_unmount a = ask (ext (unmount a))

unfoldable pub do_validate_capability : VolumeCapability → Handler (Unit {0})
unfolding ask
do_validate_capability a = ask (ext (validate_capability a))

unfoldable pub do_attach_block : Context → Context → Context → Handler String
unfolding ask
do_attach_block a b c = ask (ext (attach_block a b c))

unfoldable pub do_detach_block : String → Handler (Unit {0})
unfolding ask
do_detach_block a = ask (ext (detach_block a))

unfoldable pub do_mount :
    String → String → Context → Context → Context → Handler (Option MountResponse)
unfolding ask
do_mount a b c d e = ask (ext (mount a b c d e))

unfoldable pub do_populate : String → Context → Context → Context → Handler (Unit {0})
unfolding ask
do_populate a b c d = ask (ext (populate a b c d))

module _ {P : Op → Type 0} where
  pub AllCalls-do_stat : (a : String) → P (ext (stat a)) → AllCalls P (do_stat a)
  unfolding do_stat
  AllCalls-do_stat a h = AllCalls-ask (ext (stat a)) h

  pub AllCalls-do_eval_symlinks :
      (a : String) → P (ext (eval_symlinks a)) → AllCalls P (do_eval_symlinks a)
  unfolding do_eval_symlinks
  AllCalls-do_eval_symlinks a h = AllCalls-ask (ext (eval_symlinks a)) h

  pub AllCalls-do_symlink :
      (a : String) (b : String) → P (ext (symlink a b)) → AllCalls P (do_symlink a b)
  unfolding do_symlink
  AllCalls-do_symlink a b h = AllCalls-ask (ext (symlink a b)) h

  pub AllCalls-do_remove : (a : String) → P (ext (remove a)) → AllCalls P (do_remove a)
  unfolding do_remove
  AllCalls-do_remove a h = AllCalls-ask (ext (remove a)) h

  pub AllCalls-do_remove_all : (a : String) → P (ext (remove_all a)) → AllCalls P (do_remove_all a)
  unfolding do_remove_all
  AllCalls-do_remove_all a h = AllCalls-ask (ext (remove_all a)) h

  pub AllCalls-do_is_likely_not_mount_point :
      (a : String)
      → P (ext (is_likely_not_mount_point a))
      → AllCalls P (do_is_likely_not_mount_point a)
  unfolding do_is_likely_not_mount_point
  AllCalls-do_is_likely_not_mount_point a h = AllCalls-ask (ext (is_likely_not_mount_point a)) h

  pub AllCalls-do_list_mounts : P (ext list_mounts) → AllCalls P do_list_mounts
  unfolding do_list_mounts
  AllCalls-do_list_mounts h = AllCalls-ask (ext list_mounts) h

  pub AllCalls-do_mount_sensitive :
      (a : String) (b : String) (c : String) (d : List String) (e : List String)
      → P (ext (mount_sensitive a b c d e))
      → AllCalls P (do_mount_sensitive a b c d e)
  unfolding do_mount_sensitive
  AllCalls-do_mount_sensitive a b c d e h = AllCalls-ask (ext (mount_sensitive a b c d e)) h

  pub AllCalls-do_mount_sensitive_without_systemd :
      (a : String) (b : String) (c : String) (d : List String) (e : List String)
      → P (ext (mount_sensitive_without_systemd a b c d e))
      → AllCalls P (do_mount_sensitive_without_systemd a b c d e)
  unfolding do_mount_sensitive_without_systemd
  AllCalls-do_mount_sensitive_without_systemd a b c d e h =
      AllCalls-ask (ext (mount_sensitive_without_systemd a b c d e)) h

  pub AllCalls-do_format_and_mount_sensitive :
      (a : String) (b : String) (c : String) (d : List String) (e : List String)
      → P (ext (format_and_mount_sensitive a b c d e))
      → AllCalls P (do_format_and_mount_sensitive a b c d e)
  unfolding do_format_and_mount_sensitive
  AllCalls-do_format_and_mount_sensitive a b c d e h =
      AllCalls-ask (ext (format_and_mount_sensitive a b c d e)) h

  pub AllCalls-do_unmount : (a : String) → P (ext (unmount a)) → AllCalls P (do_unmount a)
  unfolding do_unmount
  AllCalls-do_unmount a h = AllCalls-ask (ext (unmount a)) h

  pub AllCalls-do_validate_capability :
      (a : VolumeCapability)
      → P (ext (validate_capability a))
      → AllCalls P (do_validate_capability a)
  unfolding do_validate_capability
  AllCalls-do_validate_capability a h = AllCalls-ask (ext (validate_capability a)) h

  pub AllCalls-do_attach_block :
      (a : Context) (b : Context) (c : Context)
      → P (ext (attach_block a b c))
      → AllCalls P (do_attach_block a b c)
  unfolding do_attach_block
  AllCalls-do_attach_block a b c h = AllCalls-ask (ext (attach_block a b c)) h

  pub AllCalls-do_detach_block :
      (a : String) → P (ext (detach_block a)) → AllCalls P (do_detach_block a)
  unfolding do_detach_block
  AllCalls-do_detach_block a h = AllCalls-ask (ext (detach_block a)) h

  pub AllCalls-do_mount :
      (a : String) (b : String) (c : Context) (d : Context) (e : Context)
      → P (ext (mount a b c d e))
      → AllCalls P (do_mount a b c d e)
  unfolding do_mount
  AllCalls-do_mount a b c d e h = AllCalls-ask (ext (mount a b c d e)) h

  pub AllCalls-do_populate :
      (a : String) (b : Context) (c : Context) (d : Context)
      → P (ext (populate a b c d))
      → AllCalls P (do_populate a b c d)
  unfolding do_populate
  AllCalls-do_populate a b c d h = AllCalls-ask (ext (populate a b c d)) h

pub ruleset asks = (
  AllCalls-do_stat, AllCalls-do_eval_symlinks, AllCalls-do_symlink, AllCalls-do_remove,
  AllCalls-do_remove_all, AllCalls-do_is_likely_not_mount_point, AllCalls-do_list_mounts,
  AllCalls-do_mount_sensitive, AllCalls-do_mount_sensitive_without_systemd,
  AllCalls-do_format_and_mount_sensitive, AllCalls-do_unmount, AllCalls-do_validate_capability,
  AllCalls-do_attach_block, AllCalls-do_detach_block, AllCalls-do_mount, AllCalls-do_populate,
)
