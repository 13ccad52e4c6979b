-- ===== src/Node/Counted.antt =====
-- Each call of the node server is one call.
use mathlib.Core.Nat.{ℕ, suc}
use csi_runtime.Base.{String, List}
use csi_runtime.Base.Within.{Within, Within-ask}
use csi_runtime.Csi.{Context, VolumeCapability}
use csi_runtime.Node.Calls.{ext}
use csi_runtime.Node.Calls.{
  stat, eval_symlinks, symlink, remove, remove_all, is_likely_not_mount_point, list_mounts,
  mount_sensitive, mount_sensitive_without_systemd, format_and_mount_sensitive, unmount,
  validate_capability, attach_block, detach_block, mount, populate,
}
use csi_runtime.Node.Asks.{
  do_stat, do_eval_symlinks, do_symlink, do_remove, do_remove_all, do_is_likely_not_mount_point,
  do_list_mounts, do_mount_sensitive, do_mount_sensitive_without_systemd,
  do_format_and_mount_sensitive, do_unmount, do_validate_capability, do_attach_block,
  do_detach_block, do_mount, do_populate,
}

pub Within-do_stat : (n : ℕ) (a : String) → Within (suc n) (do_stat a)
unfolding do_stat
Within-do_stat n a = Within-ask n (ext (stat a))

pub Within-do_eval_symlinks : (n : ℕ) (a : String) → Within (suc n) (do_eval_symlinks a)
unfolding do_eval_symlinks
Within-do_eval_symlinks n a = Within-ask n (ext (eval_symlinks a))

pub Within-do_symlink : (n : ℕ) (a : String) (b : String) → Within (suc n) (do_symlink a b)
unfolding do_symlink
Within-do_symlink n a b = Within-ask n (ext (symlink a b))

pub Within-do_remove : (n : ℕ) (a : String) → Within (suc n) (do_remove a)
unfolding do_remove
Within-do_remove n a = Within-ask n (ext (remove a))

pub Within-do_remove_all : (n : ℕ) (a : String) → Within (suc n) (do_remove_all a)
unfolding do_remove_all
Within-do_remove_all n a = Within-ask n (ext (remove_all a))

pub Within-do_is_likely_not_mount_point :
    (n : ℕ) (a : String) → Within (suc n) (do_is_likely_not_mount_point a)
unfolding do_is_likely_not_mount_point
Within-do_is_likely_not_mount_point n a = Within-ask n (ext (is_likely_not_mount_point a))

pub Within-do_list_mounts : (n : ℕ) → Within (suc n) do_list_mounts
unfolding do_list_mounts
Within-do_list_mounts n = Within-ask n (ext list_mounts)

pub Within-do_mount_sensitive :
    (n : ℕ) (a : String) (b : String) (c : String) (d : List String) (e : List String)
    → Within (suc n) (do_mount_sensitive a b c d e)
unfolding do_mount_sensitive
Within-do_mount_sensitive n a b c d e = Within-ask n (ext (mount_sensitive a b c d e))

pub Within-do_mount_sensitive_without_systemd :
    (n : ℕ) (a : String) (b : String) (c : String) (d : List String) (e : List String)
    → Within (suc n) (do_mount_sensitive_without_systemd a b c d e)
unfolding do_mount_sensitive_without_systemd
Within-do_mount_sensitive_without_systemd n a b c d e =
    Within-ask n (ext (mount_sensitive_without_systemd a b c d e))

pub Within-do_format_and_mount_sensitive :
    (n : ℕ) (a : String) (b : String) (c : String) (d : List String) (e : List String)
    → Within (suc n) (do_format_and_mount_sensitive a b c d e)
unfolding do_format_and_mount_sensitive
Within-do_format_and_mount_sensitive n a b c d e =
    Within-ask n (ext (format_and_mount_sensitive a b c d e))

pub Within-do_unmount : (n : ℕ) (a : String) → Within (suc n) (do_unmount a)
unfolding do_unmount
Within-do_unmount n a = Within-ask n (ext (unmount a))

pub Within-do_validate_capability :
    (n : ℕ) (a : VolumeCapability) → Within (suc n) (do_validate_capability a)
unfolding do_validate_capability
Within-do_validate_capability n a = Within-ask n (ext (validate_capability a))

pub Within-do_attach_block :
    (n : ℕ) (a : Context) (b : Context) (c : Context) → Within (suc n) (do_attach_block a b c)
unfolding do_attach_block
Within-do_attach_block n a b c = Within-ask n (ext (attach_block a b c))

pub Within-do_detach_block : (n : ℕ) (a : String) → Within (suc n) (do_detach_block a)
unfolding do_detach_block
Within-do_detach_block n a = Within-ask n (ext (detach_block a))

pub Within-do_mount :
    (n : ℕ) (a : String) (b : String) (c : Context) (d : Context) (e : Context)
    → Within (suc n) (do_mount a b c d e)
unfolding do_mount
Within-do_mount n a b c d e = Within-ask n (ext (mount a b c d e))

pub Within-do_populate :
    (n : ℕ) (a : String) (b : Context) (c : Context) (d : Context)
    → Within (suc n) (do_populate a b c d)
unfolding do_populate
Within-do_populate n a b c d = Within-ask n (ext (populate a b c d))

pub ruleset counted_asks = (
  Within-do_stat, Within-do_eval_symlinks, Within-do_symlink, Within-do_remove,
  Within-do_remove_all, Within-do_is_likely_not_mount_point, Within-do_list_mounts,
  Within-do_mount_sensitive, Within-do_mount_sensitive_without_systemd,
  Within-do_format_and_mount_sensitive, Within-do_unmount, Within-do_validate_capability,
  Within-do_attach_block, Within-do_detach_block, Within-do_mount, Within-do_populate,
)
