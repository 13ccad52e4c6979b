-- ===== src/Storage/Disk/Calls.antt =====
-- What the store on disk calls: packages os, io/fs and json, the mounter of k8s.io/mount-utils and the
-- atomic writer of third_party/util. An open file is told by the path that it was opened at, and an
-- atomic writer by its directory.
use csi_runtime.Base.{ℕ, String, Bool, true, false, List, Option, Result, ℤ}
use csi_runtime.Base.Prog.{Prog, ask}
use csi_runtime.Base.AllCalls.{AllCalls, AllCalls-ask}
use csi_runtime.Rpc.{Error}
use csi_runtime.Dict.{Dict}
use csi_runtime.Metadata.{Metadata}

-- A Go `error` of the store: `wraps` is `fmt.Errorf` with `%w`, which `errors.Is` looks through, and
-- `shows` is `fmt.Errorf` with `%v`.
pub data FsError : Type 0 where
  not_found invalid_json not_exist : FsError
  plain : Error → FsError
  wraps : String → FsError → FsError
  wraps_showing : String → FsError → FsError → FsError
  shows : String → FsError → FsError

-- `errors.Is(err, ErrNotFound)`
abbrev pub is_not_found : FsError → Bool
is_not_found not_found = true
is_not_found (wraps m e) = is_not_found e
is_not_found (wraps_showing m e shown) = is_not_found e
is_not_found _ = false

-- `util.FileProjection`
pub record FileProjection (Bytes : Type 0) : Type 0 where
  pub data_of : Bytes
  pub mode : ℕ

module _ (Bytes : Type 0) where
  pub data FsCall : Type 0 where
    open_file : String → FsCall
    stat_open : String → FsCall
    close_file : String → FsCall
    decode : String → FsCall
    read_all : String → FsCall
    read_dir : String → FsCall
    remove_all : String → FsCall
    mkdir_all : String → ℕ → FsCall
    write_file : String → Bytes → ℕ → FsCall
    chown : String → ℤ → ℤ → FsCall
    new_atomic_writer : String → String → FsCall
    write_payload : String → Dict (FileProjection Bytes) → FsCall
    is_not_mount_point : String → FsCall
    mount : String → String → String → List String → FsCall

module _ {Bytes : Type 0} where
  -- The value that comes with a nil error. Of `IsNotMountPoint` both results are read.
  abbrev pub FsValue : FsCall Bytes → Type 0
  FsValue (decode _) = Metadata
  FsValue (read_all _) = Bytes
  FsValue (read_dir _) = List String
  FsValue (is_not_mount_point _) = Bool × Option FsError
  FsValue _ = Unit {0}

  abbrev pub FsAnswer : FsCall Bytes → Type 0
  FsAnswer c = Result FsError (FsValue c)

-- A function of the store with results `(A, error)`.
abbrev pub Io : Type 0 → Type 0 → Type 0
Io Bytes A = Prog (FsCall Bytes) FsAnswer (Result FsError A)

module _ {Bytes : Type 0} where
  unfoldable pub do_open : String → Io Bytes (Unit {0})
  unfolding ask
  do_open a = ask (open_file a)

  unfoldable pub do_stat_open : String → Io Bytes (Unit {0})
  unfolding ask
  do_stat_open a = ask (stat_open a)

  unfoldable pub do_close : String → Io Bytes (Unit {0})
  unfolding ask
  do_close a = ask (close_file a)

  unfoldable pub do_decode : String → Io Bytes Metadata
  unfolding ask
  do_decode a = ask (decode a)

  unfoldable pub do_read_all : String → Io Bytes Bytes
  unfolding ask
  do_read_all a = ask (read_all a)

  unfoldable pub do_read_dir : String → Io Bytes (List String)
  unfolding ask
  do_read_dir a = ask (read_dir a)

  unfoldable pub do_remove_all : String → Io Bytes (Unit {0})
  unfolding ask
  do_remove_all a = ask (remove_all a)

  unfoldable pub do_mkdir_all : String → ℕ → Io Bytes (Unit {0})
  unfolding ask
  do_mkdir_all a b = ask (mkdir_all a b)

  unfoldable pub do_write_file : String → Bytes → ℕ → Io Bytes (Unit {0})
  unfolding ask
  do_write_file a b c = ask (write_file a b c)

  unfoldable pub do_chown : String → ℤ → ℤ → Io Bytes (Unit {0})
  unfolding ask
  do_chown a b c = ask (chown a b c)

  unfoldable pub do_new_atomic_writer : String → String → Io Bytes (Unit {0})
  unfolding ask
  do_new_atomic_writer a b = ask (new_atomic_writer a b)

  unfoldable pub do_write_payload : String → Dict (FileProjection Bytes) → Io Bytes (Unit {0})
  unfolding ask
  do_write_payload a b = ask (write_payload a b)

  unfoldable pub do_is_not_mount_point : String → Io Bytes (Bool × Option FsError)
  unfolding ask
  do_is_not_mount_point a = ask (is_not_mount_point a)

  unfoldable pub do_mount : String → String → String → List String → Io Bytes (Unit {0})
  unfolding ask
  do_mount a b c d = ask (mount a b c d)

  module _ {P : FsCall Bytes → Type 0} where
    pub AllCalls-do_open : (a : String) → P (open_file a) → AllCalls P (do_open a)
    unfolding do_open
    AllCalls-do_open a h = AllCalls-ask (open_file a) h

    pub AllCalls-do_stat_open : (a : String) → P (stat_open a) → AllCalls P (do_stat_open a)
    unfolding do_stat_open
    AllCalls-do_stat_open a h = AllCalls-ask (stat_open a) h

    pub AllCalls-do_close : (a : String) → P (close_file a) → AllCalls P (do_close a)
    unfolding do_close
    AllCalls-do_close a h = AllCalls-ask (close_file a) h

    pub AllCalls-do_decode : (a : String) → P (decode a) → AllCalls P (do_decode a)
    unfolding do_decode
    AllCalls-do_decode a h = AllCalls-ask (decode a) h

    pub AllCalls-do_read_all : (a : String) → P (read_all a) → AllCalls P (do_read_all a)
    unfolding do_read_all
    AllCalls-do_read_all a h = AllCalls-ask (read_all a) h

    pub AllCalls-do_read_dir : (a : String) → P (read_dir a) → AllCalls P (do_read_dir a)
    unfolding do_read_dir
    AllCalls-do_read_dir a h = AllCalls-ask (read_dir a) h

    pub AllCalls-do_remove_all : (a : String) → P (remove_all a) → AllCalls P (do_remove_all a)
    unfolding do_remove_all
    AllCalls-do_remove_all a h = AllCalls-ask (remove_all a) h

    pub AllCalls-do_mkdir_all :
        (a : String) (b : ℕ) → P (mkdir_all a b) → AllCalls P (do_mkdir_all a b)
    unfolding do_mkdir_all
    AllCalls-do_mkdir_all a b h = AllCalls-ask (mkdir_all a b) h

    pub AllCalls-do_write_file :
        (a : String) (b : Bytes) (c : ℕ) → P (write_file a b c) → AllCalls P (do_write_file a b c)
    unfolding do_write_file
    AllCalls-do_write_file a b c h = AllCalls-ask (write_file a b c) h

    pub AllCalls-do_chown :
        (a : String) (b : ℤ) (c : ℤ) → P (chown a b c) → AllCalls P (do_chown a b c)
    unfolding do_chown
    AllCalls-do_chown a b c h = AllCalls-ask (chown a b c) h

    pub AllCalls-do_new_atomic_writer :
        (a : String) (b : String)
        → P (new_atomic_writer a b)
        → AllCalls P (do_new_atomic_writer a b)
    unfolding do_new_atomic_writer
    AllCalls-do_new_atomic_writer a b h = AllCalls-ask (new_atomic_writer a b) h

    pub AllCalls-do_write_payload :
        (a : String) (b : Dict (FileProjection Bytes))
        → P (write_payload a b)
        → AllCalls P (do_write_payload a b)
    unfolding do_write_payload
    AllCalls-do_write_payload a b h = AllCalls-ask (write_payload a b) h

    pub AllCalls-do_is_not_mount_point :
        (a : String) → P (is_not_mount_point a) → AllCalls P (do_is_not_mount_point a)
    unfolding do_is_not_mount_point
    AllCalls-do_is_not_mount_point a h = AllCalls-ask (is_not_mount_point a) h

    pub AllCalls-do_mount :
        (a : String) (b : String) (c : String) (d : List String)
        → P (mount a b c d)
        → AllCalls P (do_mount a b c d)
    unfolding do_mount
    AllCalls-do_mount a b c d h = AllCalls-ask (mount a b c d) h

pub ruleset fs_asks = (
  AllCalls-do_open, AllCalls-do_stat_open, AllCalls-do_close, AllCalls-do_decode,
  AllCalls-do_read_all, AllCalls-do_read_dir, AllCalls-do_remove_all, AllCalls-do_mkdir_all,
  AllCalls-do_write_file, AllCalls-do_chown, AllCalls-do_new_atomic_writer,
  AllCalls-do_write_payload, AllCalls-do_is_not_mount_point, AllCalls-do_mount,
)
