-- ===== src/Windows/Made.antt =====
-- mount-manager/safe-mounter_windows.go: the mounter that `NewSafeMounter` takes.
use csi_runtime.Base.{◌≡◌, List, ◌∷◌, Result, ok, err, arith}
use csi_runtime.Rpc.{Error}
use csi_runtime.Base.Prog.{ask, bind, succeed, ◌>>=◌}
use csi_runtime.Base.Exec.{EventOf, OracleOf, exec}
use csi_runtime.Base.Yields.{Leaves, Leaves-bind}
use csi_runtime.Windows.Safe.{
  Version, v1, beta, filesystem, disk, volume, new_client, Call, Answer, new_csi_proxy_mounter,
  new_safe_mounter, or_else,
}

-- The last calls made the three clients of the version; for the beta version, after a client of
-- version 1 that could not be made.
abbrev pub Made : Version → List (EventOf Call Answer) → Type 0
Made v1
      ((new_client v1 volume, ok _)
        ∷ (new_client v1 disk, ok _)
        ∷ (new_client v1 filesystem, ok _)
        ∷ h) =
    Unit {0}
Made beta
      ((new_client beta volume, ok _)
        ∷ (new_client beta disk, ok _)
        ∷ (new_client beta filesystem, ok _)
        ∷ (new_client v1 _, err _)
        ∷ h) =
    Unit {0}
Made _ _ = ⊥

abbrev Refused : List (EventOf Call Answer) → Type 0
Refused ((new_client v1 _, err _) ∷ h) = Unit {0}
Refused _ = ⊥

abbrev MadeOr : Result Error Version → List (EventOf Call Answer) → Type 0
MadeOr (ok version) h = Made version h
MadeOr (err e) h = Unit {0}

abbrev First : Result Error Version → List (EventOf Call Answer) → Type 0
First (ok version) h = Made version h
First (err e) h = Refused h

v1_clients : Leaves (λ _. Unit {0}) (new_csi_proxy_mounter v1) First
unfolding exec new_csi_proxy_mounter succeed ◌>>=◌ bind ask
v1_clients = record { leaves = λ o h p. ground arith }

beta_clients : Leaves Refused (new_csi_proxy_mounter beta) MadeOr
unfolding exec new_csi_proxy_mounter succeed ◌>>=◌ bind ask
beta_clients = record { leaves = λ o h p. ground arith }

beta_if_refused :
    (r : Result Error Version) → Leaves (First r) (or_else (new_csi_proxy_mounter beta) r) MadeOr
unfolding exec succeed
beta_if_refused (ok version) = record { leaves = λ o h p. p }
beta_if_refused (err e) = beta_clients

-- When `NewSafeMounter` succeeds, its last calls made the three clients of the mounter that it
-- gives; the mounter is the beta one only after a client of version 1 could not be made.
pub new_safe_mounter-Made :
    (o : OracleOf Call Answer) (h : List (EventOf Call Answer)) (version : Version)
    → (exec o new_safe_mounter h).0 ≡ ok version
    → Made version (exec o new_safe_mounter h).1
unfolding new_safe_mounter
new_safe_mounter-Made o h version e =
    let made : MadeOr (exec o new_safe_mounter h).0 (exec o new_safe_mounter h).1 =
      (Leaves-bind _ _ v1_clients beta_if_refused).leaves o h tt in
    rw e at made
