-- ===== src/Tests/Clients.antt =====
-- A mounter where version 1 of csi-proxy cannot be reached.
use csi_runtime.Base.{◌≡◌, refl, [], ok, err}
use csi_runtime.Base.Exec.{OracleOf, exec}
use csi_runtime.Base.Prog.{◌>>=◌, bind, ask, succeed}
use csi_runtime.Rpc.{other}
use csi_runtime.Windows.Safe
use csi_runtime.Windows.Safe.{
  v1, beta, new_client, new_safe_mounter, new_csi_proxy_mounter, or_else,
}
use csi_runtime.Windows.Made.{Made, new_safe_mounter-Made}

abbrev clients : OracleOf Safe.Call Safe.Answer
clients h (new_client v1 c) = err (other "open pipe")
clients h (new_client beta c) = ok tt

beta_made : (exec clients new_safe_mounter []).0 ≡ ok beta
unfolding exec new_safe_mounter new_csi_proxy_mounter succeed ◌>>=◌ bind ask
beta_made = refl

new_safe_mounter-Made_example : Made beta (exec clients new_safe_mounter []).1
new_safe_mounter-Made_example = new_safe_mounter-Made clients [] beta beta_made
