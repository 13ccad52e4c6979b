-- ===== src/Rpc.antt =====
-- Errors as the services return them: values of the packages google.golang.org/grpc/status and codes.
use csi_runtime.Base.{String, ◌≡◌, List, Option, some}

-- The codes that the source names.
pub data Code : Type 0 where
  invalid_argument failed_precondition aborted internal unimplemented unavailable : Code

-- A Go `error`. A status carries a code and its format with the arguments, texts, put beside it
-- (`status.Error(c, m)` has none); any other error is told by its text.
pub data Error : Type 0 where
  status : Code → String → List String → Error
  other : String → Error

-- Package status and the method `Error() string` are not in the repository: `from_error` is
-- `st, ok := status.FromError(err)`, with `st.Err()` where `ok`, and `message` is `err.Error()`.
pub record Errors : Type 0 where
  pub from_error : Error → Option Error
  pub message : Error → String

-- As documented, `FromError` of an error made by package status gives the status back.
abbrev pub KeepsStatus : Errors → Type 0
KeepsStatus e =
    (c : Code) (m : String) (args : List String)
    → e.from_error (status c m args) ≡ some (status c m args)
