-- ===== src/Grpc.antt =====
-- server/server.go: the gRPC server around the three services. Package grpc is outside; a request,
-- an answer and what `protosanitizer.StripSecrets` makes of either are of any types.
use csi_runtime.Base.{ℕ, String, List, [], ◌∷◌, ◌++◌, Result, ok, err}
use csi_runtime.Rpc.{Error}

-- A line of the log, with the values that `WithValues` and the call put beside its message.
pub data LogLine (V : Type 0) : Type 0 where
  info : ℕ → String → List (String × V) → LogLine V
  error : Error → String → List (String × V) → LogLine V

-- A value of the log: a text, or what is left of a message without its secrets.
pub data Value (S : Type 0) : Type 0 where
  text : String → Value S
  stripped : S → Value S

module _ {Resp S : Type 0} (strip_response : Resp → S) where
  abbrev pub log_end : List (String × Value S) → Result Error Resp → LogLine (Value S)
  log_end with_values (err e) = error e "failed processing request" with_values
  log_end with_values (ok resp) =
      info 5 "request completed"
        (with_values ++ (("response", stripped (strip_response resp)) ∷ []))

module _ {Ctx Req Resp S W : Type 0} (strip_request : Req → S) (strip_response : Resp → S) where
  -- `loggingInterceptor`: the answer, the world after the handler, and the lines of the log in order.
  unfoldable pub logging_interceptor :
      String
      → (Ctx → Req → W → Result Error Resp × W)
      → Ctx
      → Req
      → W
      → Result Error Resp × W × List (LogLine (Value S))
  logging_interceptor full_method handler ctx req w =
      let with_values =
        ("rpc_method", text full_method) ∷ ("request", stripped (strip_request req)) ∷ [] in
      let (answer, w') = handler ctx req w in
      (
        answer,
        w',
        info 3 "handling request" with_values ∷ log_end strip_response with_values answer ∷ [],
      )

-- What is registered with `grpc.Server`.
pub data Service (I C N : Type 0) : Type 0 where
  identity : I → Service I C N
  controller : C → Service I C N
  node : N → Service I C N

-- `server`, with what its `grpc.Server` was made with and what was registered, in order.
pub record Server (L G I C N : Type 0) : Type 0 where
  pub lis : L
  pub log : G
  pub interceptor : G
  pub services : List (Service I C N)

-- `New`: the interceptor is the one of the log.
unfoldable pub new : {L G I C N : Type 0} → L → G → I → C → N → Server L G I C N
new lis log ids cs ns = record {
  lis = lis;
  log = log;
  interceptor = log;
  services = identity ids ∷ controller cs ∷ node ns ∷ [];
}

-- The calls of the server on `grpc.Server`: `Serve`, `GracefulStop` and `Stop`.
pub data GrpcCall : Type 0 where
  serve graceful_stop stop_now : GrpcCall

-- `Start`, `Stop` and `ForceStop`
unfoldable pub start : GrpcCall
start = serve

unfoldable pub stop : GrpcCall
stop = graceful_stop

unfoldable pub force_stop : GrpcCall
force_stop = stop_now
