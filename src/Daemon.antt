-- ===== src/Daemon.antt =====
-- cmd/cloudtapd/main.go: the configuration, and the HTTP and gRPC handlers over a tunnel manager.
-- The servers' sockets, their shutdown and the signals of the process are outside.
pub mod Handlers
pub mod Demo
pub mod Shutdown
use cloudtap.Prelude.{
  ℕ, ◌+◌, ◌*◌, ◌++◌, Bool, true, false, Option, none, some, List, [], ◌∷◌, if◌then◌else◌, leb,
}
use cloudtap.Text.{Str, lit, ◌==◌, mem}
use cloudtap.Time.{Instant, second}
use cloudtap.Tunnel.{
  Error, foreign, Result, ok, err, Context, Instants, Manager, open_tunnel, close_tunnel,
  list_targets,
}

pub record Config : Type 0 where
  pub http_addr : Str
  pub grpc_addr : Str
  pub dev_mode : Bool

-- strconv.ParseBool
unfoldable pub parse_bool : Str → Option Bool
parse_bool s =
    if mem s (lit "1" ∷ lit "t" ∷ lit "T" ∷ lit "true" ∷ lit "TRUE" ∷ lit "True" ∷ [])
    then some true
    else if mem s (lit "0" ∷ lit "f" ∷ lit "F" ∷ lit "false" ∷ lit "FALSE" ∷ lit "False" ∷ [])
    then some false
    else none

-- `getenv key` is empty where the variable is not set.
module _ (getenv : Str → Str) where
  -- envOrDefault
  unfoldable pub env_or_default : Str → Str → Str
  env_or_default key fallback = if getenv key == [] then fallback else getenv key

  parsed_or : Bool → Option Bool → Bool
  parsed_or fallback none = fallback
  parsed_or fallback (some b) = b

  -- envOrBool
  unfoldable pub env_or_bool : Str → Bool → Bool
  unfolding parsed_or
  env_or_bool key fallback =
      if getenv key == [] then fallback else parsed_or fallback (parse_bool (getenv key))

  given_or : {A : Type 0} → A → Option A → A
  given_or fallback none = fallback
  given_or fallback (some a) = a

  -- parseConfig, with the flags that the command line gives
  unfoldable pub parse_config : Option Str → Option Str → Option Bool → Config
  unfolding given_or
  parse_config http grpc dev = record {
    http_addr = given_or (env_or_default (lit "CLOUDTAP_HTTP_ADDR") (lit ":8080")) http;
    grpc_addr = given_or (env_or_default (lit "CLOUDTAP_GRPC_ADDR") (lit ":9090")) grpc;
    dev_mode = given_or (env_or_bool (lit "CLOUDTAP_DEV_MODE") false) dev;
  }

-- the interface tunnelController
pub record TunnelController (State : Type 0) : Type 0 where
  pub open_target : Context → Instants → Str → State → Option Error × State
  pub close_target : Context → Instant → Str → State → Option Error × State
  pub targets : Context → Instants → State → Result (List Str) × State

-- *tunnel.Manager as a tunnelController
unfoldable pub manager_controller : TunnelController Manager
manager_controller = record {
  open_target = open_tunnel;
  close_target = close_tunnel;
  targets = list_targets;
}

-- the error of a context whose deadline has passed
abbrev pub deadline_exceeded : Error
deadline_exceeded = foreign (lit "context deadline exceeded")

expired : Option Error → Error
expired none = deadline_exceeded
expired (some e) = e

-- context.WithTimeout, called at `start`: from the deadline on it keeps the error of the context if
-- that had ended by then, and its own if not.
unfoldable pub with_timeout : Instant → ℕ → Context → Context
unfolding expired
with_timeout start timeout ctx now =
    let deadline = start + timeout in
    if leb deadline now then some (expired (ctx deadline)) else ctx now

-- What a handler writes: a text with status 200, an error by `http.Error` with a text or with the
-- message of an error value, or the targets as JSON.
pub data HttpReply : Type 0 where
  text : Str → HttpReply
  refused : ℕ → Str → HttpReply
  failure : ℕ → Error → HttpReply
  listing : List Str → HttpReply

-- What a gRPC method returns.
pub data GrpcReply : Type 0 where
  message : Str → GrpcReply
  names : List Str → GrpcReply
  target_required : GrpcReply
  failed : Error → GrpcReply

module _ {State : Type 0} (controller : TunnelController State) where
  reply_or : ℕ → Str → Option Error × State → HttpReply × State
  reply_or status body (some e, s) = (failure status e, s)
  reply_or status body (none, s) = (text body, s)

  -- /proxy
  unfoldable pub http_proxy : Instant → Context → Instants → Str → State → HttpReply × State
  unfolding reply_or
  http_proxy start ctx at target s =
      if target == []
      then (refused 400 (lit "missing target parameter"), s)
      else reply_or 502 (lit "proxy to " ++ target ++ lit " initiated")
          (controller.open_target (with_timeout start (5 * second) ctx) at target s)

  -- /close
  unfoldable pub http_close : Instant → Context → Instant → Str → State → HttpReply × State
  unfolding reply_or
  http_close start ctx now target s =
      if target == []
      then (refused 400 (lit "missing target parameter"), s)
      else reply_or 400 (lit "closed tunnel to " ++ target)
          (controller.close_target (with_timeout start (5 * second) ctx) now target s)

  list_reply : Result (List Str) × State → HttpReply × State
  list_reply (err e, s) = (failure 500 e, s)
  list_reply (ok found, s) = (listing found, s)

  -- /targets; the encoder has no error for a list of strings but one of the connection
  unfoldable pub http_targets : Instant → Context → Instants → State → HttpReply × State
  unfolding list_reply
  http_targets start ctx at s =
      list_reply (controller.targets (with_timeout start (3 * second) ctx) at s)

  message_or : Str → Option Error × State → GrpcReply × State
  message_or body (some e, s) = (failed e, s)
  message_or body (none, s) = (message body, s)

  -- tunnelServer.Open; a request that is nil is `none`
  unfoldable pub grpc_open : Context → Instants → Option Str → State → GrpcReply × State
  unfolding message_or
  grpc_open ctx at none s = (target_required, s)
  grpc_open ctx at (some target) s =
      if target == []
      then (target_required, s)
      else message_or (lit "proxy to " ++ target ++ lit " initiated")
          (controller.open_target ctx at target s)

  -- tunnelServer.Close
  unfoldable pub grpc_close : Context → Instant → Option Str → State → GrpcReply × State
  unfolding message_or
  grpc_close ctx now none s = (target_required, s)
  grpc_close ctx now (some target) s =
      if target == []
      then (target_required, s)
      else message_or (lit "closed tunnel to " ++ target) (controller.close_target ctx now target s)

  names_reply : Result (List Str) × State → GrpcReply × State
  names_reply (err e, s) = (failed e, s)
  names_reply (ok found, s) = (names found, s)

  -- tunnelServer.ListTargets
  unfoldable pub grpc_list_targets : Context → Instants → State → GrpcReply × State
  unfolding names_reply
  grpc_list_targets ctx at s = names_reply (controller.targets ctx at s)
