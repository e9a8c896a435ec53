-- ===== src/Daemon/Shutdown.antt =====
-- The two servers and main of cmd/cloudtapd/main.go: what their errors make of the process. The sockets
-- and the servers of net/http and grpc are outside.
use cloudtap.Prelude.{
  ◌≡◌, ◌↔◌, Bool, true, false, Option, none, some, List, [], ◌∷◌, ◌++◌, if◌then◌else◌, arith,
}
use cloudtap.Text.{Str}

-- What the select of runHTTPServer meets: the end of the context, then the error of Shutdown and that of
-- ListenAndServe; or the error of ListenAndServe before.
pub data HttpRun : Type 0 where
  cancelled : Option Str → Option Str → HttpRun
  served : Option Str → HttpRun

-- What runGRPCServer meets: the error of net.Listen, or else the error of Serve.
pub data GrpcRun : Type 0 where
  not_listening : Str → GrpcRun
  served : Option Str → GrpcRun

-- An error of a server, as main wraps it.
pub data ServerError : Type 0 where
  http_server : Str → ServerError
  grpc_server : Str → ServerError

-- `is_closed e` and `is_stopped e` are errors.Is with http.ErrServerClosed and grpc.ErrServerStopped.
module _ (is_closed is_stopped : Str → Bool) where
  -- the error, unless there is none or it is the one that is expected
  unexpected : (Str → Bool) → Option Str → Option Str
  unexpected expected none = none
  unexpected expected (some e) = if expected e then none else some e

  or_then : Option Str → Option Str → Option Str
  or_then (some e) next = some e
  or_then none next = next

  -- runHTTPServer
  unfoldable pub run_http_server : HttpRun → Option Str
  unfolding unexpected or_then
  run_http_server (cancelled shutdown serve) =
      or_then (unexpected is_closed shutdown) (unexpected is_closed serve)
  run_http_server (HttpRun.served serve) = unexpected is_closed serve

  -- runGRPCServer
  unfoldable pub run_grpc_server : GrpcRun → Option Str
  unfolding unexpected
  run_grpc_server (not_listening e) = some e
  run_grpc_server (GrpcRun.served serve) = unexpected is_stopped serve

  http_errors : Option Str → List ServerError
  http_errors none = []
  http_errors (some e) = http_server e ∷ []

  grpc_errors : Option Str → List ServerError
  grpc_errors none = []
  grpc_errors (some e) = grpc_server e ∷ []

  -- What the channel of main holds until it is closed; `http_first` is the order of the goroutines.
  unfoldable pub server_errs : Bool → HttpRun → GrpcRun → List ServerError
  unfolding http_errors grpc_errors
  server_errs http_first h g =
      if http_first
      then http_errors (run_http_server h) ++ grpc_errors (run_grpc_server g)
      else grpc_errors (run_grpc_server g) ++ http_errors (run_http_server h)

  -- for err := range serverErrs { ... }
  drain : Option ServerError → List ServerError → Option ServerError
  drain fatal [] = fatal
  drain none (e ∷ es) = drain (some e) es
  drain (some f) (e ∷ es) = drain (some f) es

  -- The select and the loop; `signalled` is the choice of the select. A receive from the closed channel
  -- gives nil.
  after_select : Bool → List ServerError → Option ServerError
  unfolding drain
  after_select true errs = drain none errs
  after_select false [] = none
  after_select false (e ∷ es) = drain (some e) es

  -- main, from the start of the servers: the error of log.Fatalf
  unfoldable pub main_error : Bool → Bool → HttpRun → GrpcRun → Option ServerError
  unfolding after_select http_errors grpc_errors drain
  main_error signalled http_first h g = after_select signalled (server_errs http_first h g)

  collected :
      (signalled http_first : Bool) (x y : Option Str)
      → (after_select signalled
            (if http_first then http_errors x ++ grpc_errors y else grpc_errors y ++ http_errors x)
          ≡ none)
        ↔ ((x ≡ none) × (y ≡ none))
  unfolding after_select http_errors grpc_errors drain
  collected signalled http_first x y = (λ h. ground arith, λ h. ground arith)

  -- Whichever server returns first, and whether main looks at the signal or at the channel: the process
  -- stops cleanly exactly when both servers do.
  pub main_error-none_iff :
      (signalled http_first : Bool) (h : HttpRun) (g : GrpcRun)
      → (main_error signalled http_first h g ≡ none)
        ↔ ((run_http_server h ≡ none) × (run_grpc_server g ≡ none))
  unfolding main_error server_errs
  main_error-none_iff signalled http_first h g =
      collected signalled http_first (run_http_server h) (run_grpc_server g)
