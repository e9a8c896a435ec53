-- ===== src/Examples/Services.antt =====
-- The handlers of cmd/cloudtapd over a manager with the target "svc".
use cloudtap.Prelude.{
  true, false, ◌≡◌, ◌↔◌, ◌*◌, refl, if◌then◌else◌, none, some, [], ◌∷◌, ◌++◌, arith,
}
use cloudtap.Prelude.Int.{pos}
use cloudtap.Text.{Str, lit, ◌==◌}
use cloudtap.Time.{second, since}
use cloudtap.GoMap.{get, put}
use cloudtap.Tunnel.{
  Target, Manager, Context, Instants, static_source, simulated_dialer, index, ensure_targets,
  connect, open_tunnel, new_default_manager,
}
use cloudtap.Daemon.{
  text, with_timeout, manager_controller, http_proxy, http_close, http_targets, grpc_open,
  grpc_close, grpc_list_targets,
}
use cloudtap.Daemon.Shutdown.{
  cancelled, not_listening, run_http_server, run_grpc_server, main_error, main_error-none_iff,
}
use cloudtap.Daemon.Handlers.{to_grpc, http-grpc, http_close-http_proxy}
use cloudtap.Daemon.Demo.{boots, ensures, Reaches, http_proxy-demo_iff}

abbrev pub service : Target
service = record {
  name = lit "svc";
  address = lit "tcp://h:1";
  protocol = lit "grpc";
  labels = [];
  description = [];
}

unfoldable pub background : Context
background now = none

-- The request comes an hour after the zero time, and the dial takes a second.
abbrev pub times : Instants
times = record {
  entered = 3600 * second;
  compared = 3600 * second;
  fetched = 3600 * second;
  stamped = 3600 * second;
  dialed = 3600 * second;
  opened = 3601 * second;
}

abbrev pub manager : Manager
manager = record {
  targets = [];
  active = [];
  source = some (static_source (service ∷ []));
  dialer = simulated_dialer;
  refresh_interval = pos (30 * second);
  last_refresh = 0;
}

service_proxied :
    (http_proxy manager_controller (3600 * second) background times (lit "svc") manager).0
    ≡ text (lit "proxy to " ++ lit "svc" ++ lit " initiated")
unfolding http_proxy manager_controller open_tunnel background ◌==◌ ensure_targets with_timeout
    since static_source connect get index put simulated_dialer
service_proxied = refl

http-grpc_example :
    ((
      to_grpc
          (http_proxy manager_controller (3600 * second) background times (lit "svc") manager).0,
      (http_proxy manager_controller (3600 * second) background times (lit "svc") manager).1,
    )
      ≡ grpc_open manager_controller
          (with_timeout (3600 * second) (5 * second) background)
          times
          (some (lit "svc"))
          manager)
    × ((
      to_grpc
          (http_close manager_controller
            (3600 * second)
            background
            (3600 * second)
            (lit "svc")
            manager).0,
      (http_close manager_controller
          (3600 * second)
          background
          (3600 * second)
          (lit "svc")
          manager).1,
    )
        ≡ grpc_close manager_controller
            (with_timeout (3600 * second) (5 * second) background)
            (3600 * second)
            (some (lit "svc"))
            manager)
    × ((
      to_grpc (http_targets manager_controller (3600 * second) background times manager).0,
      (http_targets manager_controller (3600 * second) background times manager).1,
    )
        ≡ grpc_list_targets manager_controller
            (with_timeout (3600 * second) (3 * second) background)
            times
            manager)
http-grpc_example =
    http-grpc manager_controller (3600 * second) (3600 * second) background times (lit "svc")
      manager

-- the daemon after a refresh
abbrev refreshed : Manager
refreshed = (ensure_targets background times new_default_manager).1

http_proxy-demo_iff_example :
    ((http_proxy manager_controller
        (3600 * second)
        background
        times
        (lit "logs-gateway")
        refreshed).0
      ≡ text (lit "proxy to " ++ lit "logs-gateway" ++ lit " initiated"))
    ↔ Reaches
        (with_timeout (3600 * second) (5 * second) background)
        times
        (lit "logs-gateway")
        refreshed
http_proxy-demo_iff_example =
    http_proxy-demo_iff refreshed (ensures background times boots) (3600 * second) background times
      (lit "logs-gateway")

is_live : background (3610 * second) ≡ none
unfolding background
is_live = refl

http_close-http_proxy_example :
    ((http_close manager_controller
        (3610 * second)
        background
        (3610 * second)
        (lit "svc")
        (http_proxy manager_controller (3600 * second) background times (lit "svc") manager).1).0
      ≡ text (lit "closed tunnel to " ++ lit "svc"))
    × ((k : Str)
        → get k
            (http_close manager_controller
              (3610 * second)
              background
              (3610 * second)
              (lit "svc")
              (http_proxy manager_controller
                (3600 * second)
                background
                times
                (lit "svc")
                manager).1).1.active
          ≡ (if lit "svc" == k then none else get k []))
http_close-http_proxy_example =
    http_close-http_proxy (3600 * second) (3610 * second) (3610 * second) background background
      times (lit "svc") manager service_proxied is_live (omega arith)

-- main sees the end of the gRPC server before the signal.
main_error-none_iff_example :
    (main_error
        (λ e. true)
        (λ e. false)
        false
        false
        (cancelled none (some (lit "closed")))
        (not_listening (lit "in use"))
      ≡ none)
    ↔ ((run_http_server (λ e. true) (λ e. false) (cancelled none (some (lit "closed"))) ≡ none)
        × (run_grpc_server (λ e. true) (λ e. false) (not_listening (lit "in use")) ≡ none))
main_error-none_iff_example =
    main_error-none_iff (λ e. true) (λ e. false) false false (cancelled none (some (lit "closed")))
      (not_listening (lit "in use"))
