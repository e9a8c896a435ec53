-- ===== src/Examples/Commands.antt =====
-- cmd/cloudtapctl against the daemon of Services, over links that lose a message.
use cloudtap.Prelude.{
  Option, ◌≡◌, refl, ◌↔◌, ◌⊎◌, inl, inr, ◌*◌, ◌++◌, ℕ, zero, suc, if◌then◌else◌, Bool, true, false,
  none, some, is_some, [], ◌∷◌, arith,
}
use cloudtap.Text.{Str, lit, ◌==◌, has_prefix}
use cloudtap.Time.{second, since}
use cloudtap.GoMap.{get, put}
use cloudtap.Tunnel.{
  Manager, static_source, simulated_dialer, index, ensure_targets, open_tunnel, close_tunnel,
  connect,
}
use cloudtap.Daemon.{with_timeout, manager_controller, http_proxy, http_close}
use cloudtap.Client.Settings.{
  with_http, IsHost, trim_right_slash, sanitize_http_base, endpoint, sanitize_http_base-Typed,
}
use cloudtap.Client.Tls.{
  TlsConfig, configured, Built, build_tls_config, bearer, credentials_of, build_tls_config-Built,
}
use cloudtap.Client.Outcome.{Done, main-Done}
use cloudtap.Client.Command.{
  printed, target_missing, without_target, dispatch, main, main-Unsent, Flags, runtime,
  authorizations_sent,
}
use cloudtap.Client.Link.{
  Codec, Link, Route, to_proxy, to_close, to_targets, deliver, to_response, serve_route,
  daemon_network,
}
use cloudtap.Client.Answers.{Routes}
use cloudtap.Client.Retried.{LosesReply, close_tunnel-LosesReply}
use cloudtap.Client.{
  answered, failed, http_status, fallback_failed, Runtime, dial_options, grpc_context, http_call,
  request_tunnel, close_tunnel as close_command, request_tunnel_grpc, request_tunnel_http,
  close_tunnel_http, close_tunnel_grpc,
}
use cloudtap.Examples.Services.{service, background, times, manager}

-- a base address with a space is not given here
abbrev unspaced : Str → Str
unspaced s = s

host : IsHost (lit "edge:8080")
unfolding trim_right_slash has_prefix ◌==◌
host = record { given = λ e. cc; no_slash = refl; no_colon = refl }

sanitize_http_base-Typed_example :
    sanitize_http_base unspaced (lit "http://edge:8080//") ≡ lit "http://edge:8080"
sanitize_http_base-Typed_example =
    sanitize_http_base-Typed unspaced (lit "http://edge:8080//") (lit "edge:8080")
      (lit "http://edge:8080") 2 host (with_http refl refl)

abbrev pair_of : Str → Str → Str ⊎ Str
pair_of cert key = inr (cert ++ key)

abbrev bytes_of : Str → Str ⊎ Str
bytes_of path = inr path

abbrev any : Str → Bool
any s = true

abbrev tls_config : TlsConfig
tls_config = record {
  insecure_skip_verify = false;
  certificate = some (lit "c.pemk.pem");
  root_cas = none;
}

build_tls_config-Built_example :
    (build_tls_config pair_of bytes_of any (lit "c.pem") (lit "k.pem") [] false
      ≡ configured (some tls_config))
    ↔ Built pair_of bytes_of any (lit "c.pem") (lit "k.pem") [] false tls_config
build_tls_config-Built_example =
    build_tls_config-Built pair_of bytes_of any (lit "c.pem") (lit "k.pem") [] false tls_config

abbrev flags : Flags
flags = record {
  server = lit "d:9090";
  http_url = lit "http://d";
  token = lit "t0";
  tls_cert = [];
  tls_key = [];
  ca_cert = [];
  insecure_skip_verify = false;
  arguments = lit "close" ∷ lit "svc" ∷ [];
}

drop : ℕ → Str → Str
drop zero s = s
drop (suc n) [] = []
drop (suc n) (c ∷ s) = drop n s

route : Str → Route
unfolding drop
route s =
    if has_prefix s (lit "http://d/proxy?target=")
    then to_proxy (drop 22 s)
    else if has_prefix s (lit "http://d/close?target=")
    then to_close (drop 22 s)
    else to_targets

abbrev codec : Codec
codec = record {
  show_error = λ e. lit "failed";
  encode_targets = λ ts. [];
  decode_targets = λ s. none;
  encode_target = λ t. lit "target=" ++ t;
  route = route;
  trim_space = unspaced;
}

-- gRPC is unreachable, and HTTP works.
abbrev http_only : Link
http_only = record {
  dialed = some (lit "refused");
  grpc_lost = none;
  grpc_reply_lost = none;
  grpc_ctx = background;
  grpc_at = times;
  http_lost = none;
  http_reply_lost = none;
  http_start = 3600 * second;
  http_ctx = background;
  http_at = times;
}

-- The reply of the gRPC call is lost.
abbrev reply_lost : Link
reply_lost = record http_only { dialed = none; grpc_reply_lost = some (lit "reset") }

abbrev rt : Runtime
rt = runtime flags none

authorizations_sent_example :
    ((http_call
        (daemon_network codec http_only)
        (runtime flags none)
        (lit "/proxy")
        (some (lit "svc"))).authorization
      ≡ (if lit "t0" == [] then none else some (bearer (lit "t0"))))
    × (grpc_context rt ++ credentials_of (dial_options rt)
        ≡ (if lit "t0" == [] then [] else bearer (lit "t0") ∷ bearer (lit "t0") ∷ []))
authorizations_sent_example =
    authorizations_sent (daemon_network codec http_only) flags none (lit "/proxy")
      (some (lit "svc"))

every_routes : (tls : Option TlsConfig) → Routes codec (runtime flags tls)
unfolding route endpoint sanitize_http_base trim_right_slash has_prefix ◌==◌ runtime
every_routes tls = record { proxies = λ t. refl; closes = λ t. refl }

proxied :
    (request_tunnel (daemon_network codec http_only) rt (lit "svc") manager).0
    ≡ answered (lit "proxy to svc initiated")
unfolding request_tunnel request_tunnel_grpc daemon_network request_tunnel_http deliver serve_route
    route has_prefix http_call endpoint sanitize_http_base ◌==◌ runtime trim_right_slash http_proxy
    manager_controller open_tunnel ensure_targets to_response with_timeout drop get put since
    connect index static_source simulated_dialer background
proxied = refl

loses_reply : LosesReply reply_lost
unfolding background
loses_reply = record {
  error = lit "reset";
  dials = refl;
  call_arrives = refl;
  reply_lost = refl;
  request_arrives = refl;
  response_arrives = refl;
  grpc_live = refl;
  http_live = refl;
  in_time = omega arith;
}

-- the manager with the tunnel open
abbrev serving : Manager
serving = record manager {
  active = (lit "svc", record { target = service; opened_at = 3601 * second }) ∷ [];
}

closed :
    (close_command (daemon_network codec http_only) rt (lit "svc") serving).0
    ≡ answered (lit "closed tunnel to svc")
unfolding close_command close_tunnel_grpc daemon_network close_tunnel_http deliver serve_route route
    has_prefix http_call endpoint sanitize_http_base ◌==◌ runtime trim_right_slash http_close
    manager_controller close_tunnel to_response with_timeout drop get background
closed = refl

there : is_some (get (lit "svc") serving.active) ≡ true
unfolding get ◌==◌
there = refl

close_tunnel-LosesReply_example :
    ((close_command (daemon_network codec reply_lost) rt (lit "svc") serving).0
      ≡ failed (fallback_failed (http_status 400 (lit "failed\n"))))
    × (get
          (lit "svc")
          (close_command (daemon_network codec reply_lost) rt (lit "svc") serving).1.active
        ≡ none)
close_tunnel-LosesReply_example =
    close_tunnel-LosesReply codec reply_lost rt loses_reply (lit "svc") serving (λ e. cc)
      (every_routes none) there

closed_by_main :
    (main (λ client. daemon_network codec http_only) pair_of bytes_of any flags serving).0
    ≡ printed (lit "closed tunnel to svc" ∷ [])
unfolding main dispatch build_tls_config close_command close_tunnel_grpc daemon_network
    close_tunnel_http deliver serve_route route has_prefix http_call endpoint sanitize_http_base
    ◌==◌ runtime trim_right_slash http_close manager_controller close_tunnel to_response
    with_timeout drop get background
closed_by_main = refl

main-Done_example :
    Done
      (lit "close")
      (lit "svc")
      (main (λ client. daemon_network codec http_only) pair_of bytes_of any flags serving).1
main-Done_example =
    main-Done codec http_only pair_of bytes_of any flags (lit "close") (lit "svc") []
      (lit "closed tunnel to svc" ∷ []) serving every_routes refl (inr refl) closed_by_main

abbrev no_target : Flags
no_target = record flags { arguments = lit "proxy" ∷ [] }

no_tls :
    build_tls_config pair_of bytes_of any no_target.tls_cert no_target.tls_key no_target.ca_cert
      no_target.insecure_skip_verify
    ≡ configured none
unfolding build_tls_config ◌==◌
no_tls = refl

main-Unsent_example :
    main (λ client. daemon_network codec http_only) pair_of bytes_of any no_target serving
    ≡ (target_missing (lit "proxy"), serving)
main-Unsent_example =
    main-Unsent (λ client. daemon_network codec http_only) pair_of bytes_of any no_target
      (target_missing (lit "proxy")) serving
      (without_target (lit "proxy") [] none refl no_tls (inl refl) (inl refl))
