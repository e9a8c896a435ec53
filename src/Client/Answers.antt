-- ===== src/Client/Answers.antt =====
-- What an answer of cmd/cloudtapctl/main.go tells of the daemon's tunnels.
use cloudtap.Prelude.{◌≡◌, inl, inr, true, none, some, is_some, ◌*◌, arith, Option-cases}
use cloudtap.Text.{Str, lit, eq_refl}
use cloudtap.Time.{Instant, second}
use cloudtap.GoMap.{get}
use cloudtap.Tunnel.{Manager, Context, Instants, open_tunnel, close_tunnel}
use cloudtap.Tunnel.Sessions.{open_tunnel-ok_iff, open_tunnel-active, close_tunnel-active}
use cloudtap.Daemon.{
  manager_controller, with_timeout, http_proxy, http_close, grpc_open, grpc_close,
}
use cloudtap.Client.Settings.{endpoint}
use cloudtap.Client.Link.{
  Codec, Link, to_proxy, to_close, deliver, message_answer, to_response, serve_route,
  daemon_network,
}
use cloudtap.Client.{
  Answer, answered, failed, Runtime, request_tunnel, request_tunnel_grpc, request_tunnel_http,
  close_tunnel_grpc, close_tunnel_http, http_call,
}
use cloudtap.Client

open-is_some :
    (ctx : Context) (at : Instants) (target : Str) (m : Manager)
    → (open_tunnel ctx at target m).0 ≡ none
    → is_some (get target (open_tunnel ctx at target m).1.active) ≡ true
open-is_some ctx at target m h =
    let o = (open_tunnel-ok_iff ctx at target m).0 h in
    ground (arith, open_tunnel-active ctx at target m o.0 o.1 target, eq_refl target)

close-none :
    (ctx : Context) (now : Instant) (target : Str) (m : Manager)
    → (close_tunnel ctx now target m).0 ≡ none
    → get target (close_tunnel ctx now target m).1.active ≡ none
close-none ctx now target m h =
    ground (arith, (close_tunnel-active ctx now target m h).1 target, eq_refl target)

module _ (codec : Codec) (rt : Runtime) where
  -- The daemon's mux and URL parser take apart what httpRequest puts together.
  pub record Routes : Type 0 where
    pub proxies :
        (target : Str)
        → codec.route (
            endpoint codec.trim_space codec.encode_target rt.http_base (lit "/proxy") (some target))
          ≡ to_proxy target
    pub closes :
        (target : Str)
        → codec.route (
            endpoint codec.trim_space codec.encode_target rt.http_base (lit "/close") (some target))
          ≡ to_close target

module _ (codec : Codec) (link : Link) (rt : Runtime) where
  abbrev net : Client.Network Manager
  net = daemon_network codec link

  grpc_open-answered :
      (target body : Str) (m : Manager)
      → (request_tunnel_grpc net rt target m).0 ≡ answered body
      → is_some (get target (request_tunnel_grpc net rt target m).1.active) ≡ true
  unfolding request_tunnel_grpc daemon_network deliver message_answer grpc_open manager_controller
  grpc_open-answered target body m h =
      elim (Option-cases (open_tunnel link.grpc_ctx link.grpc_at target m).0) [
        | inl ok ↦ ground (arith, open-is_some link.grpc_ctx link.grpc_at target m ok)
        | inr (e, bad) ↦ ground arith
      ]

  http_open-answered :
      (target body : Str) (m : Manager)
      → Routes codec rt
      → (request_tunnel_http net rt target m).0 ≡ answered body
      → is_some (get target (request_tunnel_http net rt target m).1.active) ≡ true
  unfolding request_tunnel_http daemon_network deliver to_response http_proxy manager_controller
      http_call serve_route
  http_open-answered target body m routes h =
      elim (Option-cases
        (open_tunnel (with_timeout link.http_start (5 * second) link.http_ctx) link.http_at target
          m).0) [
            | inl ok ↦ ground (
              arith,
              routes.proxies target,
              open-is_some (with_timeout link.http_start (5 * second) link.http_ctx) link.http_at
                  target m ok,
            )
            | inr (e, bad) ↦ ground (arith, routes.proxies target)
          ]

  grpc_close-answered :
      (target body : Str) (m : Manager)
      → (close_tunnel_grpc net rt target m).0 ≡ answered body
      → get target (close_tunnel_grpc net rt target m).1.active ≡ none
  unfolding close_tunnel_grpc daemon_network deliver message_answer grpc_close manager_controller
  grpc_close-answered target body m h =
      elim (Option-cases (close_tunnel link.grpc_ctx link.grpc_at.entered target m).0) [
        | inl ok ↦ ground (arith, close-none link.grpc_ctx link.grpc_at.entered target m ok)
        | inr (e, bad) ↦ ground arith
      ]

  http_close-answered :
      (target body : Str) (m : Manager)
      → Routes codec rt
      → (close_tunnel_http net rt target m).0 ≡ answered body
      → get target (close_tunnel_http net rt target m).1.active ≡ none
  unfolding close_tunnel_http daemon_network deliver to_response http_close manager_controller
      http_call serve_route
  http_close-answered target body m routes h =
      elim (Option-cases
        (close_tunnel (with_timeout link.http_start (5 * second) link.http_ctx) link.http_at.entered
          target m).0) [
            | inl ok ↦ ground (
              arith,
              routes.closes target,
              close-none (with_timeout link.http_start (5 * second) link.http_ctx)
                  link.http_at.entered target m ok,
            )
            | inr (e, bad) ↦ ground (arith, routes.closes target)
          ]

  -- Whatever messages are lost on the way: where requestTunnel returns no error, the daemon has an open
  -- tunnel of the target.
  pub request_tunnel-answered :
      (target body : Str) (m : Manager)
      → Routes codec rt
      → (request_tunnel net rt target m).0 ≡ answered body
      → is_some (get target (request_tunnel net rt target m).1.active) ≡ true
  unfolding request_tunnel
  request_tunnel-answered target body m routes h = ground (
    arith,
    grpc_open-answered target body m,
    http_open-answered target body (request_tunnel_grpc net rt target m).1 routes,
  )

  -- Whatever messages are lost on the way: where closeTunnel returns no error, the daemon has no tunnel
  -- of the target.
  pub close_tunnel-answered :
      (target body : Str) (m : Manager)
      → Routes codec rt
      → (Client.close_tunnel net rt target m).0 ≡ answered body
      → get target (Client.close_tunnel net rt target m).1.active ≡ none
  unfolding Client.close_tunnel
  close_tunnel-answered target body m routes h = ground (
    arith,
    grpc_close-answered target body m,
    http_close-answered target body (close_tunnel_grpc net rt target m).1 routes,
  )
