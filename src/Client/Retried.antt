-- ===== src/Client/Retried.antt =====
-- The second attempt of cmd/cloudtapctl/main.go, after a gRPC call that was carried out.
use cloudtap.Prelude.{
  ◌≡◌, ◌≢◌, ◌<◌, ◌+◌, ◌*◌, none, some, is_some, true, [], ◌++◌, arith, Option-cases, inl, inr,
}
use cloudtap.Text.{Str, lit, eq_iff, eq_refl}
use cloudtap.Time.{second}
use cloudtap.GoMap.{get}
use cloudtap.Tunnel.{Manager, no_active_tunnel, close_tunnel}
use cloudtap.Tunnel.Sessions.{
  close_tunnel-active, close_tunnel-ok_iff, close_tunnel_failed, close_missing,
}
use cloudtap.Daemon.{manager_controller, with_timeout, http_close, grpc_close}
use cloudtap.Daemon.Handlers.{with_timeout-live}
use cloudtap.Client.Link.{Codec, Link, deliver, to_response, serve_route, daemon_network}
use cloudtap.Client.Answers.{Routes}
use cloudtap.Client.{
  Answer, answered, failed, http_status, fallback_failed, Runtime, close_tunnel_grpc,
  close_tunnel_http, http_call,
}
use cloudtap.Client

-- The gRPC call arrives and its reply is lost; the HTTP request and its reply arrive.
pub record LosesReply (link : Link) : Type 0 where
  pub error : Str
  pub dials : link.dialed ≡ none
  pub call_arrives : link.grpc_lost ≡ none
  pub reply_lost : link.grpc_reply_lost ≡ some error
  pub request_arrives : link.http_lost ≡ none
  pub response_arrives : link.http_reply_lost ≡ none
  pub grpc_live : link.grpc_ctx link.grpc_at.entered ≡ none
  pub http_live : link.http_ctx link.http_at.entered ≡ none
  pub in_time : link.http_at.entered < link.http_start + 5 * second

module _ (codec : Codec) (link : Link) (rt : Runtime) (lost : LosesReply link) (target : Str)
    (m : Manager) where
  abbrev after : Manager
  after = (close_tunnel link.grpc_ctx link.grpc_at.entered target m).1

  grpc_lost :
      target ≢ []
      → (close_tunnel_grpc (daemon_network codec link) rt target m)
        ≡ (failed (Client.transport lost.error), after)
  unfolding close_tunnel_grpc daemon_network deliver grpc_close manager_controller
  grpc_lost given =
      elim (Option-cases (close_tunnel link.grpc_ctx link.grpc_at.entered target m).0) [
        | inl e ↦ ground (arith, lost.dials, lost.call_arrives, lost.reply_lost, eq_iff target [])
        | inr (e, bad) ↦
            ground (arith, lost.dials, lost.call_arrives, lost.reply_lost, eq_iff target [])
      ]

  http_late :
      target ≢ []
      → Routes codec rt
      → get target after.active ≡ none
      → close_tunnel_http (daemon_network codec link) rt target after ≡ (
        failed (
            http_status 400
              (codec.trim_space (codec.show_error (no_active_tunnel target) ++ lit "\n"))),
        after,
      )
  unfolding close_tunnel_http daemon_network deliver to_response http_close manager_controller
      http_call serve_route
  http_late given routes gone =
      let ctx = with_timeout link.http_start (5 * second) link.http_ctx in
      let live =
        with_timeout-live link.http_start link.http_at.entered (5 * second) link.http_ctx
          lost.http_live lost.in_time in
      let missing = close_missing ctx link.http_at.entered target after live gone in
      let kept = close_tunnel_failed ctx link.http_at.entered target after (λ e. cc) in
      ground (
        arith,
        lost.request_arrives,
        lost.response_arrives,
        routes.closes target,
        missing,
        kept,
        eq_iff target [],
      )

  -- If the daemon has a tunnel of the target, and the reply of the gRPC call is the one message that is
  -- lost, then `close` fails with the daemon's "no active tunnel", though it has closed the tunnel.
  pub close_tunnel-LosesReply :
      target ≢ []
      → Routes codec rt
      → is_some (get target m.active) ≡ true
      → ((Client.close_tunnel (daemon_network codec link) rt target m).0
          ≡ failed (
              fallback_failed (
                http_status 400
                  (codec.trim_space (codec.show_error (no_active_tunnel target) ++ lit "\n")))))
        × (get target (Client.close_tunnel (daemon_network codec link) rt target m).1.active ≡ none)
  unfolding Client.close_tunnel
  close_tunnel-LosesReply given routes there =
      let closed =
        (close_tunnel-ok_iff link.grpc_ctx link.grpc_at.entered target m).1
          (lost.grpc_live, there) in
      let gone : get target after.active ≡ none = ground (
        arith,
        (close_tunnel-active link.grpc_ctx link.grpc_at.entered target m closed).1 target,
        eq_refl target,
      ) in
      ground (arith, grpc_lost given, http_late given routes gone, gone)
