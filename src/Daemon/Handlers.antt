-- ===== src/Daemon/Handlers.antt =====
-- The two services of cmd/cloudtapd/main.go, against each other and over the tunnel manager.
use cloudtap.Prelude.{◌≡◌, ◌≢◌, ◌↔◌, ◌*◌, ◌+◌, ◌<◌, ℕ, if◌then◌else◌, ◌++◌, none, some, [], arith}
use cloudtap.Text.{Str, lit, ◌==◌, eq_iff}
use cloudtap.Time.{Instant, second}
use cloudtap.GoMap.{get}
use cloudtap.Tunnel.{Target, Manager, Context, Instants}
use cloudtap.Tunnel.Sessions.{Opened, open_tunnel-ok_iff, close-open}
use cloudtap.Daemon.{
  TunnelController, HttpReply, text, refused, failure, listing, GrpcReply, message, names,
  target_required, failed, with_timeout, manager_controller, http_proxy, http_close, http_targets,
  grpc_open, grpc_close, grpc_list_targets,
}

-- The gRPC reply that says the same as an HTTP reply.
unfoldable pub to_grpc : HttpReply → GrpcReply
to_grpc (text body) = message body
to_grpc (refused status body) = target_required
to_grpc (failure status e) = failed e
to_grpc (listing found) = names found

module _ {State : Type 0} (controller : TunnelController State) where
  -- Over any tunnel controller the three HTTP handlers say and do what the three gRPC methods say and
  -- do in the context with the handler's timeout: the replies correspond, and the states are equal.
  pub http-grpc :
      (start now : Instant) (ctx : Context) (at : Instants) (target : Str) (s : State)
      → ((
        to_grpc (http_proxy controller start ctx at target s).0,
        (http_proxy controller start ctx at target s).1,
      )
          ≡ grpc_open controller (with_timeout start (5 * second) ctx) at (some target) s)
        × ((
          to_grpc (http_close controller start ctx now target s).0,
          (http_close controller start ctx now target s).1,
        )
            ≡ grpc_close controller (with_timeout start (5 * second) ctx) now (some target) s)
        × ((
          to_grpc (http_targets controller start ctx at s).0,
          (http_targets controller start ctx at s).1,
        )
            ≡ grpc_list_targets controller (with_timeout start (3 * second) ctx) at s)
  unfolding to_grpc http_proxy http_close http_targets grpc_open grpc_close grpc_list_targets
  http-grpc start now ctx at target s = (ground arith, ground arith, ground arith)

-- /proxy answers that the proxy is initiated exactly when the target is not empty and Open, within
-- five seconds of the request, finds the target in the cache and reaches it.
http_proxy-text_iff :
    (start : Instant) (ctx : Context) (at : Instants) (target : Str) (m : Manager)
    → ((http_proxy manager_controller start ctx at target m).0
        ≡ text (lit "proxy to " ++ target ++ lit " initiated"))
      ↔ ((target ≢ [])
          × ((info : Target) × Opened (with_timeout start (5 * second) ctx) at target m info))
unfolding http_proxy manager_controller
http_proxy-text_iff start ctx at target m =
    let opens = open_tunnel-ok_iff (with_timeout start (5 * second) ctx) at target m in
    (
      λ h. (ground (arith, eq_iff target []), opens.0 (ground arith)),
      λ o. ground (arith, eq_iff target [], o.0, opens.1 o.1),
    )

pub with_timeout-live :
    (start now : Instant) (timeout : ℕ) (ctx : Context)
    → ctx now ≡ none
    → now < start + timeout
    → with_timeout start timeout ctx now ≡ none
unfolding with_timeout
with_timeout-live start now timeout ctx live in_time = ground arith

-- After a /proxy that is initiated, a /close of the same target whose context is live, and whose five
-- seconds have not passed when Close looks, answers that the tunnel is closed, and every lookup of the
-- other tunnels is what it was before the /proxy.
pub http_close-http_proxy :
    (start start' now : Instant) (ctx later : Context) (at : Instants) (target : Str) (m : Manager)
    → (http_proxy manager_controller start ctx at target m).0
      ≡ text (lit "proxy to " ++ target ++ lit " initiated")
    → later now ≡ none
    → now < start' + 5 * second
    → ((http_close manager_controller start' later now target
          (http_proxy manager_controller start ctx at target m).1).0
        ≡ text (lit "closed tunnel to " ++ target))
      × ((k : Str)
          → get k
              (http_close manager_controller start' later now target
                (http_proxy manager_controller start ctx at target m).1).1.active
            ≡ (if target == k then none else get k m.active))
unfolding http_proxy http_close manager_controller
http_close-http_proxy start start' now ctx later at target m h live in_time =
    let given = ((http_proxy-text_iff start ctx at target m).0 h).0 in
    let opened =
      (open_tunnel-ok_iff (with_timeout start (5 * second) ctx) at target m).1
        ((http_proxy-text_iff start ctx at target m).0 h).1 in
    let unexpired = with_timeout-live start' now (5 * second) later live in_time in
    let closed =
      close-open (with_timeout start (5 * second) ctx) at target m
        (with_timeout start' (5 * second) later) now now opened unexpired unexpired in
    (
      ground (arith, given, opened, closed.0, eq_iff target []),
      λ k. ground (arith, given, opened, closed.1 k, eq_iff target []),
    )
