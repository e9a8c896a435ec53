-- ===== src/Client/Link.antt =====
-- The daemon of cmd/cloudtapd/main.go as the other side of cmd/cloudtapctl/main.go. The routes are
-- those that runHTTPServer registers; the messages may be lost on the way.
use cloudtap.Prelude.{◌++◌, Option, none, some, List, []}
use cloudtap.Text.{Str, lit}
use cloudtap.Time.{Instant}
use cloudtap.Tunnel.{Error, Manager, Context, Instants}
use cloudtap.Daemon.{
  HttpReply, text, refused, failure, listing, GrpcReply, message, names, target_required,
  failed as grpc_failed, manager_controller, http_proxy, http_close, http_targets, grpc_open,
  grpc_close, grpc_list_targets,
}
use cloudtap.Client.{transport, Answer, answered, failed, HttpResponse, Network}

-- What a URL asks of the daemon: one of its handlers with the "target" of the query, or no handler.
pub data Route : Type 0 where
  to_proxy : Str → Route
  to_close : Str → Route
  to_targets : Route
  not_found : Route

-- The texts of errors, the two ends of the JSON and of the URLs, and strings.TrimSpace.
pub record Codec : Type 0 where
  pub show_error : Error → Str
  pub encode_targets : List Str → Str
  pub decode_targets : Str → Option (List Str)
  pub encode_target : Str → Str
  pub route : Str → Route
  pub trim_space : Str → Str

-- How the messages of one request fare. `none` is a message that arrives; an error is what the client
-- gets in its place.
pub record Link : Type 0 where
  pub dialed : Option Str
  pub grpc_lost : Option Str
  pub grpc_reply_lost : Option Str
  pub grpc_ctx : Context
  pub grpc_at : Instants
  pub http_lost : Option Str
  pub http_reply_lost : Option Str
  pub http_start : Instant
  pub http_ctx : Context
  pub http_at : Instants

-- Over a link that loses the request, the reply or neither.
unfoldable pub deliver :
    {A : Type 0} → Option Str → Option Str → Manager → Answer A × Manager → Answer A × Manager
deliver (some e) lost m call = (failed (transport e), m)
deliver none (some e) m (answer, m') = (failed (transport e), m')
deliver none none m call = call

module _ (codec : Codec) where
  -- the errors that gRPC makes of a method's error
  unfoldable pub message_answer : GrpcReply → Answer Str
  message_answer (message body) = answered body
  message_answer (names found) = failed (transport [])
  message_answer target_required = failed (transport (lit "target is required"))
  message_answer (grpc_failed e) = failed (transport (codec.show_error e))

  unfoldable pub names_answer : GrpcReply → Answer (List Str)
  names_answer (names found) = answered found
  names_answer (message body) = failed (transport [])
  names_answer target_required = failed (transport (lit "target is required"))
  names_answer (grpc_failed e) = failed (transport (codec.show_error e))

  unfoldable pub to_response : HttpReply → HttpResponse
  to_response (text body) = record { status = 200; body = body }
  to_response (refused status body) = record { status = status; body = body ++ lit "\n" }
  to_response (failure status e) = record { status = status; body = codec.show_error e ++ lit "\n" }
  to_response (listing found) = record { status = 200; body = codec.encode_targets found }

  module _ (link : Link) where
    http_answer : HttpReply × Manager → Answer HttpResponse × Manager
    unfolding to_response
    http_answer (reply, m) = (answered (to_response reply), m)

    unfoldable pub serve_route : Route → Manager → Answer HttpResponse × Manager
    unfolding http_answer
    serve_route (to_proxy target) m =
        http_answer
          (http_proxy manager_controller link.http_start link.http_ctx link.http_at target m)
    serve_route (to_close target) m =
        http_answer (
          http_close manager_controller link.http_start link.http_ctx link.http_at.entered target m)
    serve_route to_targets m =
        http_answer (http_targets manager_controller link.http_start link.http_ctx link.http_at m)
    serve_route not_found m =
        (answered (record { status = 404; body = lit "404 page not found" }), m)

    string_answer : GrpcReply × Manager → Answer Str × Manager
    unfolding message_answer
    string_answer (reply, m) = (message_answer reply, m)

    list_answer : GrpcReply × Manager → Answer (List Str) × Manager
    unfolding names_answer
    list_answer (reply, m) = (names_answer reply, m)

    unfoldable pub daemon_network : Network Manager
    unfolding string_answer list_answer
    daemon_network = record {
      dial = λ options addr. link.dialed;
      call_open = λ options context target m.
          deliver link.grpc_lost link.grpc_reply_lost m (
            string_answer
              (grpc_open manager_controller link.grpc_ctx link.grpc_at (some target) m));
      call_close = λ options context target m. deliver link.grpc_lost link.grpc_reply_lost m (
          string_answer
            (grpc_close manager_controller link.grpc_ctx link.grpc_at.entered (some target) m));
      call_list = λ options context m.
          deliver link.grpc_lost link.grpc_reply_lost m
            (list_answer (grpc_list_targets manager_controller link.grpc_ctx link.grpc_at m));
      do_http = λ call m.
          deliver link.http_lost link.http_reply_lost m (serve_route (codec.route call.url) m);
      encode_target = codec.encode_target;
      decode_targets = codec.decode_targets;
      trim_space = codec.trim_space;
    }
