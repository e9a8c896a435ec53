-- ===== src/Frp/Webhook/Http.antt =====
-- handleRequest of pkg/adapter/frp/webhook.go: from an HTTP request to the reply.
use cloudtap.Prelude.{
  ◌≡◌, ◌≢◌, ◌⊎◌, inl, inr, true, false, Option, none, some, List, [], ◌∷◌, arith, if◌then◌else◌,
}
use cloudtap.Text.{Str, lit, ◌==◌, eq_iff}
use cloudtap.Adapter.{ConnectionEvent, ConnectionHandler}
use cloudtap.Frp.Content.{Library, PluginRequest, PluginResponse}
use cloudtap.Frp.Webhook.Events.{Fresh}
use cloudtap.Frp.Webhook.Gate.{IsGated, process_request-gated}
use cloudtap.Frp.Webhook.{WebhookServer, Outcome, reject_with, reply, process_request}

-- the method, the "op" of the query, and the body
pub record HttpRequest : Type 0 where
  pub method : Str
  pub query_op : Str
  pub body : Str

pub data HttpReply : Type 0 where
  method_not_allowed : HttpReply
  json : PluginResponse → HttpReply

-- `if req.Op == "" { req.Op = op }`
unfoldable pub with_op : Str → PluginRequest → PluginRequest
with_op query_op req = record req { op = if req.op == [] then query_op else req.op }

module _ (lib : Library) (fresh : Fresh) where
  body_outcome : WebhookServer → Str → Option PluginRequest → Outcome
  body_outcome s query_op none = reply s (reject_with (lit "invalid request body"))
  body_outcome s query_op (some req) = process_request lib fresh s (with_op query_op req)

  answer : Outcome → HttpReply × List ConnectionEvent × WebhookServer
  answer o = (json o.response, o.delivered, o.server)

  -- handleRequest
  unfoldable pub handle_request :
      WebhookServer → HttpRequest → HttpReply × List ConnectionEvent × WebhookServer
  unfolding body_outcome answer
  handle_request s r =
      if r.method == lit "POST"
      then answer (body_outcome s r.query_op (lib.decode_request r.body))
      else (method_not_allowed, [], s)

  -- Only a POST with a body that decodes reaches an operation: any other HTTP request delivers no
  -- event, changes nothing, and is answered with an error or a rejection.
  handle_request_refused :
      (s : WebhookServer) (r : HttpRequest)
      → (r.method ≢ lit "POST") ⊎ (lib.decode_request r.body ≡ none)
      → ((handle_request s r).1 ≡ [])
        × ((handle_request s r).2 ≡ s)
        × (((handle_request s r).0 ≡ method_not_allowed)
            ⊎ ((handle_request s r).0 ≡ json (reject_with (lit "invalid request body"))))
  unfolding handle_request
  handle_request_refused s r h = ground (arith, eq_iff r.method (lit "POST"))

  -- An HTTP reply that lets a Login, NewProxy or NewUserConn through, while a handler is registered,
  -- means that the handler was shown exactly one event and allowed it.
  pub handle_request_allowed :
      (s : WebhookServer) (r : HttpRequest) (req : PluginRequest) (handler : ConnectionHandler)
      (p : PluginResponse)
      → lib.decode_request r.body ≡ some req
      → s.handler ≡ some handler
      → IsGated (with_op r.query_op req).op
      → (handle_request s r).0 ≡ json p
      → p.reject ≡ false
      → (event : ConnectionEvent) × ((handle_request s r).1 ≡ event ∷ [])
        × ((handler event).allowed ≡ true)
  unfolding handle_request
  handle_request_allowed s r req handler p read h gated j let_through =
      elim (process_request-gated lib fresh s (with_op r.query_op req) handler h gated) [
        | inl u ↦ absurd (ground (arith, u.rejected))
        | inr d ↦ (d.event, ground (arith, d.delivered), ground (arith, d.answered))
      ]
