-- ===== src/Frp/Webhook/Gate.antt =====
-- Who decides about a plugin request: processRequest of pkg/adapter/frp/webhook.go.
use cloudtap.Prelude.{
  ◌≡◌, ◌≢◌, refl, ap, ◌∙◌, ◌⊎◌, inl, inr, true, false, Option, none, some, [], ◌∷◌, arith,
  if◌then◌else◌,
}
use cloudtap.Text.{Str, ◌==◌, eq_iff}
use cloudtap.Adapter.{ConnectionEvent, ConnectionHandler}
use cloudtap.Frp.Content.{
  Library, PluginRequest, LoginContent, NewProxyContent, NewUserConnContent, op_login, op_new_proxy,
  op_close_proxy, op_ping, op_new_work_conn, op_new_user_conn,
}
use cloudtap.Frp.Webhook.Events.{Fresh, login_event, new_proxy_event, new_user_conn_event}
use cloudtap.Frp.Webhook.{
  WebhookServer, Outcome, gated, track, reply, accept, reject_with, handle_login, handle_new_proxy,
  handle_close_proxy, handle_ping, handle_new_work_conn, handle_new_user_conn, process_request,
}

new_proxy_ne_login : op_new_proxy == op_login ≡ false
unfolding ◌==◌
new_proxy_ne_login = refl

new_user_conn_ne :
    (op_new_user_conn == op_login ≡ false)
    × (op_new_user_conn == op_new_proxy ≡ false)
    × (op_new_user_conn == op_close_proxy ≡ false)
    × (op_new_user_conn == op_ping ≡ false)
    × (op_new_user_conn == op_new_work_conn ≡ false)
unfolding ◌==◌
new_user_conn_ne = (refl, refl, refl, refl, refl)

-- The operations that a connection handler decides.
pub data IsGated (op : Str) : Type 0 where
  login : op ≡ op_login → IsGated op
  new_proxy : op ≡ op_new_proxy → IsGated op
  new_user_conn : op ≡ op_new_user_conn → IsGated op

-- The handler saw one event, and the response is its decision; a denial changes nothing.
pub record Decided (handler : ConnectionHandler) (s : WebhookServer) (o : Outcome) : Type 0 where
  pub event : ConnectionEvent
  pub delivered : o.delivered ≡ event ∷ []
  pub answered :
      o.response ≡ (if (handler event).allowed then accept else reject_with (handler event).reason)
  pub denied_unchanged : o.server ≡ (if (handler event).allowed then o.server else s)

-- The message could not be read: it is rejected, no handler sees it, and nothing changes.
pub record Unreadable (s : WebhookServer) (o : Outcome) : Type 0 where
  pub rejected : o.response.reject ≡ true
  pub undelivered : o.delivered ≡ []
  pub unchanged : o.server ≡ s

gated-Decided :
    (handler : ConnectionHandler) (s allowed : WebhookServer) (event : ConnectionEvent)
    → Decided handler s (gated s event (handler event) allowed)
unfolding gated
gated-Decided handler s allowed event = record {
  event = event;
  delivered = refl;
  answered = refl;
  denied_unchanged = ground arith;
}

reply-Unreadable :
    (s : WebhookServer) (message : Str) → Unreadable s (reply s (reject_with message))
reply-Unreadable s message = record { rejected = refl; undelivered = refl; unchanged = refl }

module _ (lib : Library) (fresh : Fresh) (s : WebhookServer) (handler : ConnectionHandler) where
  login-Decided :
      (c : Option LoginContent)
      → Unreadable s (handle_login lib fresh s c (some handler))
        ⊎ Decided handler s (handle_login lib fresh s c (some handler))
  unfolding handle_login
  login-Decided none = inl (reply-Unreadable s _)
  login-Decided (some l) = inr (gated-Decided handler s s (login_event lib fresh l))

  new_proxy-Decided :
      (c : Option NewProxyContent)
      → Unreadable s (handle_new_proxy lib fresh s c (some handler))
        ⊎ Decided handler s (handle_new_proxy lib fresh s c (some handler))
  unfolding handle_new_proxy
  new_proxy-Decided none = inl (reply-Unreadable s _)
  new_proxy-Decided (some p) =
      inr (gated-Decided handler s (track fresh.tracked p s) (new_proxy_event fresh p))

  new_user_conn-Decided :
      (c : Option NewUserConnContent)
      → Unreadable s (handle_new_user_conn lib fresh s c (some handler))
        ⊎ Decided handler s (handle_new_user_conn lib fresh s c (some handler))
  unfolding handle_new_user_conn
  new_user_conn-Decided none = inl (reply-Unreadable s _)
  new_user_conn-Decided (some c) = inr (gated-Decided handler s s (new_user_conn_event lib fresh c))

module _ (lib : Library) (fresh : Fresh) (s : WebhookServer) (req : PluginRequest) where
  process-login :
      req.op ≡ op_login
      → process_request lib fresh s req
        ≡ handle_login lib fresh s (lib.decode_login req.content) s.handler
  unfolding process_request
  process-login e = rw ((eq_iff req.op op_login).1 e)

  pub process-new_proxy :
      req.op ≡ op_new_proxy
      → process_request lib fresh s req
        ≡ handle_new_proxy lib fresh s (lib.decode_new_proxy req.content) s.handler
  unfolding process_request
  process-new_proxy e =
      rw ((ap (λ o. o == op_login) e ∙ new_proxy_ne_login), (eq_iff req.op op_new_proxy).1 e)

  process-new_user_conn :
      req.op ≡ op_new_user_conn
      → process_request lib fresh s req
        ≡ handle_new_user_conn lib fresh s (lib.decode_new_user_conn req.content) s.handler
  unfolding process_request
  process-new_user_conn e =
      let ne = new_user_conn_ne in
      rw (
        ap (λ o. o == op_login) e ∙ ne.0,
        ap (λ o. o == op_new_proxy) e ∙ ne.1,
        ap (λ o. o == op_close_proxy) e ∙ ne.2,
        ap (λ o. o == op_ping) e ∙ ne.3,
        ap (λ o. o == op_new_work_conn) e ∙ ne.4,
        (eq_iff req.op op_new_user_conn).1 e,
      )

  -- With a handler registered, a Login, NewProxy or NewUserConn request is either unreadable, and
  -- then rejected with no event and no change, or the handler sees exactly one event, the response
  -- is its decision, a denial with its reason, and a denial changes nothing.
  pub process_request-gated :
      (handler : ConnectionHandler)
      → s.handler ≡ some handler
      → IsGated req.op
      → Unreadable s (process_request lib fresh s req)
        ⊎ Decided handler s (process_request lib fresh s req)
  process_request-gated handler h (login e) =
      let content = lib.decode_login req.content in
      rw (process-login e ∙ ap (handle_login lib fresh s content) h)
        (login-Decided lib fresh s handler content)
  process_request-gated handler h (new_proxy e) =
      let content = lib.decode_new_proxy req.content in
      rw (process-new_proxy e ∙ ap (handle_new_proxy lib fresh s content) h)
        (new_proxy-Decided lib fresh s handler content)
  process_request-gated handler h (new_user_conn e) =
      let content = lib.decode_new_user_conn req.content in
      rw (process-new_user_conn e ∙ ap (handle_new_user_conn lib fresh s content) h)
        (new_user_conn-Decided lib fresh s handler content)

  -- A request of any operation but Login, NewProxy, NewWorkConn and NewUserConn is accepted,
  -- whatever its content, the handler and the state are.
  process_request_ungated :
      req.op ≢ op_login
      → req.op ≢ op_new_proxy
      → req.op ≢ op_new_work_conn
      → req.op ≢ op_new_user_conn
      → (process_request lib fresh s req).response ≡ accept
  unfolding process_request handle_close_proxy handle_ping
  process_request_ungated a b c d = ground (
    arith,
    eq_iff req.op op_login,
    eq_iff req.op op_new_proxy,
    eq_iff req.op op_new_work_conn,
    eq_iff req.op op_new_user_conn,
  )

  -- With no handler registered no event is delivered, and the request is accepted unless it is a
  -- Login, NewProxy, NewWorkConn or NewUserConn whose content cannot be read.
  process_request_no_handler :
      s.handler ≡ none
      → ((process_request lib fresh s req).delivered ≡ [])
        × (((process_request lib fresh s req).response ≡ accept)
            ⊎ ((req.op ≡ op_login) × (lib.decode_login req.content ≡ none))
            ⊎ ((req.op ≡ op_new_proxy) × (lib.decode_new_proxy req.content ≡ none))
            ⊎ ((req.op ≡ op_new_work_conn) × (lib.decode_new_work_conn req.content ≡ none))
            ⊎ ((req.op ≡ op_new_user_conn) × (lib.decode_new_user_conn req.content ≡ none)))
  unfolding process_request handle_login handle_new_proxy handle_close_proxy handle_ping
      handle_new_work_conn handle_new_user_conn
  process_request_no_handler h = ground (
    arith,
    eq_iff req.op op_login,
    eq_iff req.op op_new_proxy,
    eq_iff req.op op_new_work_conn,
    eq_iff req.op op_new_user_conn,
  )
