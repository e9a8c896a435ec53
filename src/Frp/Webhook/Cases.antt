-- ===== src/Frp/Webhook/Cases.antt =====
-- How the webhook server can look after a request of pkg/adapter/frp/webhook.go.
use cloudtap.Prelude.{◌≡◌, refl, false, Option, none, some, inl, inr, Bool-cases, arith}
use cloudtap.Text.{◌==◌}
use cloudtap.Adapter.{ConnectionHandler}
use cloudtap.Frp.Content.{
  Library, PluginRequest, LoginContent, PingContent, NewWorkConnContent, NewUserConnContent,
  op_login, op_new_proxy, op_close_proxy, op_ping, op_new_work_conn, op_new_user_conn,
}
use cloudtap.Frp.Webhook.Events.{Fresh}
use cloudtap.Frp.Webhook.{
  WebhookServer, handle_login, handle_close_proxy, handle_ping, handle_new_work_conn,
  handle_new_user_conn, process_request,
}

module _ (lib : Library) (fresh : Fresh) (s : WebhookServer) where
  login-server :
      (c : Option LoginContent) (h : Option ConnectionHandler)
      → (handle_login lib fresh s c h).server ≡ s
  unfolding handle_login
  login-server none h = refl
  login-server (some l) none = refl
  login-server (some l) (some h) = ground arith

  ping-server : (c : Option PingContent) → (handle_ping lib fresh s c).server ≡ s
  unfolding handle_ping
  ping-server none = refl
  ping-server (some c) = refl

  new_work_conn-server :
      (c : Option NewWorkConnContent) → (handle_new_work_conn lib fresh s c).server ≡ s
  unfolding handle_new_work_conn
  new_work_conn-server none = refl
  new_work_conn-server (some c) = refl

  new_user_conn-server :
      (c : Option NewUserConnContent) (h : Option ConnectionHandler)
      → (handle_new_user_conn lib fresh s c h).server ≡ s
  unfolding handle_new_user_conn
  new_user_conn-server none h = refl
  new_user_conn-server (some c) none = refl
  new_user_conn-server (some c) (some h) = ground arith

  -- A request that is no NewProxy leaves the server as it was, or closes a proxy.
  pub other_cases {ℓ} :
      (P : WebhookServer → Type ℓ) (req : PluginRequest)
      → req.op == op_new_proxy ≡ false
      → P s
      → P (handle_close_proxy lib fresh s (lib.decode_close_proxy req.content) s.handler).server
      → P (process_request lib fresh s req).server
  unfolding process_request
  other_cases P req n kept closed = elim (Bool-cases (req.op == op_login)) [
    | inl e ↦ rw e (rw login-server kept)
    | inr l ↦ elim (Bool-cases (req.op == op_close_proxy)) [
      | inl e ↦ rw (l, n, e) closed
      | inr c ↦ elim (Bool-cases (req.op == op_ping)) [
        | inl e ↦ rw (l, n, c, e) (rw ping-server kept)
        | inr p ↦ elim (Bool-cases (req.op == op_new_work_conn)) [
          | inl e ↦ rw (l, n, c, p, e) (rw new_work_conn-server kept)
          | inr w ↦ elim (Bool-cases (req.op == op_new_user_conn)) [
            | inl e ↦ rw (l, n, c, p, w, e) (rw new_user_conn-server kept)
            | inr u ↦ rw (l, n, c, p, w, u) kept
          ]
        ]
      ]
    ]
  ]
