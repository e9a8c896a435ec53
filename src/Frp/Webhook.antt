-- ===== src/Frp/Webhook.antt =====
-- The webhook server of pkg/adapter/frp/webhook.go. A handler of an operation returns the response,
-- the events that it passed to the connection handler, and the new server.
pub mod Events
pub mod Cases
pub mod Gate
pub mod Metadata
pub mod Tracking
pub mod Closing
pub mod Serving
pub mod Http
pub mod Concurrent
use cloudtap.Prelude.{
  ℕ, ◌+◌, ◌-◌, ◌%◌, Bool, true, false, Option, none, some, List, [], ◌∷◌, ◌++◌, if◌then◌else◌, not,
}
use cloudtap.Prelude.Int.{ℤ, pos, sub_ℕ, ltb_ℤ}
use cloudtap.Text.{Str, lit, ◌==◌, has_prefix}
use cloudtap.Time.{Instant, Duration, second}
use cloudtap.GoMap.{GoMap, get, put, delete}
use cloudtap.Adapter.{ConnectionEvent, ConnectionHandler, Decision}
use cloudtap.Frp.Content.{
  Library, PluginRequest, PluginResponse, LoginContent, NewProxyContent, CloseProxyContent,
  PingContent, NewWorkConnContent, NewUserConnContent, op_login, op_new_proxy, op_close_proxy,
  op_ping, op_new_work_conn, op_new_user_conn, connection_key,
}
use Events.{Fresh, login_event, new_proxy_event, close_proxy_event, new_user_conn_event}

pub record WebhookConfig : Type 0 where
  pub listen_addr : Str
  pub path : Str
  pub read_timeout : Duration
  pub write_timeout : Duration

pub record ConnectionState : Type 0 where
  pub connection_id : Str
  pub user : Str
  pub proxy_name : Str
  pub proxy_type : Str
  pub started_at : Instant

pub record WebhookServer : Type 0 where
  pub config : WebhookConfig
  pub handler : Option ConnectionHandler
  -- `listener` and `server` are not nil
  pub listening : Bool
  pub serving : Bool
  pub started : Bool
  pub active_connections : GoMap ConnectionState
  -- the bits of an atomic.Int32
  pub connection_count : ℕ

-- `x.Add(1)` and `x.Add(-1)` wrap at 32 bits; `int(x.Load())` reads two's complement.
abbrev pub int32_mod : ℕ
int32_mod = 4294967296

abbrev pub increment : ℕ → ℕ
increment n = (n + 1) % int32_mod

abbrev pub decrement : ℕ → ℕ
decrement n = (n + (int32_mod - 1)) % int32_mod

abbrev pub int32 : ℕ → ℤ
int32 n = if ltb_ℤ (pos n) (pos 2147483648) then pos n else sub_ℕ n int32_mod

abbrev pub accept : PluginResponse
accept = record { reject = false; reject_reason = []; unchange = true; content = [] }

abbrev pub reject_with : Str → PluginResponse
reject_with reason = record {
  reject = true;
  reject_reason = reason;
  unchange = false;
  content = [];
}

pub record Outcome : Type 0 where
  pub response : PluginResponse
  pub delivered : List ConnectionEvent
  pub server : WebhookServer

-- An outcome with no event and no change.
abbrev pub reply : WebhookServer → PluginResponse → Outcome
reply s r = record { response = r; delivered = []; server = s }

-- `decision := handler(event)`, the test of `decision.Allowed`, and what happens if it holds.
gated : WebhookServer → ConnectionEvent → Decision → WebhookServer → Outcome
gated s event decision allowed = record {
  response = if decision.allowed then accept else reject_with decision.reason;
  delivered = event ∷ [];
  server = if decision.allowed then allowed else s;
}

-- the state that handleNewProxy stores
unfoldable pub tracked_state : Instant → NewProxyContent → ConnectionState
tracked_state now p = record {
  connection_id = connection_key p.user.run_id p.proxy_name;
  user = p.user.user;
  proxy_name = p.proxy_name;
  proxy_type = p.proxy_type;
  started_at = now;
}

-- Storing the state and counting it, in handleNewProxy.
unfoldable pub track : Instant → NewProxyContent → WebhookServer → WebhookServer
track now p s = record s {
  active_connections =
      put (connection_key p.user.run_id p.proxy_name) (tracked_state now p) s.active_connections;
  connection_count = increment s.connection_count;
}

untrack_found : Str → Option ConnectionState → WebhookServer → WebhookServer
untrack_found key none s = s
untrack_found key (some _) s = record s {
  active_connections = delete key s.active_connections;
  connection_count = decrement s.connection_count;
}

-- `LoadAndDelete` and the count, in handleCloseProxy.
unfoldable pub untrack : Str → WebhookServer → WebhookServer
unfolding untrack_found
untrack key s = untrack_found key (get key s.active_connections) s

module _ (lib : Library) (fresh : Fresh) where
  -- handleLogin
  unfoldable pub handle_login :
      WebhookServer → Option LoginContent → Option ConnectionHandler → Outcome
  unfolding gated
  handle_login s none handler = reply s (reject_with (lit "invalid login content"))
  handle_login s (some l) none = reply s accept
  handle_login s (some l) (some handler) =
      let event = login_event lib fresh l in gated s event (handler event) s

  -- handleNewProxy
  unfoldable pub handle_new_proxy :
      WebhookServer → Option NewProxyContent → Option ConnectionHandler → Outcome
  unfolding gated track
  handle_new_proxy s none handler = reply s (reject_with (lit "invalid proxy content"))
  handle_new_proxy s (some p) none = reply s accept
  handle_new_proxy s (some p) (some handler) =
      let event = new_proxy_event fresh p in gated s event (handler event) (track fresh.tracked p s)

  -- handleCloseProxy; the handler's decision is ignored
  unfoldable pub handle_close_proxy :
      WebhookServer → Option CloseProxyContent → Option ConnectionHandler → Outcome
  unfolding untrack
  handle_close_proxy s none handler = reply s accept
  handle_close_proxy s (some c) none =
      reply (untrack (connection_key c.user.run_id c.proxy_name) s) accept
  handle_close_proxy s (some c) (some handler) = record {
    response = accept;
    delivered = close_proxy_event fresh c ∷ [];
    server = untrack (connection_key c.user.run_id c.proxy_name) s;
  }

  -- handlePing
  unfoldable pub handle_ping : WebhookServer → Option PingContent → Outcome
  handle_ping s none = reply s accept
  handle_ping s (some _) = reply s accept

  -- handleNewWorkConn
  unfoldable pub handle_new_work_conn : WebhookServer → Option NewWorkConnContent → Outcome
  handle_new_work_conn s none = reply s (reject_with (lit "invalid work conn content"))
  handle_new_work_conn s (some _) = reply s accept

  -- handleNewUserConn
  unfoldable pub handle_new_user_conn :
      WebhookServer → Option NewUserConnContent → Option ConnectionHandler → Outcome
  unfolding gated
  handle_new_user_conn s none handler = reply s (reject_with (lit "invalid user conn content"))
  handle_new_user_conn s (some c) none = reply s accept
  handle_new_user_conn s (some c) (some handler) =
      let event = new_user_conn_event lib fresh c in gated s event (handler event) s

  -- processRequest
  unfoldable pub process_request : WebhookServer → PluginRequest → Outcome
  process_request s req =
      if req.op == op_login
      then handle_login s (lib.decode_login req.content) s.handler
      else if req.op == op_new_proxy
      then handle_new_proxy s (lib.decode_new_proxy req.content) s.handler
      else if req.op == op_close_proxy
      then handle_close_proxy s (lib.decode_close_proxy req.content) s.handler
      else if req.op == op_ping
      then handle_ping s (lib.decode_ping req.content)
      else if req.op == op_new_work_conn
      then handle_new_work_conn s (lib.decode_new_work_conn req.content)
      else if req.op == op_new_user_conn
      then handle_new_user_conn s (lib.decode_new_user_conn req.content) s.handler
      else reply s accept
