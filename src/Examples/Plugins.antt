-- ===== src/Examples/Plugins.antt =====
-- The webhook server at a small library, with a handler that lets only user "alice" through.
use cloudtap.Prelude.{◌≡◌, refl, ◌⊎◌, true, false, none, some, [], ◌∷◌}
use cloudtap.Prelude.Int.{pos}
use cloudtap.Text.{Str, lit, ◌==◌}
use cloudtap.Adapter.{ConnectionEvent, ConnectionHandler}
use cloudtap.Frp.Content.{
  Library, PluginRequest, UserInfo, LoginContent, NewProxyContent, op_new_proxy,
}
use cloudtap.Frp.Webhook.Events.{Fresh, new_proxy_event}
use cloudtap.Frp.Webhook.{WebhookServer, accept, handle_new_proxy, process_request}
use cloudtap.Frp.Webhook.Gate.{IsGated, new_proxy, Unreadable, Decided, process_request-gated}
use cloudtap.Frp.Webhook.Serving.{default_webhook_config}
use cloudtap.Frp.Webhook.Http.{HttpRequest, json, with_op, handle_request, handle_request_allowed}

abbrev alice : UserInfo
alice = record { user = lit "alice"; metas = (lit "team", lit "red") ∷ []; run_id = lit "r1" }

abbrev pub proxy : NewProxyContent
proxy = record {
  user = alice;
  proxy_name = lit "web";
  proxy_type = lit "http";
  use_encryption = true;
  use_compression = false;
  bandwidth_limit = [];
  bandwidth_limit_mode = [];
  group = [];
  group_key = [];
  remote_port = pos 0;
  custom_domains = lit "a.com" ∷ lit "b.com" ∷ [];
  subdomain = [];
  locations = [];
  http_user = [];
  http_pwd = [];
  host_header_rewrite = [];
  headers = [];
  sk = [];
  multiplexer = [];
  metas = (lit "team", lit "blue") ∷ [];
}

abbrev pub hello : LoginContent
hello = record {
  version = lit "0.52";
  hostname = lit "box";
  os = lit "linux";
  arch = lit "amd64";
  user = lit "alice";
  timestamp = pos 0;
  privilege_key = [];
  run_id = lit "r1";
  pool_count = pos 1;
  metas = (lit "team", lit "red") ∷ [];
  client_address = lit "10.0.0.1:7000";
}

abbrev pub request : Str → PluginRequest
request op = record { version = []; op = op; content = [] }

-- Every message decodes; the body of an HTTP request is an operation's name.
abbrev pub library : Library
library = record {
  decode_request = λ body. some (request body);
  decode_login = λ bytes. some hello;
  decode_new_proxy = λ bytes. some proxy;
  decode_close_proxy = λ bytes. some (record { user = alice; proxy_name = lit "web" });
  decode_ping = λ bytes. none;
  decode_new_work_conn = λ bytes. none;
  decode_new_user_conn = λ bytes. none;
  split_host_port = λ addr. some (lit "10.0.0.1", lit "7000");
  scan_port = λ digits. pos 7000;
}

abbrev pub fresh : Fresh
fresh = record { event_id = lit "e1"; connection_uuid = lit "0123456789"; now = 1; tracked = 2 }

abbrev only_alice : ConnectionHandler
only_alice event = record {
  allowed = event.user == lit "alice";
  reason = lit "not alice";
  policy = [];
}

abbrev pub server : WebhookServer
server = record {
  config = default_webhook_config;
  handler = some only_alice;
  listening = true;
  serving = true;
  started = true;
  active_connections = [];
  connection_count = 0;
}

abbrev post : HttpRequest
post = record { method = lit "POST"; query_op = lit "NewProxy"; body = [] }

post_accepted : (handle_request library fresh server post).0 ≡ json accept
unfolding handle_request process_request handle_new_proxy with_op new_proxy_event ◌==◌
post_accepted = refl

post-IsGated : IsGated (with_op (lit "NewProxy") (request [])).op
unfolding with_op ◌==◌
post-IsGated = new_proxy refl

handle_request_allowed_example :
    (event : ConnectionEvent) × ((handle_request library fresh server post).1 ≡ event ∷ [])
    × ((only_alice event).allowed ≡ true)
handle_request_allowed_example =
    handle_request_allowed library fresh server post (request []) only_alice accept refl refl
      post-IsGated post_accepted refl

process_request-gated_example :
    Unreadable server (process_request library fresh server (request op_new_proxy))
    ⊎ Decided only_alice server (process_request library fresh server (request op_new_proxy))
process_request-gated_example =
    process_request-gated library fresh server (request op_new_proxy) only_alice refl
      (new_proxy refl)

abbrev unattended : WebhookServer
unattended = record server { handler = none }
