-- ===== src/Frp/Webhook/Serving.antt =====
-- The life of the webhook server of pkg/adapter/frp/webhook.go, and its HTTP handler. The listener,
-- the shutdown of net/http and the clock of its timeouts are outside.
use cloudtap.Prelude.{
  zero, ◌≡◌, ◌≢◌, ◌↔◌, ◌⊎◌, Bool, true, false, not, Option, none, some, [], arith, if◌then◌else◌,
}
use cloudtap.Prelude.Int.{pos}
use cloudtap.Text.{Str, lit, ◌==◌, eq_iff, has_prefix}
use cloudtap.Time.{Duration}
use cloudtap.Frp.Webhook.{WebhookConfig, WebhookServer}

pub data ConfigError : Type 0 where
  listen_addr_required path_required path_must_start_with_slash : ConfigError

-- DefaultWebhookConfig
abbrev pub default_webhook_config : WebhookConfig
default_webhook_config = record {
  listen_addr = lit "127.0.0.1:9000";
  path = lit "/handler";
  read_timeout = pos 10000000000;
  write_timeout = pos 10000000000;
}

-- WebhookConfig.Validate
unfoldable pub validate_webhook : WebhookConfig → Option ConfigError
validate_webhook c =
    if c.listen_addr == []
    then some listen_addr_required
    else if c.path == []
    then some path_required
    else if not (has_prefix c.path (lit "/"))
    then some path_must_start_with_slash
    else none

abbrev or_text : Str → Str → Str
or_text s fallback = if s == [] then fallback else s

abbrev pub or_duration : Duration → Duration → Duration
or_duration (pos zero) fallback = fallback
or_duration d fallback = d

-- NewWebhookServer
unfoldable pub new_webhook_server : WebhookConfig → WebhookServer
new_webhook_server c = record {
  config = record {
    listen_addr = or_text c.listen_addr (lit "127.0.0.1:9000");
    path = or_text c.path (lit "/handler");
    read_timeout = or_duration c.read_timeout (pos 10000000000);
    write_timeout = or_duration c.write_timeout (pos 10000000000);
  };
  handler = none;
  listening = false;
  serving = false;
  started = false;
  active_connections = [];
  connection_count = 0;
}

-- A server that NewWebhookServer makes has a valid configuration exactly when the given path is
-- empty or begins with a slash.
new_webhook_server-valid_iff :
    (c : WebhookConfig)
    → (validate_webhook (new_webhook_server c).config ≡ none)
      ↔ ((c.path ≡ []) ⊎ (has_prefix c.path (lit "/") ≡ true))
unfolding validate_webhook new_webhook_server ◌==◌ has_prefix
new_webhook_server-valid_iff c = (
  λ h. ground (arith, eq_iff c.path [], eq_iff c.listen_addr []),
  λ h. ground (arith, eq_iff c.path [], eq_iff c.listen_addr []),
)

pub data StartError : Type 0 where
  invalid_config : ConfigError → StartError
  already_started : StartError
  listen_failed : Str → StartError
  shutdown_failed : Str → StartError

-- After `net.Listen`, with its error.
after_listen : WebhookServer → Option Str → Option StartError × WebhookServer
after_listen s (some e) = (some (listen_failed e), record s { started = false })
after_listen s none = (none, record s { listening = true; serving = true })

claim : WebhookServer → Option Str → Bool → Option StartError × WebhookServer
unfolding after_listen
claim s listened true = (some already_started, s)
claim s listened false = after_listen (record s { started = true }) listened

checked : WebhookServer → Option Str → Option ConfigError → Option StartError × WebhookServer
unfolding claim
checked s listened (some e) = (some (invalid_config e), s)
checked s listened none = claim s listened s.started

-- WebhookServer.Start up to its wait for the context; `listened` is the error of `net.Listen`.
unfoldable pub begin_serving : Option Str → WebhookServer → Option StartError × WebhookServer
unfolding checked
begin_serving listened s = checked s listened (validate_webhook s.config)

stopped : WebhookServer → Bool → Option Str → Option StartError × WebhookServer
stopped s true (some e) = (some (shutdown_failed e), s)
stopped s true none = (none, record s { started = false })
stopped s false _ = (none, record s { started = false })

-- shutdown, where `closed` is the error of the HTTP server's Shutdown
unfoldable pub shutdown : Option Str → WebhookServer → Option StartError × WebhookServer
unfolding stopped
shutdown closed s = stopped s s.serving closed

-- WebhookServer.Stop
unfoldable pub stop_webhook : Option Str → WebhookServer → Option StartError × WebhookServer
stop_webhook closed s = if s.started then shutdown closed s else (none, s)

-- A Start that fails before it serves leaves the server exactly as it was, so it can be tried again;
-- one that does not fail needs a valid configuration and a server that is not started, and leaves
-- one that is.
begin_serving_lem :
    (listened : Option Str) (s : WebhookServer)
    → ((begin_serving listened s).0 ≢ none → (begin_serving listened s).1 ≡ s)
      × ((begin_serving listened s).0 ≡ none
          → (validate_webhook s.config ≡ none)
            × (s.started ≡ false)
            × ((begin_serving listened s).1.started ≡ true))
unfolding begin_serving
begin_serving_lem listened s = (λ h. ground arith, λ h. ground arith)

-- Between a successful Start and a Shutdown without error a second Start is refused; after it, Stop
-- changes nothing, and Start has the same result as before.
pub begin-shutdown-begin :
    (listened again closed' : Option Str) (s : WebhookServer)
    → (begin_serving listened s).0 ≡ none
    → ((begin_serving again (begin_serving listened s).1).0 ≡ some already_started)
      × ((shutdown none (begin_serving listened s).1).0 ≡ none)
      × (stop_webhook closed' (shutdown none (begin_serving listened s).1).1
          ≡ (none, (shutdown none (begin_serving listened s).1).1))
      × ((begin_serving listened (shutdown none (begin_serving listened s).1).1).0 ≡ none)
unfolding begin_serving shutdown stop_webhook
begin-shutdown-begin listened again closed' s h =
    (ground arith, ground arith, ground arith, ground arith)
