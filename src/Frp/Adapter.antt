-- ===== src/Frp/Adapter.antt =====
-- pkg/adapter/frp/adapter.go: the configuration and the state of the frp adapter, and its methods
-- but for the process loop.
pub mod Loop
pub mod Rounds
pub mod Retries
pub mod Streak
pub mod Backoff
pub mod Lifecycle
pub mod Flags
use cloudtap.Prelude.{
  ℕ, zero, suc, ◌+◌, ◌*◌, ◌-◌, ◌%◌, ◌^◌, Bool, true, false, ◌&&◌, not, Option, none, some, List, [],
  ◌∷◌, if◌then◌else◌, ltb,
}
use cloudtap.Prelude.Int.{ℤ, pos, negsuc, ltb_ℤ}
use cloudtap.Text.{Str, lit, ◌==◌}
use cloudtap.Time.{Instant, Duration, zero_time, since}
use cloudtap.Adapter.{
  ConnectionHandler, SentinelError, handler_not_set, already_started, not_started, Status,
}
use cloudtap.Frp.Webhook.{WebhookConfig, WebhookServer, int32, increment}
use cloudtap.Frp.Webhook.Serving.{new_webhook_server, or_duration, default_webhook_config}

pub record Config : Type 0 where
  pub frpc_path : Str
  pub config_path : Str
  pub restart_delay : Duration
  pub max_restart_delay : Duration
  pub max_retries : ℤ
  pub webhook : WebhookConfig

pub data ConfigError : Type 0 where
  frpc_path_required config_path_required : ConfigError
  restart_delay_negative max_restart_delay_negative max_retries_negative : ConfigError

-- DefaultConfig
abbrev pub default_config : Config
default_config = record {
  frpc_path = [];
  config_path = [];
  restart_delay = pos 1000000000;
  max_restart_delay = pos 300000000000;
  max_retries = pos 10;
  webhook = default_webhook_config;
}

abbrev is_negative : ℤ → Bool
is_negative d = ltb_ℤ d (pos 0)

-- Config.Validate
unfoldable pub validate_config : Config → Option ConfigError
validate_config c =
    if c.frpc_path == []
    then some frpc_path_required
    else if c.config_path == []
    then some config_path_required
    else if is_negative c.restart_delay
    then some restart_delay_negative
    else if is_negative c.max_restart_delay
    then some max_restart_delay_negative
    else if is_negative c.max_retries
    then some max_retries_negative
    else none

-- A started frpc, `cmd` with a process.
pub record Process : Type 0 where
  pub pid : ℕ

pub record Adapter : Type 0 where
  pub config : Config
  pub handler : Option ConnectionHandler
  pub started : Bool
  pub stopped : Bool
  pub cmd : Option Process
  pub started_at : Instant
  pub webhook : WebhookServer
  -- the bits of an atomic.Int32
  pub reconnect_attempts : ℕ
  pub last_error : Option Str
  pub last_error_at : Option Instant
  -- `cancel` is not nil, was called, and `doneChan` is closed
  pub has_cancel : Bool
  pub cancelled : Bool
  pub done : Bool

with_defaults : Config → Config
with_defaults c = record c {
  restart_delay = or_duration c.restart_delay (pos 1000000000);
  max_restart_delay = or_duration c.max_restart_delay (pos 300000000000);
  max_retries = or_duration c.max_retries (pos 10);
}

-- New
unfoldable pub new_adapter : Config → Adapter
unfolding with_defaults
new_adapter c = record {
  config = with_defaults c;
  handler = none;
  started = false;
  stopped = false;
  cmd = none;
  started_at = zero_time;
  webhook = new_webhook_server c.webhook;
  reconnect_attempts = 0;
  last_error = none;
  last_error_at = none;
  has_cancel = false;
  cancelled = false;
  done = false;
}

-- OnConnection; the webhook server of an adapter that New made is not nil
unfoldable pub on_connection : Option ConnectionHandler → Adapter → Adapter
on_connection h a = record a { handler = h; webhook = record a.webhook { handler = h } }

-- setLastError
unfoldable pub set_last_error : Str → Instant → Adapter → Adapter
set_last_error e now a = record a { last_error = some e; last_error_at = some now }

-- stopProcess; the signals that it sends are outside
unfoldable pub stop_process : Adapter → Adapter
stop_process a = record a { cmd = none }

-- `probe` tells whether signal 0 reaches a process.
module _ (probe : Process → Bool) (whole_seconds : Duration → ℤ) where
  runs : Option Process → Bool
  runs none = false
  runs (some p) = probe p

  -- isProcessRunning
  unfoldable pub is_process_running : Adapter → Bool
  unfolding runs
  is_process_running a = runs a.cmd

  uptime : Instant → Instant → ℤ
  uptime now zero = pos 0
  uptime now (suc t) = whole_seconds (since now (suc t))

  or_empty : Option Str → Str
  or_empty none = []
  or_empty (some e) = e

  or_zero : Option Instant → Instant
  or_zero none = zero_time
  or_zero (some t) = t

  -- Status
  unfoldable pub status : Instant → Adapter → Status
  unfolding is_process_running uptime or_empty or_zero
  status now a = record {
    type = lit "frp";
    connected = a.started && not a.stopped && is_process_running a;
    started_at = a.started_at;
    uptime_seconds = uptime now a.started_at;
    active_connections = int32 a.webhook.connection_count;
    reconnect_attempts = int32 a.reconnect_attempts;
    backend_endpoint = a.config.webhook.listen_addr;
    last_error = or_empty a.last_error;
    last_error_at = or_zero a.last_error_at;
  }
