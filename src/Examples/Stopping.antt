-- ===== src/Examples/Stopping.antt =====
-- An adapter that is started and stopped, step by step.
use cloudtap.Prelude.{◌≡◌, ◌≢◌, refl, true, none, some, is_some, [], arith}
use cloudtap.Prelude.Int.{pos}
use cloudtap.Text.{lit, ◌==◌, has_prefix}
use cloudtap.Adapter.{ConnectionHandler}
use cloudtap.Frp.Webhook.Serving.{begin_serving, shutdown, validate_webhook, new_webhook_server}
use cloudtap.Frp.Adapter.{Adapter, new_adapter, on_connection, validate_config, stop_process}
use cloudtap.Frp.Adapter.Loop.{reset}
use cloudtap.Frp.Adapter.Loop.Processes.{Spawn, start_process, wait_process}
use cloudtap.Frp.Adapter.Lifecycle.{start_checks, start_context, stop}
use cloudtap.Frp.Adapter.Lifecycle.Protocol.{
  Run, Reachable, begin, next, own, called, admits, contexts, goes_on, spawns, stop_begins,
  wait_cut, webhook_begins, webhook_ends, closes_done, stop_returns, sent, after_wait,
}
use cloudtap.Frp.Adapter.Lifecycle.Stopping.{stop_returned}
use cloudtap.Examples.Supervision.{config}

abbrev allows : ConnectionHandler
allows event = record { allowed = true; reason = []; policy = [] }

abbrev fresh_adapter : Adapter
fresh_adapter = on_connection (some allows) (new_adapter config)

abbrev spawn : Spawn
spawn = record {
  stdout_pipe = none;
  stderr_pipe = none;
  started = none;
  process = record { pid = 7 };
}

-- frpc runs, and Stop has been called.
stopping : (b : Run) × Reachable fresh_adapter b × (b.adapter.cancelled ≡ true)
unfolding on_connection new_adapter start_checks start_context stop validate_config ◌==◌ reset
    start_process
stopping = (
  _,
  next
      (next
        (next (next (next begin (called (admits refl))) (called (contexts 5 refl)))
          (own (goes_on _ refl refl)))
        (own (spawns _ spawn _ refl refl)))
      (called (stop_begins refl)),
  refl,
)

loop_over : (b : Run) × Reachable fresh_adapter b × (is_some b.err ≡ true)
unfolding stopping after_wait wait_process
loop_over =
    (_, next stopping.1 (own (wait_cut _ (lit "context canceled") (pos 9) 14 refl refl)), refl)

stop_done : (b : Run) × Reachable fresh_adapter b × (b.stops_returned ≢ 0)
unfolding loop_over begin_serving validate_webhook shutdown has_prefix ◌==◌ stopping after_wait
    wait_process stop_process new_webhook_server
stop_done = (
  _,
  next
      (next
        (next (next loop_over.1 (own (webhook_begins none refl)))
          (own (webhook_ends none refl refl)))
        (own (closes_done refl refl)))
      (called (stop_returns 0 refl refl)),
  λ e. omega arith,
)

stop_returned_example : (is_some stop_done.0.err ≡ true) × (stop_done.0.webhook ≡ sent)
stop_returned_example = stop_returned config (some allows) stop_done.0 stop_done.1 stop_done.2
