-- ===== src/Frp/Adapter/Lifecycle.antt =====
-- Start and Stop of pkg/adapter/frp/adapter.go.
pub mod Once
pub mod Returning
pub mod Protocol
pub mod Invariant
pub mod Settling
pub mod Children
pub mod Stopping
use cloudtap.Prelude.{Bool, true, false, ◌||◌, Option, none, some, List, if◌then◌else◌, is_some}
use cloudtap.Text.{Str}
use cloudtap.Time.{Instant}
use cloudtap.Adapter.{
  ConnectionHandler, SentinelError, handler_not_set, already_started, not_started,
}
use cloudtap.Frp.Webhook.Serving.{StartError, begin_serving, shutdown}
use cloudtap.Frp.Adapter.{ConfigError, Adapter, validate_config}
use cloudtap.Frp.Adapter.Loop.{Round, LoopState, Ending, Progress, going, finished, run_loop}

pub data StartFailure : Type 0 where
  invalid_config : ConfigError → StartFailure
  sentinel : SentinelError → StartFailure

swap_started : Bool → Adapter → Option StartFailure × Adapter
swap_started true a = (some (sentinel already_started), a)
swap_started false a = (none, record a { started = true })

check_handler : Option ConnectionHandler → Adapter → Option StartFailure × Adapter
unfolding swap_started
check_handler none a = (some (sentinel handler_not_set), a)
check_handler (some h) a = swap_started a.started a

check_config : Option ConfigError → Adapter → Option StartFailure × Adapter
unfolding check_handler
check_config (some e) a = (some (invalid_config e), a)
check_config none a = check_handler a.handler a

-- Start, up to the swap of `started`.
unfoldable pub start_checks : Adapter → Option StartFailure × Adapter
unfolding check_config
start_checks a = check_config (validate_config a.config) a

-- Start, from there to the process loop: `a.cancel` and `a.startedAt` are set.
unfoldable pub start_context : Instant → Adapter → Adapter
start_context now a = record a { has_cancel = true; started_at = now }

-- Stop; `expired` is the error of its context if that ends before `doneChan` is closed.
pub data StopResult : Type 0 where
  refused : SentinelError → StopResult
  graceful : StopResult
  timed_out : Str → StopResult

await_done : Option Str → StopResult
await_done none = graceful
await_done (some e) = timed_out e

swap_stopped : Bool → Option Str → Adapter → StopResult × Adapter
unfolding await_done
swap_stopped true expired a = (refused not_started, a)
swap_stopped false expired a =
    (await_done expired, record a { stopped = true; cancelled = a.cancelled || a.has_cancel })

unfoldable pub stop : Option Str → Adapter → StopResult × Adapter
unfolding swap_stopped
stop expired a = if a.started then swap_stopped a.stopped expired a else (refused not_started, a)

-- How far a call of Start has come: refused; in the loop; returned what the loop returned; or the
-- loop has returned, and Start waits for the webhook server.
pub data StartOutcome : Type 0 where
  rejected : StartFailure → StartOutcome
  looping : LoopState → StartOutcome
  returned : Ending → StartOutcome
  blocked : Ending → StartOutcome

-- What the outside gives a call of Start: the error of the webhook's `net.Listen`, the rounds of the
-- loop so far, whether the context ends, and the error of the HTTP server's Shutdown.
pub record Surroundings : Type 0 where
  pub now : Instant
  pub listened : Option Str
  pub rounds : List Round
  pub context_ends : Bool
  pub closed : Option Str

-- `<-webhookErrChan` and `close(a.doneChan)`. The webhook's Start has returned if it failed before
-- it served; else it waits for the context and shuts down.
await_webhook : Surroundings → Option StartError → Ending → Adapter → StartOutcome × Adapter
await_webhook w (some e) ending a = (returned ending, record a { done = true })
await_webhook w none ending a =
    if w.context_ends
    then (returned ending, record a { webhook = (shutdown w.closed a.webhook).1; done = true })
    else (blocked ending, a)

after_loop : Surroundings → Option StartError → Progress → StartOutcome × Adapter
unfolding await_webhook
after_loop w e (going l a) = (looping l, a)
after_loop w e (finished ending a) = await_webhook w e ending a

serve_and_loop : Surroundings → Option StartError × Adapter → StartOutcome × Adapter
unfolding after_loop
serve_and_loop w (e, a) = after_loop w e (run_loop w.rounds a)

unfoldable pub with_webhook : Surroundings → Adapter → Option StartError × Adapter
with_webhook w a =
    let (e, server) = begin_serving w.listened a.webhook in (e, record a { webhook = server })

admitted : Surroundings → Option StartFailure × Adapter → StartOutcome × Adapter
unfolding serve_and_loop with_webhook start_context
admitted w (some e, a) = (rejected e, a)
admitted w (none, a) = serve_and_loop w (with_webhook w (start_context w.now a))

-- Start
unfoldable pub start : Surroundings → Adapter → StartOutcome × Adapter
unfolding admitted
start w a = admitted w (start_checks a)
