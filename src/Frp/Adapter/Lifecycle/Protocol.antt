-- ===== src/Frp/Adapter/Lifecycle/Protocol.antt =====
-- Start and Stop of pkg/adapter/frp/adapter.go as they run at once: the steps of the Start that is let
-- through, at each of the places where it can wait, of the goroutine of the webhook server's Start, and of
-- any callers of Stop.
use cloudtap.Prelude.{ℕ, suc, ◌≡◌, Bool, true, false, ◌||◌, Option, none, some, is_some}
use cloudtap.Text.{Str}
use cloudtap.Time.{Instant, Duration}
use cloudtap.Frp.Webhook.Serving.{begin_serving, shutdown}
use cloudtap.Frp.Adapter.{Adapter, stop_process}
use cloudtap.Frp.Adapter.Loop.{
  LoopState, Ending, ended, going, Pause, gives_up, pauses, reset, failed_start, process_over, wait,
}
use cloudtap.Frp.Adapter.Loop.Processes.{Spawn, start_process, child, context, wait_process}
use cloudtap.Frp.Adapter.Lifecycle.{graceful, start_checks, start_context, stop}

-- Where the Start that passed its checks stands: not there yet; before `a.cancel` is set; in runLoop at
-- its top, before startProcess, in the select of waitProcess or in that of a delay; waiting for the webhook
-- server; or past the close of `doneChan`.
pub data Phase : Type 0 where
  idle checked : Phase
  at_top spawning waiting delaying : LoopState → Phase
  draining returned : Phase

-- The goroutine of the webhook server: not there yet; before its Start; in its wait for the context; or
-- its result is in webhookErrChan.
pub data WebhookStage : Type 0 where
  absent launched serving sent : WebhookStage

-- The adapter; the two goroutines; whether the context of Start's caller has ended; `err`, the result of
-- runLoop; whether an frpc runs that has not been interrupted; and the calls of Stop that wait for
-- `doneChan` and those that returned nil.
pub record Run : Type 0 where
  pub adapter : Adapter
  pub phase : Phase
  pub webhook : WebhookStage
  pub parent_ended : Bool
  pub err : Option Ending
  pub unattended : Bool
  pub stops_waiting : ℕ
  pub stops_returned : ℕ

-- the context that Start made has ended
abbrev pub over : Run → Bool
over b = b.adapter.cancelled || b.parent_ended

-- runLoop returns
abbrev pub leave : Ending → Adapter → Run → Run
leave e a b = record b { adapter = a; phase = draining; err = some e }

-- runLoop returns with an error, or goes into its delay
unfoldable pub settle : Pause → Run → Run
settle (gives_up e a) b = leave e a b
settle (pauses l a) b = record b { adapter = a; phase = delaying l }

-- after the `if ctx.Err() != nil` behind waitProcess
unfoldable pub after_wait : Bool → Duration → Instant → LoopState → Option Str × Adapter → Run → Run
after_wait true d now l (e, a) b = leave ended a b
after_wait false d now l (e, a) b = settle (process_over e d now l a) b

-- The webhook server's Start has returned, or waits for the context.
abbrev pub stage_after : {A : Type 0} → Option A → WebhookStage
stage_after none = serving
stage_after (some e) = sent

-- A step of Start or of the webhook server's goroutine for which nothing outside has to happen first but
-- that a call returns.
pub data Own (b : Run) : Run → Type 0 where
  stops_at_top :
      (l : LoopState)
      → b.phase ≡ at_top l
      → over b ≡ true
      → Own b (leave ended (stop_process b.adapter) b)
  goes_on :
      (l : LoopState)
      → b.phase ≡ at_top l
      → over b ≡ false
      → Own b (record b { phase = spawning l })
  spawns :
      (l : LoopState) (w : Spawn) (a : Adapter)
      → b.phase ≡ spawning l
      → start_process w b.adapter ≡ (none, a)
      → Own b (record b { adapter = a; phase = waiting l; unattended = true })
  spawn_fails :
      (l : LoopState) (w : Spawn) (e : Str) (a : Adapter) (now : Instant)
      → b.phase ≡ spawning l
      → start_process w b.adapter ≡ (some e, a)
      → Own b (settle (failed_start e now l a) b)
  -- stopProcess forgets the process that it has interrupted
  wait_cut :
      (l : LoopState) (e : Str) (d : Duration) (now : Instant)
      → b.phase ≡ waiting l
      → over b ≡ true
      → Own b (
          after_wait
            (over b)
            d
            now
            l
            (wait_process (context e) b.adapter)
            (record b { unattended = is_some (wait_process (context e) b.adapter).1.cmd }))
  delay_cut :
      (l : LoopState) → b.phase ≡ delaying l → over b ≡ true → Own b (leave ended b.adapter b)
  webhook_begins :
      (listened : Option Str)
      → b.webhook ≡ launched
      → Own b (record b {
        adapter = record b.adapter { webhook = (begin_serving listened b.adapter.webhook).1 };
        webhook = stage_after (begin_serving listened b.adapter.webhook).0;
      })
  webhook_ends :
      (closed : Option Str)
      → b.webhook ≡ serving
      → over b ≡ true
      → Own b (record b {
        adapter = record b.adapter { webhook = (shutdown closed b.adapter.webhook).1 };
        webhook = sent;
      })
  closes_done :
      b.phase ≡ draining
      → b.webhook ≡ sent
      → Own b (record b { adapter = record b.adapter { done = true }; phase = returned })

-- A step of Start for which frpc has to end, or a delay to pass.
pub data Awaited (b : Run) : Run → Type 0 where
  child_ends :
      (l : LoopState) (e : Option Str) (d : Duration) (now : Instant)
      → b.phase ≡ waiting l
      → Awaited b (
          after_wait
            (over b)
            d
            now
            l
            (wait_process (child e) b.adapter)
            (record b { unattended = false }))
  delay_passes :
      (l l' : LoopState) (a : Adapter)
      → b.phase ≡ delaying l
      → wait false l b.adapter ≡ going l' a
      → Awaited b (record b { adapter = a; phase = at_top l' })

-- A step of a caller of Start or Stop.
pub data Called (b : Run) : Run → Type 0 where
  admits :
      (start_checks b.adapter).0 ≡ none
      → Called b (record b { adapter = (start_checks b.adapter).1; phase = checked })
  contexts :
      (now : Instant)
      → b.phase ≡ checked
      → Called b (record b {
        adapter = start_context now b.adapter;
        phase = at_top (reset b.adapter);
        webhook = launched;
      })
  parent_ends : Called b (record b { parent_ended = true })
  stop_begins :
      (stop none b.adapter).0 ≡ graceful
      → Called b
          (record b { adapter = (stop none b.adapter).1; stops_waiting = suc b.stops_waiting })
  stop_returns :
      (n : ℕ)
      → b.stops_waiting ≡ suc n
      → b.adapter.done ≡ true
      → Called b (record b { stops_waiting = n; stops_returned = suc b.stops_returned })
  stop_expires : (n : ℕ) → b.stops_waiting ≡ suc n → Called b (record b { stops_waiting = n })

infix 40 ◌⟶◌
pub data ◌⟶◌ (b c : Run) : Type 0 where
  own : Own b c → b ⟶ c
  awaited : Awaited b c → b ⟶ c
  called : Called b c → b ⟶ c

-- What any callers make of an adapter that New made, once OnConnection has been called.
pub data Reachable (a : Adapter) : Run → Type 0 where
  begin : Reachable a (record {
    adapter = a;
    phase = idle;
    webhook = absent;
    parent_ended = false;
    err = none;
    unattended = false;
    stops_waiting = 0;
    stops_returned = 0;
  })
  next : {b c : Run} → Reachable a b → b ⟶ c → Reachable a c
