-- ===== src/Frp/Adapter/Lifecycle/Settling.antt =====
-- What is left of Start of pkg/adapter/frp/adapter.go once its context has been cancelled.
use cloudtap.Prelude.{
  ℕ, suc, ◌+◌, ◌≤◌, ◌<◌, ◌≡◌, ◌⊎◌, inl, inr, refl, Bool, true, false, none, [], arith,
}
use cloudtap.Prelude.Int.{pos}
use cloudtap.Time.{Instant, Duration}
use cloudtap.Frp.Adapter.{Adapter, stop_process}
use cloudtap.Frp.Adapter.Loop.{LoopState, Ending, Pause, gives_up, pauses, failed_start, ended}
use cloudtap.Frp.Adapter.Loop.Processes.{Spawn, start_process, Waited, child, context, wait_process}
use cloudtap.Frp.Adapter.Flags.{
  SameFlags, same, both, adapter_of, stop_process-SameFlags, start_process-SameFlags,
  wait_process-SameFlags, wait-SameFlags, failed_start-SameFlags,
}
use cloudtap.Frp.Adapter.Lifecycle.{start_checks, start_context, stop}
use cloudtap.Frp.Adapter.Lifecycle.Protocol.{
  Phase, idle, checked, at_top, spawning, waiting, delaying, draining, returned, WebhookStage,
  absent, launched, serving, sent, Run, over, leave, settle, after_wait, Own, stops_at_top, goes_on,
  spawns, spawn_fails, wait_cut, delay_cut, webhook_begins, webhook_ends, closes_done, Awaited,
  child_ends, delay_passes, Called, admits, contexts, parent_ends, stop_begins, stop_returns,
  stop_expires,
}
use cloudtap.Frp.Adapter.Lifecycle.Invariant.{Inv, Own-Inv, Awaited-Inv, Called-Inv}

-- How many steps Start, and the webhook server's goroutine, can still take on a cancelled context.
abbrev place : Phase → ℕ
place returned = 0
place draining = 1
place (at_top l) = 2
place (waiting l) = 2
place (delaying l) = 3
place _ = 4

abbrev queue : WebhookStage → ℕ
queue sent = 0
queue serving = 1
queue _ = 2

abbrev rank : Run → ℕ
rank b = place b.phase + queue b.webhook

place_bound : (p : Phase) → place p ≤ 4
place_bound returned = omega arith
place_bound draining = omega arith
place_bound (at_top l) = omega arith
place_bound (waiting l) = omega arith
place_bound (delaying l) = omega arith
place_bound (spawning l) = omega arith
place_bound idle = omega arith
place_bound checked = omega arith

queue_bound : (w : WebhookStage) → queue w ≤ 2
queue_bound sent = omega arith
queue_bound serving = omega arith
queue_bound launched = omega arith
queue_bound absent = omega arith

-- A step that uses one of them up.
record Shrinks (b c : Run) : Type 0 where
  cancelled : c.adapter.cancelled ≡ true
  smaller : rank c < rank b

module _ (b : Run) (cancelled : b.adapter.cancelled ≡ true) where
  leave-Shrinks :
      (e : Ending) (a : Adapter)
      → SameFlags b.adapter a
      → 1 < place b.phase
      → Shrinks b (leave e a b)
  leave-Shrinks e a f h = ground (arith, f.cancelled)

  settle-Shrinks :
      (p : Pause) → SameFlags b.adapter (adapter_of p) → 3 < place b.phase → Shrinks b (settle p b)
  unfolding settle
  settle-Shrinks (gives_up e a) f h = ground (arith, f.cancelled)
  settle-Shrinks (pauses l a) f h = ground (arith, f.cancelled)

  wait-Shrinks :
      (l : LoopState) (d : Duration) (now : Instant) (w : Waited) (left ends : Bool)
      → ends ≡ true
      → b.phase ≡ waiting l
      → Shrinks b
          (after_wait ends d now l (wait_process w b.adapter) (record b { unattended = left }))
  unfolding after_wait
  wait-Shrinks l d now w left true e at =
      let f = wait_process-SameFlags w b.adapter in ground (arith, at, f.cancelled, cancelled)
  wait-Shrinks l d now w left false e at = ground arith

  Own-Shrinks : {c : Run} → Own b c → Shrinks b c
  Own-Shrinks (stops_at_top l at cut) =
      leave-Shrinks ended (stop_process b.adapter) (stop_process-SameFlags b.adapter)
        (ground (arith, at))
  Own-Shrinks (goes_on l at live) = ground (arith, cancelled)
  Own-Shrinks (spawns l w a at h) =
      let f = start_process-SameFlags w b.adapter h in ground (arith, at, f.cancelled, cancelled)
  Own-Shrinks (spawn_fails l w e a now at h) =
      settle-Shrinks (failed_start e now l a)
        (both (start_process-SameFlags w b.adapter h) (failed_start-SameFlags e now l a))
        (ground (arith, at))
  Own-Shrinks (wait_cut l e d now at cut) = wait-Shrinks l d now (context e) _ (over b) cut at
  Own-Shrinks (delay_cut l at cut) =
      leave-Shrinks ended b.adapter (same b.adapter) (ground (arith, at))
  Own-Shrinks (webhook_begins listened at) = ground arith
  Own-Shrinks (webhook_ends closed at cut) = ground arith
  Own-Shrinks (closes_done at over) = ground arith

  Awaited-Shrinks : {c : Run} → Awaited b c → Shrinks b c
  Awaited-Shrinks (child_ends l e d now at) =
      wait-Shrinks l d now (child e) _ (over b) (ground arith) at
  Awaited-Shrinks (delay_passes l l' a at h) =
      let f = wait-SameFlags l b.adapter h in ground (arith, at, f.cancelled, cancelled)

  -- A caller adds none.
  Called-rank : {c : Run} → Called b c → Inv b → (c.adapter.cancelled ≡ true) × (rank c ≤ rank b)
  unfolding start_checks start_context stop
  Called-rank (admits ok) v = ground (arith, v)
  Called-rank (contexts now at) v = ground (arith, v)
  Called-rank parent_ends v = ground arith
  Called-rank (stop_begins ok) v = ground arith
  Called-rank (stop_returns n w d) v = ground arith
  Called-rank (stop_expires n w) v = ground arith

-- What goes on from `b`, with the number of steps of Start and of the webhook server's goroutine in it.
pub data Steps (b : Run) : ℕ → Run → Type 0 where
  stays : Steps b 0 b
  owns : {n : ℕ} {c d : Run} → Steps b n c → Own c d → Steps b (suc n) d
  awaits : {n : ℕ} {c d : Run} → Steps b n c → Awaited c d → Steps b (suc n) d
  calls : {n : ℕ} {c d : Run} → Steps b n c → Called c d → Steps b n d

pub record Left (b : Run) (n : ℕ) (c : Run) : Type 0 where
  pub holds : Inv c
  pub cancelled : c.adapter.cancelled ≡ true
  pub counted : n + rank c ≤ rank b

pub Steps-Left : {b c : Run} {n : ℕ} → Inv b → b.adapter.cancelled ≡ true → Steps b n c → Left b n c
Steps-Left v h stays = record { holds = v; cancelled = h; counted = omega arith }
Steps-Left v h (owns s o) =
    let l = Steps-Left v h s in
    let m = Own-Shrinks _ l.cancelled o in
    let c = l.counted in
    let r = m.smaller in
    record { holds = Own-Inv o l.holds; cancelled = m.cancelled; counted = omega arith }
Steps-Left v h (awaits s o) =
    let l = Steps-Left v h s in
    let m = Awaited-Shrinks _ l.cancelled o in
    let c = l.counted in
    let r = m.smaller in
    record { holds = Awaited-Inv o l.holds; cancelled = m.cancelled; counted = omega arith }
Steps-Left v h (calls s o) =
    let l = Steps-Left v h s in
    let m = Called-rank _ l.cancelled o l.holds in
    let c = l.counted in
    let r = m.1 in record { holds = Called-Inv o l.holds; cancelled = m.0; counted = omega arith }

-- an frpc that starts
abbrev starts : Spawn
starts = record {
  stdout_pipe = none;
  stderr_pipe = none;
  started = none;
  process = record { pid = 0 };
}

module _ (b : Run) (v : Inv b) (cancelled : b.adapter.cancelled ≡ true) where
  -- Behind the loop, the webhook server's goroutine goes on, or Start.
  drains : (w : WebhookStage) → b.webhook ≡ w → b.phase ≡ draining → (c : Run) × Own b c
  drains launched at here = (_, webhook_begins none at)
  drains serving at here = (_, webhook_ends none at (ground arith))
  drains sent at here = (_, closes_done here at)
  drains absent at here = ground (arith, v)

  pub not_stuck : (p : Phase) → b.phase ≡ p → (b.adapter.done ≡ true) ⊎ ((c : Run) × Own b c)
  unfolding start_process
  not_stuck idle at = ground (arith, v)
  not_stuck checked at = ground (arith, v)
  not_stuck (at_top l) at = inr (_, stops_at_top l at (ground arith))
  not_stuck (spawning l) at = inr (_, spawns l starts _ at refl)
  not_stuck (waiting l) at = inr (_, wait_cut l [] (pos 0) 0 at (ground arith))
  not_stuck (delaying l) at = inr (_, delay_cut l at (ground arith))
  not_stuck draining at = inr (drains b.webhook refl at)
  not_stuck returned at = inl (ground (arith, v))

pub rank_bound : {b c : Run} {n : ℕ} → Left b n c → n ≤ 6
rank_bound {b} l =
    let c = l.counted in let p = place_bound b.phase in let q = queue_bound b.webhook in omega arith
