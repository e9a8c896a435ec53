-- ===== src/Frp/Adapter/Lifecycle/Invariant.antt =====
-- What holds between any two steps of Start, Stop and the webhook server of pkg/adapter/frp/adapter.go.
use cloudtap.Prelude.{Option, ◌≡◌, ◌⊎◌, refl, ap, Bool, true, false, is_some, arith}
use cloudtap.Adapter.{ConnectionHandler}
use cloudtap.Frp.Adapter.{Config, Adapter, on_connection, new_adapter, stop_process}
use cloudtap.Time.{Instant, Duration}
use cloudtap.Frp.Adapter.Loop.Processes.{Waited, child, context, wait_process}
use cloudtap.Frp.Adapter.Loop.{
  LoopState, Ending, ended, Pause, gives_up, pauses, failed_start, process_over,
}
use cloudtap.Frp.Adapter.Flags.{
  SameFlags, same, both, adapter_of, stop_process-SameFlags, start_process-SameFlags,
  wait_process-SameFlags, wait-SameFlags, failed_start-SameFlags, process_over-SameFlags,
}
use cloudtap.Frp.Adapter.Lifecycle.{start_checks, start_context, stop}
use cloudtap.Frp.Adapter.Lifecycle.Protocol.{
  Phase, idle, checked, at_top, spawning, waiting, delaying, draining, returned, WebhookStage,
  absent, sent, Run, over, leave, settle, after_wait, Own, stops_at_top, goes_on, spawns,
  spawn_fails, wait_cut, delay_cut, webhook_begins, webhook_ends, closes_done, Awaited, child_ends,
  delay_passes, Called, admits, contexts, parent_ends, stop_begins, stop_returns, stop_expires, ◌⟶◌,
  Reachable, begin, next, own, awaited, called,
}

abbrev pub began : Phase → Bool
began idle = false
began _ = true

abbrev pub cancellable : Phase → Bool
cancellable idle = false
cancellable checked = false
cancellable _ = true

abbrev pub in_loop : Phase → Bool
in_loop (at_top l) = true
in_loop (spawning l) = true
in_loop (waiting l) = true
in_loop (delaying l) = true
in_loop _ = false

abbrev pub past_loop : Phase → Bool
past_loop draining = true
past_loop returned = true
past_loop _ = false

abbrev pub is_returned : Phase → Bool
is_returned returned = true
is_returned _ = false

abbrev pub is_absent : WebhookStage → Bool
is_absent absent = true
is_absent _ = false

-- The flags tell the phase; nothing is cancelled before there is a cancel function; a Stop has returned
-- nil only if `doneChan` is closed; runLoop has a result only behind the loop; and Start gets past the
-- webhook server only when that has returned.
pub record Inv (b : Run) : Type 0 where
  pub started : b.adapter.started ≡ began b.phase
  pub has_cancel : b.adapter.has_cancel ≡ cancellable b.phase
  pub done : b.adapter.done ≡ is_returned b.phase
  pub uncancelled : (b.adapter.has_cancel ≡ true) ⊎ (b.adapter.cancelled ≡ false)
  pub none_early : (b.adapter.done ≡ true) ⊎ (b.stops_returned ≡ 0)
  pub result : is_some b.err ≡ past_loop b.phase
  pub present : (cancellable b.phase ≡ false) ⊎ (is_absent b.webhook ≡ false)
  pub webhook_over : (is_returned b.phase ≡ false) ⊎ (b.webhook ≡ sent)

-- What being in the loop tells.
record Inside (p : Phase) : Type 0 where
  began_there : began p ≡ true
  cancellable_there : cancellable p ≡ true
  not_past : past_loop p ≡ false
  not_returned : is_returned p ≡ false

inside : (p : Phase) → in_loop p ≡ true → Inside p
inside (at_top l) h = ground arith
inside (spawning l) h = ground arith
inside (waiting l) h = ground arith
inside (delaying l) h = ground arith
inside idle h = ground arith
inside checked h = ground arith
inside draining h = ground arith
inside returned h = ground arith

module _ (b : Run) (v : Inv b) (here : in_loop b.phase ≡ true) (a : Adapter)
    (f : SameFlags b.adapter a) where
  move-Inv : (p : Phase) → in_loop p ≡ true → Inv (record b { adapter = a; phase = p })
  move-Inv p there = ground (arith, v, f, inside b.phase here, inside p there)

  leave-Inv : (e : Ending) → Inv (leave e a b)
  leave-Inv e = ground (arith, v, f, inside b.phase here)

relabel : (b : Run) (left : Bool) → Inv b → Inv (record b { unattended = left })
relabel b left v = ground (arith, v)

settle-Inv :
    (b : Run)
    → Inv b
    → in_loop b.phase ≡ true
    → (p : Pause) → SameFlags b.adapter (adapter_of p)
    → Inv (settle p b)
unfolding settle
settle-Inv b v here (gives_up e a) f = leave-Inv b v here a f e
settle-Inv b v here (pauses l a) f = move-Inv b v here a f (delaying l) refl

after_wait-Inv :
    (b : Run) (cancelled left : Bool) (d : Duration) (now : Instant) (l : LoopState) (w : Waited)
    → Inv b
    → in_loop b.phase ≡ true
    → Inv (after_wait cancelled d now l (wait_process w b.adapter) (record b { unattended = left }))
unfolding after_wait
after_wait-Inv b true left d now l w v here =
    leave-Inv (record b { unattended = left }) (relabel b left v) here (wait_process w b.adapter).1
      (wait_process-SameFlags w b.adapter) ended
after_wait-Inv b false left d now l w v here =
    let (e, a) = wait_process w b.adapter in
    settle-Inv (record b { unattended = left }) (relabel b left v) here (process_over e d now l a)
      (both (wait_process-SameFlags w b.adapter) (process_over-SameFlags e d now l a))

pub Own-Inv : {b c : Run} → Own b c → Inv b → Inv c
Own-Inv {b} (stops_at_top l at cut) v =
    leave-Inv b v (ap in_loop at) (stop_process b.adapter) (stop_process-SameFlags b.adapter) ended
Own-Inv {b} (goes_on l at live) v =
    move-Inv b v (ap in_loop at) b.adapter (same b.adapter) (spawning l) refl
Own-Inv {b} (spawns l w a at h) v =
    relabel (record b { adapter = a; phase = waiting l }) true
      (move-Inv b v (ap in_loop at) a (start_process-SameFlags w b.adapter h) (waiting l) refl)
Own-Inv {b} (spawn_fails l w e a now at h) v =
    settle-Inv b v (ap in_loop at) (failed_start e now l a)
      (both (start_process-SameFlags w b.adapter h) (failed_start-SameFlags e now l a))
Own-Inv {b} (wait_cut l e d now at cut) v =
    after_wait-Inv b (over b) _ d now l (context e) v (ap in_loop at)
Own-Inv {b} (delay_cut l at cut) v = leave-Inv b v (ap in_loop at) b.adapter (same b.adapter) ended
Own-Inv (webhook_begins listened at) v = ground (arith, v, at)
Own-Inv (webhook_ends closed at cut) v = ground arith
Own-Inv (closes_done at over) v = ground arith

pub Awaited-Inv : {b c : Run} → Awaited b c → Inv b → Inv c
Awaited-Inv {b} (child_ends l e d now at) v =
    after_wait-Inv b (over b) _ d now l (child e) v (ap in_loop at)
Awaited-Inv {b} (delay_passes l l' a at h) v =
    move-Inv b v (ap in_loop at) a (wait-SameFlags l b.adapter h) (at_top l') refl

pub Called-Inv : {b c : Run} → Called b c → Inv b → Inv c
unfolding start_checks start_context stop
Called-Inv (admits ok) v = ground arith
Called-Inv (contexts now at) v = ground arith
Called-Inv parent_ends v = ground arith
Called-Inv (stop_begins ok) v = ground arith
Called-Inv (stop_returns n w d) v = ground arith
Called-Inv (stop_expires n w) v = ground arith

pub ⟶-Inv : {b c : Run} → b ⟶ c → Inv b → Inv c
⟶-Inv (own s) v = Own-Inv s v
⟶-Inv (awaited s) v = Awaited-Inv s v
⟶-Inv (called s) v = Called-Inv s v

-- The invariant holds in every state that is reached.
pub Reachable-Inv :
    (c : Config) (h : Option ConnectionHandler) (b : Run)
    → Reachable (on_connection h (new_adapter c)) b
    → Inv b
unfolding on_connection new_adapter
Reachable-Inv c h b begin = ground arith
Reachable-Inv c h b (next r step) = ⟶-Inv step (Reachable-Inv c h _ r)
