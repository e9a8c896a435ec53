-- ===== src/Frp/Adapter/Flags.antt =====
-- The calls of runLoop of pkg/adapter/frp/adapter.go and the flags of Start and Stop.
use cloudtap.Prelude.{◌≡◌, refl, ◌∙◌, false, Option, arith}
use cloudtap.Text.{Str}
use cloudtap.Time.{Instant, Duration}
use cloudtap.Frp.Adapter.{Adapter, set_last_error, stop_process}
use cloudtap.Frp.Adapter.Loop.{
  LoopState, going, Pause, gives_up, pauses, failed_start, process_over, wait,
}
use cloudtap.Frp.Adapter.Loop.Processes.{Spawn, start_process, Waited, wait_process}

-- The loop leaves the flags of Start and Stop alone.
pub record SameFlags (a a' : Adapter) : Type 0 where
  pub started : a'.started ≡ a.started
  pub has_cancel : a'.has_cancel ≡ a.has_cancel
  pub cancelled : a'.cancelled ≡ a.cancelled
  pub done : a'.done ≡ a.done

pub same : (a : Adapter) → SameFlags a a
same a = record { started = refl; has_cancel = refl; cancelled = refl; done = refl }

pub both : {a b c : Adapter} → SameFlags a b → SameFlags b c → SameFlags a c
both f g = record {
  started = g.started ∙ f.started;
  has_cancel = g.has_cancel ∙ f.has_cancel;
  cancelled = g.cancelled ∙ f.cancelled;
  done = g.done ∙ f.done;
}

abbrev pub adapter_of : Pause → Adapter
adapter_of (gives_up e a) = a
adapter_of (pauses l a) = a

pub stop_process-SameFlags : (a : Adapter) → SameFlags a (stop_process a)
unfolding stop_process
stop_process-SameFlags a = ground arith

pub start_process-SameFlags :
    (w : Spawn) (a : Adapter) {e : Option Str} {a' : Adapter}
    → start_process w a ≡ (e, a')
    → SameFlags a a'
unfolding start_process
start_process-SameFlags w a h = ground arith

pub wait_process-SameFlags : (w : Waited) (a : Adapter) → SameFlags a (wait_process w a).1
unfolding wait_process stop_process
wait_process-SameFlags w a = ground arith

pub wait-SameFlags :
    (l : LoopState) (a : Adapter) {l' : LoopState} {a' : Adapter}
    → wait false l a ≡ going l' a'
    → SameFlags a a'
unfolding wait
wait-SameFlags l a h = ground arith

pub failed_start-SameFlags :
    (e : Str) (now : Instant) (l : LoopState) (a : Adapter)
    → SameFlags a (adapter_of (failed_start e now l a))
unfolding failed_start set_last_error
failed_start-SameFlags e now l a = ground arith

pub process_over-SameFlags :
    (e : Option Str) (d : Duration) (now : Instant) (l : LoopState) (a : Adapter)
    → SameFlags a (adapter_of (process_over e d now l a))
unfolding process_over set_last_error
process_over-SameFlags e d now l a = ground arith
