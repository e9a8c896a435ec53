-- ===== src/Examples/Supervision.antt =====
-- The frp adapter with a limit of two retries, and an frpc that does not start.
use cloudtap.Prelude.{
  ◌≡◌, ◌≢◌, refl, ◌+◌, ◌*◌, ◌^◌, ◌≤◌, min, max, true, false, none, some, List, [], ◌∷◌, arith, ℕ,
  suc,
}
use cloudtap.Prelude.Int.{pos}
use cloudtap.Text.{lit, ◌==◌, has_prefix}
use cloudtap.Frp.Webhook.Serving.{begin_serving, validate_webhook, default_webhook_config}
use cloudtap.Frp.Adapter.{Config, Adapter, new_adapter, validate_config, set_last_error}
use cloudtap.Frp.Adapter.Loop.{
  Round, exited, LoopState, Ending, ended, start_retries_exceeded, going, finished, exceeded,
  backoff, round, loop, run_loop,
}
use cloudtap.Frp.Adapter.Rounds.{counts, sees_cancel}
use cloudtap.Frp.Adapter.Retries.{Fails, run_loop_gives_up}
use cloudtap.Frp.Adapter.Streak.{FullStreak, run_loop-FullStreak}
use cloudtap.Frp.Adapter.Backoff.{run_loop_backoff, run_loop-delay_bounds}
use cloudtap.Frp.Adapter.Lifecycle.{Surroundings, blocked, start_checks, stop, start}
use cloudtap.Frp.Adapter.Lifecycle.Once.{
  Call, checks, context, stops, run, one, starts_let_through, stops_let_through, lets_through_once,
  stop_before_cancel,
}
use cloudtap.Frp.Adapter.Lifecycle.Returning.{new_adapter-limit, start_gives_up_blocked}

abbrev pub config : Config
config = record {
  frpc_path = lit "/bin/frpc";
  config_path = lit "/etc/frpc.toml";
  restart_delay = pos 1000;
  max_restart_delay = pos 5000;
  max_retries = pos 2;
  webhook = default_webhook_config;
}

abbrev pub adapter : Adapter
adapter = record {
  config = config;
  handler = some (λ event. record { allowed = true; reason = []; policy = [] });
  started = false;
  stopped = false;
  cmd = none;
  started_at = 0;
  webhook = record {
    config = default_webhook_config;
    handler = none;
    listening = false;
    serving = false;
    started = false;
    active_connections = [];
    connection_count = 0;
  };
  reconnect_attempts = 0;
  last_error = none;
  last_error_at = none;
  has_cancel = false;
  cancelled = false;
  done = false;
}

abbrev failing : Round
failing = record {
  cancelled = false;
  start_error = some (lit "no such file");
  process = record { pid = 1 };
  exit = exited none false;
  run_duration = pos 0;
  failed_at = 7;
  cancelled_waiting = false;
}

-- frpc ran for a minute and then failed
abbrev stable : Round
stable = record failing {
  start_error = none;
  exit = exited (some (lit "exit status 1")) false;
  run_duration = pos 60000000000;
}

failing-Fails : Fails failing
unfolding counts sees_cancel
failing-Fails = (refl, refl)

run_loop_gives_up_example :
    (e : Ending) × (a' : Adapter) × (run_loop (failing ∷ failing ∷ []) adapter ≡ finished e a')
    × (e ≢ ended)
run_loop_gives_up_example =
    run_loop_gives_up 1 adapter refl (failing ∷ failing ∷ []) (failing-Fails, (failing-Fails, tt))
      refl

run_loop_backoff_example :
    (l : LoopState) × (a' : Adapter) × (run_loop (failing ∷ []) adapter ≡ going l a')
    × (l.consecutive_failures ≡ 1)
    × (l.delay ≡ pos (min (1000 * 2 ^ 1) 5000))
run_loop_backoff_example =
    run_loop_backoff 1 1000 5000 (failing ∷ []) adapter refl refl refl (omega arith) (omega arith)
      (failing-Fails, tt) (omega arith)

abbrev given_up : Adapter
given_up = record adapter {
  reconnect_attempts = 2;
  cmd = some (record { pid = 1 });
  last_error = some (lit "no such file");
  last_error_at = some 7;
}

-- The stable run in between starts the count again.
gives_up :
    run_loop (failing ∷ stable ∷ failing ∷ failing ∷ []) adapter
    ≡ finished
        (start_retries_exceeded (pos 2) (lit "no such file"))
        (record given_up { reconnect_attempts = 3 })
unfolding run_loop round backoff exceeded loop set_last_error
gives_up = refl

run_loop-FullStreak_example : FullStreak 2 (failing ∷ stable ∷ failing ∷ failing ∷ [])
run_loop-FullStreak_example =
    run_loop-FullStreak 1 (failing ∷ stable ∷ failing ∷ failing ∷ []) adapter
      (start_retries_exceeded (pos 2) (lit "no such file"))
      (record given_up { reconnect_attempts = 3 }) refl gives_up (λ e. cc)

one_failure :
    (l : LoopState) × (a' : Adapter) × (run_loop (failing ∷ stable ∷ failing ∷ []) adapter
      ≡ going l a')
unfolding run_loop round backoff exceeded loop set_last_error
one_failure = (_, _, refl)

abbrev after_one : LoopState × Adapter
after_one = (one_failure.0, one_failure.1)

run_loop-delay_bounds_example : (d : ℕ) × (after_one.0.delay ≡ pos d) × (d ≤ max 1000 5000)
run_loop-delay_bounds_example =
    run_loop-delay_bounds 1000 5000 (failing ∷ stable ∷ failing ∷ []) adapter after_one.0
      after_one.1 refl refl (omega arith) (omega arith) one_failure.2

abbrev calls : List Call
calls = checks ∷ stops none ∷ checks ∷ context 5 ∷ stops none ∷ []

lets_through_once_example :
    (starts_let_through adapter calls + one false ≤ 1)
    × (stops_let_through adapter calls + one false ≤ 1)
lets_through_once_example = lets_through_once adapter calls

abbrev just_started : Adapter
just_started = record adapter { started = true }

stop_before_cancel_example :
    ((run (stop none just_started).1 (context 5 ∷ stops none ∷ [])).cancelled ≡ false)
    × (stops_let_through (stop none just_started).1 (context 5 ∷ stops none ∷ []) ≡ 0)
stop_before_cancel_example =
    stop_before_cancel just_started none (context 5 ∷ stops none ∷ []) refl refl refl refl

abbrev surroundings : Surroundings
surroundings = record {
  now = 5;
  listened = none;
  rounds = failing ∷ failing ∷ [];
  context_ends = false;
  closed = none;
}

accepted : validate_config (new_adapter (record config { max_retries = pos 0 })).config ≡ none
unfolding validate_config new_adapter ◌==◌
accepted = refl

accepted_start : (start_checks adapter).0 ≡ none
unfolding start_checks validate_config ◌==◌
accepted_start = refl

served : (begin_serving surroundings.listened adapter.webhook).0 ≡ none
unfolding begin_serving validate_webhook ◌==◌ has_prefix
served = refl

new_adapter-limit_example :
    (n : ℕ) × ((new_adapter (record config { max_retries = pos 0 })).config.max_retries
      ≡ pos (suc n))
new_adapter-limit_example = new_adapter-limit (record config { max_retries = pos 0 }) accepted

start_gives_up_blocked_example :
    (e : Ending) × (e ≢ ended) × ((start surroundings adapter).0 ≡ blocked e)
start_gives_up_blocked_example =
    start_gives_up_blocked surroundings adapter accepted_start 1 refl
      (failing-Fails, (failing-Fails, tt)) refl served refl
