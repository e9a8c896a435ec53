-- ===== src/Frp/Adapter/Loop.antt =====
-- runLoop of pkg/adapter/frp/adapter.go. What the outside does in one round of the loop is an
-- input; the loop runs over a list of rounds, and is still running when they are used up.
pub mod Processes
use cloudtap.Prelude.{
  ℕ, suc, ◌+◌, ◌-◌, ◌%◌, Bool, true, false, ◌&&◌, not, Option, none, some, List, [], ◌∷◌,
  if◌then◌else◌, ltb,
}
use cloudtap.Prelude.Int.{ℤ, pos, negsuc, ltb_ℤ}
use cloudtap.Text.{Str}
use cloudtap.Time.{Instant, Duration}
use cloudtap.Frp.Webhook.{increment}
use cloudtap.Frp.Adapter.{Config, Process, Adapter, set_last_error, stop_process}

abbrev pub int64_half : ℕ
int64_half = 9223372036854775808

-- the int64 with these bits
of_bits : ℕ → ℤ
of_bits r = if ltb r int64_half then pos r else negsuc (18446744073709551615 - r)

-- delay * 2
double : Duration → Duration
unfolding of_bits
double (pos n) = of_bits ((n + n) % 18446744073709551616)
double (negsuc n) = of_bits (18446744073709551615 - (n + n + 1) % 18446744073709551616)

-- the two statements of the exponential backoff
unfoldable pub backoff : Config → Duration → Duration
unfolding double
backoff c delay =
    let doubled = double delay in
    if ltb_ℤ c.max_restart_delay doubled then c.max_restart_delay else doubled

abbrev pub stable_run_threshold : Duration
stable_run_threshold = pos 30000000000

-- What `waitProcess` returns: the process exits, with the error of `cmd.Wait` and whether the
-- context is done when the loop looks; or the context ends first.
pub data Exit : Type 0 where
  exited : Option Str → Bool → Exit
  interrupted : Exit

pub record Round : Type 0 where
  -- `ctx.Done()` is ready at the top
  pub cancelled : Bool
  -- the error of `startProcess`, or the process
  pub start_error : Option Str
  pub process : Process
  pub exit : Exit
  pub run_duration : Duration
  pub failed_at : Instant
  -- `ctx.Done()` is ready before the delay has passed
  pub cancelled_waiting : Bool

pub record LoopState : Type 0 where
  pub delay : Duration
  pub consecutive_failures : ℕ

-- How the loop returns: nil, or one of the two errors for too many retries.
pub data Ending : Type 0 where
  ended : Ending
  start_retries_exceeded : ℤ → Str → Ending
  exit_retries_exceeded : ℤ → Ending

pub data Progress : Type 0 where
  going : LoopState → Adapter → Progress
  finished : Ending → Adapter → Progress

-- MaxRetries > 0 && consecutiveFailures >= MaxRetries
unfoldable pub exceeded : Config → ℕ → Bool
exceeded c failures = ltb_ℤ (pos 0) c.max_retries && not (ltb_ℤ (pos failures) c.max_retries)

-- The wait for the delay, and what follows it.
unfoldable pub wait : Bool → LoopState → Adapter → Progress
wait true l a = finished ended a
wait false l a = going l (record a { reconnect_attempts = increment a.reconnect_attempts })

unfoldable pub reset : Adapter → LoopState
reset a = record { delay = a.config.restart_delay; consecutive_failures = 0 }

-- After a failed start or the end of a process: the loop gives up, or goes into its delay with the
-- variables that it has behind it.
pub data Pause : Type 0 where
  gives_up : Ending → Adapter → Pause
  pauses : LoopState → Adapter → Pause

-- startProcess has failed; up to the delay
unfoldable pub failed_start : Str → Instant → LoopState → Adapter → Pause
failed_start e failed_at l a =
    let failures = suc l.consecutive_failures in
    let a' = set_last_error e failed_at a in
    if exceeded a.config failures
    then gives_up (start_retries_exceeded a.config.max_retries e) a'
    else pauses (record { delay = backoff a.config l.delay; consecutive_failures = failures }) a'

-- From "Check max retries" up to the delay.
before_restart : LoopState → Adapter → Pause
before_restart l a =
    if exceeded a.config l.consecutive_failures
    then gives_up (exit_retries_exceeded a.config.max_retries) a
    else pauses
        (record l {
          delay = if ltb 0 l.consecutive_failures then backoff a.config l.delay else l.delay;
        })
        a

-- From "Determine if this was a stable run" up to the delay, with the error of waitProcess and the
-- duration of the run.
unfoldable pub process_over : Option Str → Duration → Instant → LoopState → Adapter → Pause
unfolding before_restart reset
process_over none run_duration failed_at l a = before_restart (reset a) a
process_over (some e) run_duration failed_at l a =
    before_restart
      (if ltb_ℤ run_duration stable_run_threshold
        then record l { consecutive_failures = suc l.consecutive_failures }
        else reset a)
      (set_last_error e failed_at a)

-- The delay, cut off by the context or not.
unfoldable pub paused : Bool → Pause → Progress
unfolding wait
paused cancelled (gives_up e a) = finished e a
paused cancelled (pauses l a) = wait cancelled l a

start_failed : Str → Round → LoopState → Adapter → Progress
unfolding failed_start paused
start_failed e r l a = paused r.cancelled_waiting (failed_start e r.failed_at l a)

process_exited : Exit → Round → LoopState → Adapter → Progress
unfolding process_over paused
process_exited interrupted r l a = finished ended (stop_process a)
process_exited (exited _ true) r l a = finished ended a
process_exited (exited e false) r l a =
    paused r.cancelled_waiting (process_over e r.run_duration r.failed_at l a)

started_or_failed : Option Str → Round → LoopState → Adapter → Progress
unfolding start_failed process_exited
started_or_failed (some e) r l a = start_failed e r l a
started_or_failed none r l a = process_exited r.exit r l (record a { cmd = some r.process })

-- the body of the `for` in runLoop
unfoldable pub round : Round → LoopState → Adapter → Progress
unfolding started_or_failed
round r l a =
    if r.cancelled then finished ended (stop_process a) else started_or_failed r.start_error r l a

-- runLoop from a state of its variables
unfoldable pub loop : List Round → LoopState → Adapter → Progress
loop [] l a = going l a
loop (r ∷ rs) l a = elim (round r l a) [
  | finished e a' ↦ finished e a'
  | going l' a' ↦ loop rs l' a'
]

-- runLoop
unfoldable pub run_loop : List Round → Adapter → Progress
unfolding reset
run_loop rs a = loop rs (reset a) a
