-- ===== src/Frp/Adapter/Lifecycle/Once.antt =====
-- Start and Stop of pkg/adapter/frp/adapter.go are let through once each.
use cloudtap.Prelude.{ℕ, ◌+◌, ◌≤◌, ◌≡◌, Bool, true, false, Option, none, some, List, [], ◌∷◌, arith}
use cloudtap.Text.{Str}
use cloudtap.Time.{Instant}
use cloudtap.Adapter.{ConnectionHandler}
use cloudtap.Frp.Adapter.{Adapter, on_connection}
use cloudtap.Frp.Adapter.Lifecycle.{
  StartFailure, start_checks, start_context, StopResult, refused, graceful, timed_out, stop,
}

-- The sections of the methods that write the flags, as any callers interleave them.
pub data Call : Type 0 where
  checks : Call
  context : Instant → Call
  stops : Option Str → Call
  sets_handler : Option ConnectionHandler → Call

abbrev pub after : Adapter → Call → Adapter
after a checks = (start_checks a).1
after a (context now) = start_context now a
after a (stops expired) = (stop expired a).1
after a (sets_handler h) = on_connection h a

unfoldable pub run : Adapter → List Call → Adapter
run a [] = a
run a (c ∷ calls) = run (after a c) calls

abbrev count_start : Option StartFailure → ℕ
count_start none = 1
count_start (some _) = 0

abbrev count_stop : StopResult → ℕ
count_stop (refused _) = 0
count_stop graceful = 1
count_stop (timed_out _) = 1

-- the number of calls of Start that pass the checks
unfoldable pub starts_let_through : Adapter → List Call → ℕ
starts_let_through a [] = 0
starts_let_through a (checks ∷ calls) =
    count_start (start_checks a).0 + starts_let_through (after a checks) calls
starts_let_through a (c ∷ calls) = starts_let_through (after a c) calls

-- the number of calls of Stop that do not return ErrNotStarted
unfoldable pub stops_let_through : Adapter → List Call → ℕ
stops_let_through a [] = 0
stops_let_through a (stops e ∷ calls) =
    count_stop (stop e a).0 + stops_let_through (after a (stops e)) calls
stops_let_through a (c ∷ calls) = stops_let_through (after a c) calls

abbrev pub one : Bool → ℕ
one true = 1
one false = 0

starts_once : (a : Adapter) (calls : List Call) → starts_let_through a calls + one a.started ≤ 1
unfolding starts_let_through start_checks start_context stop on_connection
starts_once a [] = ground arith
starts_once a (checks ∷ calls) = ground (arith, starts_once (start_checks a).1 calls)
starts_once a (context now ∷ calls) = ground (arith, starts_once (start_context now a) calls)
starts_once a (stops e ∷ calls) = ground (arith, starts_once (stop e a).1 calls)
starts_once a (sets_handler h ∷ calls) = ground (arith, starts_once (on_connection h a) calls)

stops_once : (a : Adapter) (calls : List Call) → stops_let_through a calls + one a.stopped ≤ 1
unfolding stops_let_through start_checks start_context stop on_connection
stops_once a [] = ground arith
stops_once a (checks ∷ calls) = ground (arith, stops_once (start_checks a).1 calls)
stops_once a (context now ∷ calls) = ground (arith, stops_once (start_context now a) calls)
stops_once a (stops e ∷ calls) = ground (arith, stops_once (stop e a).1 calls)
stops_once a (sets_handler h ∷ calls) = ground (arith, stops_once (on_connection h a) calls)

-- Over any sequence of the methods' sections, on any adapter, at most one call of Start passes its
-- checks, and none if the adapter was started before; and at most one call of Stop does not return
-- ErrNotStarted, and none if it was stopped before.
pub lets_through_once :
    (a : Adapter) (calls : List Call)
    → (starts_let_through a calls + one a.started ≤ 1)
      × (stops_let_through a calls + one a.stopped ≤ 1)
lets_through_once a calls = (starts_once a calls, stops_once a calls)

stopped_uncancelled :
    (a : Adapter) (calls : List Call)
    → a.stopped ≡ true
    → a.cancelled ≡ false
    → (run a calls).cancelled ≡ false
unfolding run start_checks start_context stop on_connection
stopped_uncancelled a [] s c = c
stopped_uncancelled a (checks ∷ calls) s c =
    stopped_uncancelled (start_checks a).1 calls (ground arith) (ground arith)
stopped_uncancelled a (context now ∷ calls) s c =
    stopped_uncancelled (start_context now a) calls s c
stopped_uncancelled a (stops e ∷ calls) s c =
    stopped_uncancelled (stop e a).1 calls (ground arith) (ground arith)
stopped_uncancelled a (sets_handler h ∷ calls) s c =
    stopped_uncancelled (on_connection h a) calls s c

-- A Stop that comes after the swap of `started` and before Start has set `a.cancel` cancels nothing,
-- and every later Stop is refused, whatever is called in between: if the adapter is started, not
-- stopped, not cancelled and has no cancel function, the context stays uncancelled through that Stop
-- and any calls.
pub stop_before_cancel :
    (a : Adapter) (expired : Option Str) (calls : List Call)
    → a.started ≡ true
    → a.stopped ≡ false
    → a.has_cancel ≡ false
    → a.cancelled ≡ false
    → ((run (stop expired a).1 calls).cancelled ≡ false)
      × (stops_let_through (stop expired a).1 calls ≡ 0)
unfolding stop
stop_before_cancel a expired calls s n h c =
    let stopped : (stop expired a).1.stopped ≡ true = ground arith in
    (
      stopped_uncancelled (stop expired a).1 calls stopped (ground arith),
      ground (arith, stops_once (stop expired a).1 calls),
    )
