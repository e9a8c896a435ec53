-- ===== src/Policy/Evaluator.antt =====
-- The Evaluator of pkg/policy/policy.go, which denies every route so far.
use cloudtap.Prelude.{◌≢◌, Option, none, some, arith}
use cloudtap.Text.{Str}

pub record Route : Type 0 where
  pub name : Str
  pub destination : Str

-- the error of the context, or that of the route
pub data Denial : Type 0 where
  cancelled : Str → Denial
  denied : Str → Denial

-- Evaluator.Allow; `ended` is the error of the context if it has ended
unfoldable pub allow : Option Str → Route → Option Denial
allow (some e) r = some (cancelled e)
allow none r = some (denied r.name)

-- No route is allowed, whatever the context is.
allow_never : (ended : Option Str) (r : Route) → allow ended r ≢ none
unfolding allow
allow_never ended r = λ h. ground arith
