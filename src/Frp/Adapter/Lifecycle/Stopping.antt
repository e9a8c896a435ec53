-- ===== src/Frp/Adapter/Lifecycle/Stopping.antt =====
-- What a Stop of pkg/adapter/frp/adapter.go can rely on, whatever runs at once with it.
use cloudtap.Prelude.{◌≡◌, ◌≢◌, true, is_some, Option, arith}
use cloudtap.Adapter.{ConnectionHandler}
use cloudtap.Frp.Adapter.{Config, on_connection, new_adapter}
use cloudtap.Frp.Adapter.Lifecycle.Protocol.{sent, Run, Reachable}
use cloudtap.Frp.Adapter.Lifecycle.Invariant.{Reachable-Inv}

module _ (c : Config) (h : Option ConnectionHandler) where
  -- Whatever runs at once with it: when a Stop has returned nil, runLoop has returned its result, and
  -- the webhook server's Start has returned too.
  pub stop_returned :
      (b : Run)
      → Reachable (on_connection h (new_adapter c)) b
      → b.stops_returned ≢ 0
      → (is_some b.err ≡ true) × (b.webhook ≡ sent)
  stop_returned b r n = ground (arith, Reachable-Inv c h b r)
