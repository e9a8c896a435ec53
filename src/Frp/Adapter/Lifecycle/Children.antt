-- ===== src/Frp/Adapter/Lifecycle/Children.antt =====
-- The frpc that runLoop of pkg/adapter/frp/adapter.go leaves behind.
use cloudtap.Prelude.{◌≡◌, ◌⊎◌, Bool, true, false, is_some}
use cloudtap.Frp.Adapter.{Adapter}
use cloudtap.Frp.Adapter.Lifecycle.Protocol.{Phase, waiting, Run}

abbrev is_waiting : Phase → Bool
is_waiting (waiting l) = true
is_waiting _ = false

-- An frpc runs uninterrupted only while Start waits for it, and then the adapter knows its process.
record Attended (b : Run) : Type 0 where
  elsewhere : (is_waiting b.phase ≡ true) ⊎ (b.unattended ≡ false)
  known : (is_waiting b.phase ≡ false) ⊎ (is_some b.adapter.cmd ≡ true)
