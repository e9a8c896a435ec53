-- ===== src/Frp/Adapter/Loop/Processes.antt =====
-- startProcess and waitProcess of pkg/adapter/frp/adapter.go. os/exec is outside.
use cloudtap.Prelude.{◌++◌, Option, none, some}
use cloudtap.Text.{Str, lit}
use cloudtap.Frp.Adapter.{Process, Adapter, stop_process}

-- The errors of StdoutPipe, StderrPipe and Start, and the process that is started if there are none.
pub record Spawn : Type 0 where
  pub stdout_pipe : Option Str
  pub stderr_pipe : Option Str
  pub started : Option Str
  pub process : Process

after_pipes : Spawn → Adapter → Option Str → Option Str × Adapter
after_pipes w a (some e) = (some (lit "failed to start frpc: " ++ e), a)
after_pipes w a none = (none, record a { cmd = some w.process })

after_stdout : Spawn → Adapter → Option Str → Option Str × Adapter
unfolding after_pipes
after_stdout w a (some e) = (some (lit "failed to create stderr pipe: " ++ e), a)
after_stdout w a none = after_pipes w a w.started

create_pipes : Spawn → Adapter → Option Str → Option Str × Adapter
unfolding after_stdout
create_pipes w a (some e) = (some (lit "failed to create stdout pipe: " ++ e), a)
create_pipes w a none = after_stdout w a w.stderr_pipe

-- startProcess
unfoldable pub start_process : Spawn → Adapter → Option Str × Adapter
unfolding create_pipes
start_process w a = create_pipes w a w.stdout_pipe

-- What the select of waitProcess meets: the result of cmd.Wait, or the error of the context.
pub data Waited : Type 0 where
  child : Option Str → Waited
  context : Str → Waited

wait_for : Waited → Adapter → Option Process → Option Str × Adapter
wait_for w a none = (none, a)
wait_for (child e) a (some p) = (e, a)
wait_for (context e) a (some p) = (some e, stop_process a)

-- waitProcess
unfoldable pub wait_process : Waited → Adapter → Option Str × Adapter
unfolding wait_for
wait_process w a = wait_for w a a.cmd
