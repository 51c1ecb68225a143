-- ===== src/Agents/Runtime/Stopping.antt =====
-- packages/agent-runtime/src/runtime-service.ts and scheduler.ts: `stop`, with the calls that arrive
-- while it waits for the running tasks.
use ryvan_os.Agents.Runtime.{begin_stop_service, end_stop_service}
use ryvan_os.Agents.Runtime.{begin_stop_service, end_stop_service}
