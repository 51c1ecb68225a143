-- ===== src/Lib.antt =====
-- RyvanOS is a TypeScript platform of packages: products register workflows, agents and policies
-- with it, and it runs them with retries, approvals, circuit breakers and an audit trail. This
-- library models the logic of its core packages and proves what makes each of them correct.
--
-- The parts and the files that model them:
--
--   packages/workflow-engine/src (Workflow). `Types` holds the records of types.ts. The rest is
--   executor.ts: `Transitions` has completeStep, failStep, skipDependents, fatalFailure,
--   readySteps and hasWaiting; `Environment` what the executor reads from outside and the events
--   it emits; `Execution` has executeStep, beginApproval and runHandlerWithRetry; `Rounds`
--   settleWaitingSteps and runBatch; `Driver` completeRun, failRun, cancel and the loop of drive.
--   `Executor` has the entry points start, resume, cancel, notifyEvent and dueRuns, `Store` is
--   store.ts, and `Service` the registration, tick and dispatchEvent of workflow-service.ts.
--   `Validator` is validator.ts, which says what a definition must be before it can run, and
--   `Registry` the class WorkflowRegistry of registry.ts.
--   A run in the executor's hands is a `Live`, with the store beside it an `Exec`; a round of the
--   loop is the function `round`, from an `Exec` and the abort signal to the end of the drive or to
--   the next round. The proofs are in `Transitions/Order` and `Skipping`, `Execution/Readiness`,
--   `Retries`, `Rounds/Settling`, `SameRun`, `Dependencies`, `Slices`, `Batches` and `Ready`,
--   `Driver/Progressing`, `Drives`, `Sequence`, `Reversing` and `Compensating`, `Executor/Ending`
--   and `Cancelling`, and `Service/Delivering`; `Samples` holds the workflow that the tests run.
--
--   packages/policy-engine/src (Policy). `Types` is types.ts, `Matcher` matchesCondition of
--   matcher.ts, `Engine` the class PolicyEngine of policy-engine.ts, `Approvals` the functions and
--   the in-memory store of approvals.ts, `Budget` the class BudgetGuard of budget-guard.ts,
--   `Quota` the class QuotaGuard of quota-guard.ts over an interface for its counters, `Quota/Counters`
--   its process-local counters, and `Service` enforce and the approvals of policy-service.ts.
--   Workflows ask for approvals through a gate that stands on the approval store; the gate is a
--   parameter of the workflow model.
--
--   packages/mission-engine/src (Missions), which carries missions out by workflow runs once the
--   policy engine allows them. `Types` is types.ts, `Store` store.ts, `Planner` planner.ts. The rest is
--   mission-service.ts: `State` has what is stored and emitted, settle, cancel and
--   onWorkflowFinished; `Service` execute, checkPolicy, launch and tick. The calls of the workflow
--   runner are logged in the state, so that theorems can say which runs are started.
--
--   packages/agent-runtime/src (Agents): `TaskQueue` is task-queue.ts, the queue that the agent
--   runtime takes its tasks from, `Scheduler` scheduler.ts, with `poll` in `Scheduler/Polling`, and
--   `Runtime` runtime-service.ts, with the calls that arrive while it stops in `Runtime/Waiting`.
--
--   packages/audit/src (Audit). `Store` is the in-memory store of store.ts, `Ledger` append and
--   verify of ledger.ts, with the proofs in `Ledger/Chain` and `Ledger/Tampering`.
--
--   packages/identity/src/rbac.ts (Identity/Rbac): roles, assignments and permission checks.
--
--   packages/resilience/src (Resilience): `Breaker` is the class CircuitBreaker of
--   circuit-breaker.ts, with the types of types.ts; `DeadLetters` the store of dead-letters.ts, and
--   `Service` execute and replay of resilience-service.ts, which put the breakers to use.
--
--   packages/events/src/event-bus.ts (Events/Bus): subscriptions, history and dead letters, and in
--   `Bus/Dispatch` the dispatch of an event over the live list of handlers, and middlewares; `Passing`
--   has the loop past handlers that leave the bus alone.
--
--   packages/models/src (Models): `Registry` is registry.ts with the types of types.ts, `Router` the
--   choice of a model in router.ts.
--
--   packages/storage/src/memory.ts (Storage/KeyValue): the key/value store with expiring entries.
--
--   packages/common/src (Common): `Glob` is matchesGlob of matching.ts with the regular expression
--   it builds, `Range` applyRange, which the audit store uses, and `Backoff` computeBackoff of
--   utils.ts.
--
--   `Base` holds the shared helpers: Boolean tests, lists measured by native numbers, JavaScript
--   maps as association lists, integers, errors and results.
--
-- Conventions. Asynchronous code is a function on states; where steps run concurrently, their
-- handlers are called in the order of the batch and settle in an order that the environment
-- chooses, and a cancellation by another caller falls at one of the points that `CancelPoint` names.
-- Time stamps, delays and amounts are natural numbers. JSON payloads are opaque texts. The clock,
-- generated ids, handlers, conditions, approval gates and the SHA-256 of an audit entry over its
-- canonical JSON are parameters.
--
-- Fuel. `drain` and `fill`, the scheduler's loops over its queue, have one round more than the
-- queue has ids, since each round takes one off; `dispatch_loop` of the event bus has one more than
-- the listeners that a type can have. `skip_queue` has as many rounds as the run has steps, and two
-- more: an id is put on the queue only when its step leaves the pending state. `drive_loop` is
-- given more rounds than there are pending steps, since a round that goes on starts one. `walk`, in
-- the search for a cycle, has two more than the number of steps, since its path holds no step
-- twice. `collect` has fuel 4 for a role hierarchy that is three deep.
--
-- Not modelled: the agent planner and SDK, connectors, tools, the calls of language models, memory,
-- prompts, databases, persistence, secrets, observability and the console, which are adapters, input
-- and output, or are left out; the product under apps/cortex.
pub mod Base
pub mod Agents
pub mod Audit
pub mod Common
pub mod Events
pub mod Identity
pub mod Missions
pub mod Models
pub mod Policy
pub mod Resilience
pub mod Storage
pub mod Workflow
