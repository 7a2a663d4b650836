-- ===== src/Lib.antt =====
-- n8n-turbo: the core of the workflow engine.
--
-- The program runs workflows, which are graphs of nodes. An execution is admitted by the concurrency
-- control service, and then evaluated round by round over the graph.
--
-- Concurrency: internal/engine/concurrency.go. Semaphore.antt, Queue.antt, Service.antt and
--   Calls.antt hold `Semaphore`, `PriorityQueue` and `ConcurrencyControlService` with their methods,
--   one function for what runs under the service's mutex. `WaitWithOptions` is two functions,
--   `wait_with_options` up to its `select` and `after_select`. System.antt is the step relation of
--   the calls of all clients in any order. The other files prove what the calls keep.
-- Dataplane: internal/dataplane/types.go, connections.go and graph.go. `none` is a panic. A Go map is
--   an association list (Prelude/Map.antt) in an order that `range` may take.
-- Engine: internal/engine/suspend.go, retry.go, error_output.go and evaluator.go. Failure.antt has the
--   errors, Retry.antt `executeNodeWithRetry`, Evaluator.antt the allowed nodes, the start nodes and
--   the readiness test, Delivery.antt `deliverOutputs`, Run.antt `executeNode` and the batch, Loop.antt
--   the loop of `ExecuteWithOptions`. The graph is Dataplane's.
-- Executions: internal/engine/active_executions.go and modes.go. Registry.antt has `ActiveExecutions`
--   over the concurrency control service; `Add` is `add_begin`, and `register` after the wait.
-- Distribution: internal/engine/distribution. Local.antt has the queue of `LocalDistributor`, with a
--   function for each call that runs with no other beside it. The calls take no lock, so Racing.antt has
--   the operations of `Enqueue`, `EnqueueBlocking` and `Dequeue` as steps of calls in flight, and
--   Results.antt those of `Acknowledge` and `WaitResult`. Ledger.antt is what the queue is to do;
--   Pool.antt has `processJob` of the worker pool, with the semaphore of Concurrency as its limiter.
-- Cron: internal/cron/parser.go, job.go, scheduler.go and leader.go. Schedule.antt has `Schedule` and
--   its `Next` over a location's calendar; Text.antt the functions on strings that the parser calls,
--   Fields.antt `parseField` and `parseRange` with the `int` of their loop as a word of 64 bits,
--   Parse.antt `Parse`; Job.antt a job's runs, Scheduler.antt the scheduler's state and calls,
--   Calls.antt any order of them; Leader.antt how a Redis leader is made, and its times. Next.antt has
--   the laws of UTC that the calendar is taken to have, Listed.antt what the text of a part of a cron
--   field lists. The other files are proofs.
-- Push: internal/push/hub.go. Hub.antt has `Hub` over a store of clients, with a web socket's channel as
--   the list of what it holds; Calls.antt any order of the calls, where a `publish` is one step with
--   the removals that follow it. The other files prove what the calls keep, and what `publish` sends.
-- Flatted: internal/flatted/flatted.go over the values that `json.Decode` makes. Stringify.antt has
--   `Stringify` after `normalize`, with the table as a list of values, and Parse.antt `Parse` after
--   `json.Decode`, with `reconstruct` on fuel and its cache. Decimal.antt is `strconv.Itoa`. Table.antt
--   says what an entry stands for; the other files are proofs.
-- Nodes: internal/nodes/merge.go. Merge.antt has the keys, the index and the merge of two items,
--   Join.antt `mergeByFields`, with one function for the loop over the left items and one for what
--   follows it, Modes.antt and Branch.antt the other ways to merge, and `Execute`. `fmt.Sprint`, the
--   fold of a text and the merge by SQL are arguments. The other files are proofs.
-- Prelude: the shared names, and lemmas on lists, integers and maps.
--
-- Executors, credentials, the clock and the context are outside the code that is modelled: the fields
-- of `World` in Engine/Run.antt, by the number of the round. The compaction of the output that is kept
-- in the run data, which uses a binary store, is one of them.
--
-- Fuel: `dispatchLocked` takes an execution out of the queue in each round, so the queue's length and
-- one more is enough. `Ancestors` takes as many rounds as there are edges at most, and one more. A try
-- of a node is one of `MaxTries`. The loop over the values of a cron field takes 70 rounds at most, and
-- that of `Next` as many as there are nanoseconds up to its limit, and one more. The recursion of
-- `reconstruct` is as deep as there are values at most, and one more. The loop of
-- `ExecuteWithOptions` need not end on a cyclic graph: its fuel is an argument, and on an acyclic
-- graph the height of the start nodes is enough.
--
-- Integers are Go's `int` without wrap-around, but for the wait between tries, which wraps as an
-- `int64`, and the loop over the values of a cron field, which wraps as well.
--
-- Not modelled: the HTTP interface, storage, the other node implementations, the reading of the merge
-- node's parameters, expressions, credentials and secrets, which are input and output or calls of
-- libraries; hooks and event callbacks, which only observe; the shutdown of running executions and of
-- the cron scheduler's jobs, which polls a clock; the calls of the cron leader to Redis, and the Redis
-- queue; the web sockets of the hub; in the codec, JSON text, `ParseInto` and the flattening of values
-- that do not marshal.
-- `ParseDuration`, the order of a map and the loading of a location are arguments of the cron parser,
-- its errors have no text, and a schedule has a location.
pub mod Prelude
pub mod Concurrency
pub mod Dataplane
pub mod Engine
pub mod Distribution
pub mod Cron
pub mod Push
pub mod Flatted
pub mod Nodes
pub mod Executions
