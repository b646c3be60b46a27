-- ===== src/Lib.antt =====
-- cova takes briefing jobs of tenants over HTTP, hands them to expert runtimes, and reports their
-- end by signed webhooks. This library models the gateway in front (internal/api/gateway), the
-- orchestrator (internal/orchestrator/server.go and queue.go) with the state that it stores
-- (internal/storage/jobstore), the runtime of an expert (internal/expert/runtime) and the executor
-- that calls it (internal/worker/executor), the registry of experts (internal/registry), the
-- webhooks (internal/delivery/webhook), and the pool of agents with its registry and its router
-- (internal/agent, internal/routing), the Feishu channel (internal/channel/feishu), with the types
-- and the handler of the interface (pkg/apiv1, internal/api/openapi) and the two clients
-- (sdk/go/cova).
--
-- How the parts work together. A request passes the gateway, which checks its bearer token, puts
-- the token's tenant and project into the headers, counts it against the limit of its address and
-- checks its form; the routes then name the operation, and the handler calls it with what the
-- request says. SubmitBriefJob checks a submission, creates a job under the next id, remembers its
-- idempotency key and puts the id in the queue. A worker (workerLoop) takes an id and runs
-- processBriefJob: it marks the job running, calls the executor without the lock, and then, by the
-- outcome, completes the job, puts it in the queue again, or fails it into the dead letters. The
-- executor may be an expert's runtime, a server of its own: it is set up from the registry's
-- snapshot, runs a task within the request or in the background, lets background tasks be canceled,
-- and reports their success by a signed event, which ExpertEventsHandler takes. Callers read,
-- cancel and replay jobs meanwhile. Each change under the lock is saved (persistLocked), and a new
-- process starts from what was saved (loadState). A finished job's callback is delivered by the
-- dispatcher, and a receiver checks it by the verifier, as the orchestrator does with the events.
-- Beside this, agents connect by sockets to the pool, and the router hands them the messages that
-- come in from the channels.
--
-- Which file models which part:
--   Base            Go's maps as association lists (Maps), strings.TrimSpace (Text), case folding
--                   (Fold), Fields, Split, Trim, prefixes and suffixes (Bytes, with laws in Split),
--                   strconv.FormatUint (Decimal), Boolean tests and lists.
--   Http            a request as net/http gives it.
--   Openapi         internal/api/openapi/server_gen.go: the routes with the matching of paths and the
--                   parameters of an operation; its child Dispatch has ServerInterface, ServeHTTP and
--                   dispatch.
--   Sdk             sdk/go/cova/client_gen.go: NewClient and doJSON; Calls has the eight methods.
--     Workspace     sdk/go/cova/workspace_client.go: NewWorkspaceClient, Connect, SendResponse, Close and
--                   readLoop; its child Session joins it with the pool of agents.
--     Silent, Refused, Paths, Routed  proofs that join the generated client with the handler and the
--                   server.
--   Api             pkg/apiv1 types, the statuses, the problem bodies with inferStatus.
--   Jobstore        internal/storage/jobstore: State and its entries.
--   Orchestrator    internal/orchestrator:
--     Queue         memoryQueue: Enqueue, Dequeue, Depth, Close.
--     Types, Rules  Server, job, idempotencyRecord; isExpired, markExpired, jobInScope,
--                   scopedIdempotencyKey, expertSupports, normalizeRequestID and the like.
--     Callback      a lemma on cloneCallbackConfig.
--     Persist       persistLocked, loadState, Server.enqueue.
--     Date, Submit  SubmitBriefJob, with the form of its date.
--     Read, Control GetJobStatus and GetJobResult; CancelJob and ReplayJob.
--     Inquiry       GetJobDeliveries, QueryExpert, GetExpertCapabilities.
--     Service       Server as the implementation of ServerInterface.
--     Worker        the two sections of processBriefJob that hold the lock.
--     Events        ExpertEventsHandler from the decoded event on.
--     Start         NewServer and its options.
--     System        the server with its worker: an Action is one handler call or one section, `run`
--                   a sequence of them in any order.
--     Change, Refine  the changes that a job may undergo, by who makes them, as step relations; each
--                   handler and each step is shown to make only such changes.
--     Metrics       MetricsSnapshot; Sums has proofs about it.
--     Collision     one idempotency key in two tenants.
--     Consistent, Life, Scope, Idempotency, Retry, Recovery, Resumed, Restart, Faults, Overtaken,
--     Stale         proofs about runs.
--     Durable, History, Settled  proofs about a server that is stopped and started again.
--     Served, Unscoped  proofs about the handler over the server.
--   Gateway         internal/api/gateway/middleware.go:
--     Auth          the table of tokens, checkAuth, injectTenantScope.
--     Limiter       ipLimiter: Allow and cleanupIfNeeded.
--     Metrics       gatewayMetrics: Record and Snapshot.
--     Handler       NewHandler and ServeHTTP with validateRequest and the ids that it sets.
--     Scoped, Admitted, Tenants, Bypass, and the children of Limiter and Metrics: proofs about these.
--   Runtime         internal/expert/runtime/server.go: Server, NewServer and its options,
--                   validateTaskRequest, checkAuth.
--     Tasks         handleCreateTask, handleCancelTask and runAsyncTask as sections, and the system
--                   of tasks that takes them in any order.
--     Serve         ServeHTTP.
--     Sink          HTTPEventSink of events.go.
--     Runs, Balance, Counts, Pending, Report, Paths, Lost, Trust  proofs about these; Report and
--                   Trust join the runtime with the orchestrator and with the verifier.
--   Executor        internal/worker/executor/runtime.go: RuntimeExecutor with ExecuteBrief; its child
--                   Accepted joins it with the runtime.
--   Experts         internal/registry/types.go:
--     Yaml          loader.go: the lines of a file; Parse and Define read them (parseRegistry,
--                   parseExpertDefinition), Check has the validations, and Load LoadSnapshot.
--     Distinct, Aligned  proofs about these.
--   Webhook         internal/delivery/webhook:
--     Clock         strconv.ParseInt, time.Unix, Sub with its saturation, absDuration, over a ℤ.
--     Guard         InMemoryReplayGuard.CheckAndMark.
--     Verify        NewVerifier and Verify.
--     Dispatcher    NewDispatcher and its options, tryOnce, backoff.
--     Deliver       newEvent and deliver.
--     Store         MemoryStore and JSONLStore of store.go.
--     Marks, Window, Replay, Forged, Signed, Attempts, Listed  proofs about these.
--   Agents          internal/agent and internal/routing:
--     Pool          Pool in connection.go: RegisterAgent, HandleWebSocket, SendToAgent, IsOnline, the
--                   pong handler, readLoop, disconnectAgent; Info and State of types.go.
--     Router        routeIncoming, resolveTargets, findDefaultAgent.
--     Registry      registry.go: the lines of the agents' registry, parseAgentRegistry,
--                   validateRegistry, LoadRegistryWithAgents.
--     Sessions, Lost, Default  proofs about these.
--   Feishu          internal/channel/feishu/feishu.go: New, handleMessage and what it calls; its child
--     Mentions      has proofs about cleanMention.
--   The modules named Examples hold concrete inputs at which the theorems are applied.
--
-- Conventions. The server is a record that each operation takes and returns; an operation that
-- holds the mutex throughout is one function, and processBriefJob is two, since the executor runs
-- between them unlocked. Every interleaving of handlers and worker is a list of actions. A time is a
-- number of nanoseconds since 1970; where the code reads the clock twice, a function takes two
-- readings. Integers are natural numbers, since the code gives these fields no negative value,
-- and timestamps of messages are a ℤ. The job counter wraps at 2 ^ 64; where new ids must be
-- new, a hypothesis bounds the counter and the length of the run by 2 ^ 64. No model runs on fuel
-- that could end too soon: format_uint has one more than the number it prints, the loop of
-- attempts recurs on the number of attempts left, all else on its data.
--
-- The gateway's limiter has floating point numbers: they are counted in units, of which `one` are 1,
-- and the results of a sum, a difference and a gain are those of the parameter `Float64`. Its theorem
-- takes a bound on their errors, which IEEE 754 gives up to the burst.
--
-- A task of a runtime takes three steps: it comes in, up to the executor; its executor returns, with
-- the counters and the event; and, in the background, it leaves the pending tasks. Its counters wrap
-- at 2 ^ 64, and the theorem on them bounds the run. Its timeout is taken below 2 ^ 63 nanoseconds.
--
-- Outside the code, and a parameter where it matters: SHA-256 and HMAC-SHA256, the JSON encoding
-- and decoding, the work of an executor (its outcome is an argument), the HTTP clients, the files and
-- their paths, the clock, the random jitter and the sleep (a World in Dispatcher), the agents'
-- sockets. A range over a map visits the list in its order. An Enqueue that blocks on a full channel
-- ends by its deadline. Writing the state to the store succeeds: the code only logs a failure.
--
-- In Durable and History a server stops between two actions, each of which saves within its section,
-- and starts again from the state that it has saved last; the store keeps what is saved.
--
-- Not modelled: the Redis queue and the stores of the state on files or Postgres (input and output);
-- the health handler; the gateway's access log, its rates in floating point and the writing of
-- answers; the mock worker and the mock executor; what starts, stops and sends on the
-- Feishu channel; the commands and the logging. The backoff is taken below 2 ^ 63 nanoseconds, and the text of a time
-- is not formatted.
pub mod Base
pub mod Api
pub mod Jobstore
pub mod Orchestrator
pub mod Webhook
pub mod Agents
pub mod Executor
pub mod Experts
pub mod Feishu
pub mod Gateway
pub mod Http
pub mod Openapi
pub mod Runtime
pub mod Sdk
