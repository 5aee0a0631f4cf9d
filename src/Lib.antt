-- ===== src/Lib.antt =====
-- Verification of the core of MockAgents, a mock server for LLM APIs.
--
-- Paths are from the root of the repository. Each file opens with the source that it models.
--
--   Broadcaster  internal/server/log_broadcaster.go, the fan-out of interaction logs to live readers.
--                Subscriptions stand on a heap, and a panic (a send on a closed channel, a second
--                close) is the result `none`. A method holds the mutex, so it is one step.
--   Quota        internal/quota/quota.go, per-tenant request rates and monthly spend caps. float64,
--                the shared ledger and the calendar are parameters, with the laws that a theorem
--                needs of them as named records.
--   Chaos        internal/engine/chaos.go with internal/config/chaos_presets.go: rate-limit windows,
--                fail-first triggers, injected errors and latency. Randomness is a parameter.
--   Sessions     internal/engine/state, conversations that callers share by pointer and the store that
--                expires them. Get and Cleanup release the lock between two phases, so the later
--                phase is also a step of its own.
--   Scenarios    internal/engine/scenario_matcher.go: which scenario answers a message. The two caches
--                are passed on from call to call; `strings` and `regexp` are a parameter.
--   Logging      internal/server/log_worker.go: requests hand log entries to workers through a bounded
--                queue. Each atomic action of each goroutine is a step, and a history is any
--                interleaving of them; a panic is the result `none`. Moves and Exits count what the
--                workers still have to do once the queue is closed.
--   Recording    internal/recording/cassette.go, replay.go and mode.go: the cassette's index, the replay's
--                cursor and its match index, and the record modes. Request hashes and match keys are parameters.
--   AuthCache    internal/tenancy/auth_cache.go: the bounded cache of resolved API keys.
--   Registry     internal/engine/agent_registry.go: the agents of all tenants and the index by model
--                and tenant. Index and Fresh have the scan and what it finds; Register and Removal
--                have what a change does to it; History puts the changes together.
--   Request      internal/engine/engine.go: ProcessRequest (Process) puts Registry, Chaos, Sessions and
--                Scenarios together; the generator of responses and the tool processor are parameters.
--                Resolve has the agent that a request is for, SessionKeys the key of its session.
--   Pipelines    internal/engine/pipeline.go: agents run in sequence, in parallel or along a graph, on an
--                engine that is a parameter. Graph has the cycle check and the walk, on fuel: as many
--                peelings as nodes and edges, and a walk one deeper than the nodes. Validator is
--                internal/config/pipeline_validator.go, without its check of cycles, and Registered
--                is internal/engine/pipeline_registry.go.
--   Tenancy      internal/tenancy/types.go, the roles, and internal/server/route_authz.go, the floors of
--                the routes.
--   Tools        internal/engine/tool_processor.go: which response a tool call gets, inline or in goroutines.
--   Samples      what the examples share.
--   Float        the interface that stands for float64.
--   Prelude      what the others share: tests, lists over native numbers, Go's maps as association
--                lists and their distinct keys, signed integers, Go's order of strings.
--
-- A map is an association list, whose order is the order in which `range` visits the keys. Go leaves
-- that order open: a theorem about any state holds for every order, while in a history from a new
-- state the keys stand in the order in which the model inserts them, one that Go may take. uint64
-- counters wrap at 2^64, and so do durations that a configuration gives in milliseconds (2^63, as
-- int64); `int` counters that only count up are natural numbers. Times are natural numbers
-- (nanoseconds) that a call takes as an argument. The length of a string is that of its bytes.
--
-- Not modelled: HTTP handlers and wire formats of the adapters, YAML and JSON decoding, SQL stores,
-- tracing, command lines, client SDKs.
mod Prelude
pub mod Float
pub mod Broadcaster
pub mod Quota
pub mod Chaos
pub mod Sessions
pub mod Scenarios
pub mod Logging
pub mod Recording
pub mod AuthCache
pub mod Request
pub mod Registry
pub mod Pipelines
mod Samples
pub mod Tools
pub mod Tenancy
