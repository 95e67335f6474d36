-- ===== src/Lib.antt =====
-- Verification of the Go projects of this repository.
--
-- The repository holds independent programs; the parts modelled here, and where:
--
-- SchemaRegistry: the schema registry of projects/10-schema-registry. SchemaRegistry/Schema and
--   SchemaRegistry/Registry model registry/schema/schema.go: the record Registry has the two maps
--   and the id counter, and each method (Register, GetByID, GetLatest, GetVersion, Versions,
--   SetCompatLevel, CompatLevel, Delete) is a function of the same name from a registry to a result
--   or to a registry with a result. SchemaRegistry/Compat models registry/compat/checker.go: Check
--   with its levels, and Diff. The registry calls the checker through the parameter Checker.
-- Cron: projects/02-distributed-task-scheduler/scheduler/cron/parser.go. Cron/Syntax has what the
--   parser uses of the packages strings and strconv, Cron/Field parses one field into its 60 flags,
--   Cron/Schedule a whole expression.
-- EdgeCache: projects/09-edge-cache-cdn/edge/cache/store.go. EdgeCache/Elements is the list of
--   container/list with the addresses of its elements, EdgeCache/Store the cache with its map from
--   keys to addresses.
-- Observability: projects/08-observability-pipeline. Observability/Signal has the batches of
--   pipeline/pipeline.go, Observability/Batcher, Sampler and Filter the three processors of
--   processor/processor.go, Observability/Flow processBatch, over any processors and exporters.
-- MeshProxy: MeshProxy/Breaker models the circuit breaker of
--   projects/04-service-mesh-proxy/proxy/proxy.go.
-- Sql: the lexer and the parser of projects/01-log-query-engine/engine/planner/sql.go. Sql/Syntax is
--   the AST, Sql/Lexer has NextToken on the runes that are left, Sql/Parser has a function for each
--   method of Parser. Sql/Printer, which is no code of the program, writes an expression down.
-- SchemaRegistry/Api: the REST handlers of projects/10-schema-registry/api/v1/handler.go, with `handle`
--   and one function for each closure of `Handler`; `serve` is the multiplexer with its patterns. A
--   response keeps what the JSON body would hold.
-- EdgeCache/Origin, EdgeCache/Proxy: projects/09-edge-cache-cdn/edge/proxy.go, with Key and
--   ParseCacheControl of edge/cache/store.go. `serve_http` is one step with the four times at which the
--   clock is read; the goroutine of a stale answer is the later step `revalidate`.
-- EdgeCache/Coalescer: `coalescer.do` of the same file, with one step for each region that another
--   goroutine can see, under any schedule.
-- MeshProxy/Balancer: the load balancer of projects/04-service-mesh-proxy/proxy/proxy.go, with its
--   round-robin counter as a bit pattern.
-- GitFlow: projects/07-tui-gitflow-manager. GitFlow/Repo has the methods of git/repo.go over the git
--   executable as a parameter, GitFlow/Workflow those of gitflow/workflow.go.
-- Collab: projects/03-crdt-collab-backend. Collab/Crdt has the operations of crdt/crdt.go that are
--   implemented, Collab/Session the hub and the documents of session/session.go.
-- Tsdb: projects/06-timeseries-db/tsdb. Tsdb/Chunk is head/chunk.go, with what a call that panics
--   leaves behind, Tsdb/Db is db.go.
-- Scheduler: projects/02-distributed-task-scheduler/scheduler/worker/pool.go over the interface of
--   scheduler/store/store.go, a record that the store's laws are stated of.
--
-- Prelude has the shared helpers: maps as association lists, strings as lists of bytes (of code
-- points in Cron), 64-bit integers as bit patterns with their signed order, and Outcome, the result
-- of a call: values, an error, or a run-time panic.
--
-- A method that holds the mutex for its whole body is one step. The clock and the JSON decoder are
-- arguments. Error messages are values that keep what the message shows.
-- Four parts run on fuel. The marking loop of the cron parser visits at most 60 values, and its 61
-- rounds end by the test of the loop. The SQL parser counts the depth of its recursion and the rounds
-- of its loops, and the length of the text and one more is enough. The loop of Samples is given a number
-- of rounds, and every number gives the same; that of nextActive needs two more rounds than there are
-- steps from its first value to its last.
--
-- Not modelled: functions that panic as not implemented (Schedule.Next, the rest of the CRDTs, the
-- challenges), network, terminal and command-line code, and the projects not named above.
pub mod Prelude
pub mod Scheduler
pub mod SchemaRegistry
pub mod Collab
pub mod Cron
pub mod EdgeCache
pub mod Observability
pub mod MeshProxy
pub mod Sql
pub mod GitFlow
pub mod Tsdb
