-- ===== src/Lib.antt =====
-- A verification library for baru-reso-headless-controller, a controller of Resonite headless
-- hosts: it starts containers, follows the events of their hosts, keeps sessions, groups and
-- roles in Postgres, runs scheduled operations, and rolls hosts onto new images.
--
-- Parts and files:
--  * Prelude: the shared names. Prelude/Tests, Lists and Maps are Go's comparisons, slices and
--    maps, Prelude/Results and Exec are `(value, error)` and methods that change an object,
--    Prelude/Outcome follows a method step by step, Prelude/Int32 is int32 with its wrap-around.
--  * Domain: the entities of domain/entity and usecase/port that the parts share.
--  * Permission: usecase/permission_usecase.go (Check), usecase/group_usecase.go (Groups),
--    usecase/role_usecase.go (Roles), and the queries of db/groups.sql.go,
--    db/group_members.sql.go, db/roles.sql.go and db/role_permissions.sql.go (Tables). A table
--    is a list of rows; `down` says which queries the database refuses while a request runs.
--    Check/Rows and Check/Grants read decisions as rows, RoleTables has the writes on roles with
--    the triggers that protect builtin ones. Groups/Escalation says whom a member is added for,
--    Groups/SystemGroup and Groups/Calls keep the system group alive.
--  * Sessions: adapter/sessionstate/cache.go (Cache), db/sessions.sql.go (Rows),
--    worker/session_lifecycle_handler.go (Lifecycle) and worker/session_state_sync_handler.go
--    (StateSync). Cache/Agreement and Cache/Pruning keep the two indexes of the cache,
--    Cache/Contents shows it as one map;
--    Lifecycle/Replays and Lifecycle/Ownership say what an event can change, StateSync/Reports,
--    Resets and Rebuilt what a stream reset leaves. Usecase and Ports are
--    usecase/session_usecase.go with the port range of config/config.go: Starting, Stopping,
--    Queries (GetSession, which heals a row) and Changes say when a container is asked and what
--    the row becomes.
--  * Schedule: usecase/scheduled_op (Schedule), db/scheduled_session_operations.sql.go (Rows) and
--    worker/scheduled_operation_executor.go (Executor). Rows/Lifecycle, Rows/Effects and
--    Rows/Claims are about any sequence of statements, Executor/Authority about what the executor calls and as whom.
--    Cancellation has `Cancel` of usecase/scheduled_session_operation_usecase.go; the rows may
--    change between its read and its update.
--    JSON decoding is an argument.
--  * Notification: usecase/notification/bus.go. Notification/Buffers and Delivery say what a slow
--    subscriber still gets.
--  * Jobs: usecase/async_job (Dispatch), db/async_jobs.sql.go (Rows) and
--    worker/async_job_executor.go (Executor), which tells the creator on the bus of Notification.
--    Dispatch/Preparing says which call a row stands for, Dispatch/Handover follows a request through
--    the queue, Executor/Telling says who is told, Executor/Endings why an execution ends as it does,
--    and Executor/Completion that it always does. protojson and the usecases that a job calls are
--    arguments.
--  * Hosts: usecase/headless_host_usecase.go, on the state and services of Sessions/Usecase.
--    Hosts/Tags is about the tag of a new container, Hosts/Launching and
--    Hosts/Ending about starting and stopping one.
--  * Rpc: adapter/rpc/permission_interceptor.go (Interceptor) with the rules that the services
--    register (Interceptor/Rules). Interceptor/Admits says what each rule asks for, Passes and
--    Checks that it does, Admission that no request gets by, Outsiders what a refusal gives away.
--    The groups of hosts, sessions and accounts are arguments; strings.TrimSpace is Text.
--  * Upgrade: worker/host_upgrade_orchestrator.go. `Outside` gives the answer of each call as a
--    function of all calls made so far, so answers may change at any time; `others` is what
--    other goroutines do to the cached user counts while a call runs. Upgrade/Events has the
--    handlers; Stops, Restarts, Attempts, Counts, Events/Draining, Events/Enrollment and
--    Events/Signals prove what they promise.
--  * Worker: worker/loop.go. What the context, the clock and the called function do in each pass
--    of the loop is a list; Worker/Backoff gives the waits in closed form.
--
-- Loops over slices are structural recursion, so no fuel is needed. Texts are compared as the
-- library does. An instant is a natural number (of nanoseconds where a duration is added). The
-- per-host lock of a reconcile is taken as exclusion: nobody else writes the host's entry
-- meanwhile.
--
-- Not modelled: Docker, the handlers of the gRPC services, HTTP, converters and generated code,
-- the deletion and the logs of hosts, the paged listings, the creation and listing of scheduled operations, and the
-- goroutines, tickers and timeouts of the workers, for which sequences of calls stand.
pub mod Prelude
pub mod Domain
pub mod Permission
pub mod Sessions
pub mod Schedule
pub mod Notification
pub mod Jobs
pub mod Hosts
pub mod Rpc
pub mod Upgrade
pub mod Worker
