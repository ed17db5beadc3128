-- ===== src/Lib.antt =====
-- Verification of PingSanto: an agent that queues probe results, spills them to disk and sends them, and
-- the controller that hands out upgrades to the agents.
--
-- The program's parts. Workers put each probe result into a bounded queue in memory
-- (agent/internal/queue/result_queue.go). The queue hands its oldest results to a spill store on disk
-- (agent/internal/queue/persist/store.go) when it reaches a threshold. The transmitter
-- (agent/internal/transmit/transmitter.go) drains the queue into a sink, and when the queue is empty it
-- replays the spill store through a rate-limited backfill controller
-- (agent/internal/backfill/controller.go), which acknowledges a batch to the store once it is sent. What
-- is probed, and when, is up to the scheduler, which the monitor sync (agent/cmd/agent/main.go) keeps up
-- to date with what it fetches through the uplink (agent/internal/uplink/client.go); the health
-- checker watches the queue and the sync. The upgrade manager (agent/internal/upgrade) fetches a plan
-- from the controller, has its artifact downloaded, verified and unpacked, installs the binary, and
-- reports. The controller (controller/internal) serves plans, reports and artifacts over HTTP, from a
-- store of plans and a store of artifacts.
--
-- The files.
--   Prelude         library names, the Boolean tests on the native numbers, lemmas on lists, texts, maps
--                   with text keys, and the parsing of decimal numbers.
--   Persist         the spill store. State has the store, its errors, the faults of the file system and
--                   the monad of its methods; Frame the record format; Segments the segment list;
--                   Writer `Append` (rotateIfNeeded, createSegment, enforceMaxBytes, persistState);
--                   Reader `ReadBatch`; Acker `Ack`; Names the names of segment files; Opening `Open`
--                   (loadSegments, loadState, ensureWriteSegment) and `Close`. View has the abstract
--                   view: `Holds s ps` says that the store `s` is well formed and that its unread
--                   results are the list `ps`.
--   Queue           the result queue: `enqueue` for Enqueue, `drain` for Drain, `spill_oldest` for
--                   spillOldestLocked. Its store is a record of one operation, `Spill`.
--   Backfill        the backfill controller: `next` for Next, `ack_replay` for Ack. The limiter of
--                   golang.org/x/time/rate is the record of operations `RateLimit`.
--   Transmit        the transmitter: `flush_queue`, `flush_backfill`, and `run` for the loop of Run. It
--                   puts the spill store's `append` into the queue's `Spill`, and gives the controller
--                   the same store.
--   Scheduler       the scheduler (agent/internal/scheduler/scheduler.go): `update` for Update, `tick`
--                   for tick, over a map of monitors and the jobs that the channel has taken.
--   Worker          the worker pool (agent/internal/worker/pool.go): `handle_job` for handleJob, and a run
--                   of runWorker's goroutines as the turns of workers, with what a batch gives and the
--                   sink of results as parameters.
--   Config          the agent's state file (agent/internal/config/state.go: `load_state`, `save_state`,
--                   `update_state`) and its signed configuration (config_writer.go).
--   Monitors        runMonitorSync (agent/cmd/agent/main.go): what it does with a snapshot of monitors,
--                   and in Loop its rounds, with the uplink, the health checker and the scheduler.
--   Uplink          the client of the central service (agent/internal/uplink/client.go).
--   Health          the readiness checker (agent/internal/health/checker.go).
--   Metrics         the gauges and counters (agent/internal/metrics/store.go), fed by the queue's recorder
--                   and by the health checker.
--   Upgrade         the upgrade manager (agent/internal/upgrade/manager.go): `poll` for poll, `apply_plan`
--                   for applyPlan, `polls` for the loop of Run. Its children are Client (client.go:
--                   `fetch_plan`, `report_upgrade`), Applier (applier.go: `apply`) and Installer
--                   (installer.go: `install`, `rollback`), which the manager takes as answers.
--   Plans           the in-memory store of upgrade plans (controller/internal/store/store.go).
--   Artifacts       the stores of artifacts (controller/internal/artifacts/store.go): Names for the names
--                   of files, Memory for MemoryStore, Files for FileStore.
--   Server          the controller's HTTP handlers (controller/internal/server/server.go): Access
--                   (extractAgentID, authorizeAdmin), Agents, Admin and Uploads for the handlers,
--                   Routes for the routes of New. The two stores are the records of operations
--                   `PlanStore` and `ArtifactStore`, which Memory fills with Plans and Artifacts.Memory.
--                   The client in Upgrade talks to these handlers.
--   The modules named Tests run the definitions, and apply theorems, at concrete inputs.
--
-- State and faults. A method of the store is a function from the store to a result and a store: what it
-- changed before an error stays changed. A segment carries the bytes of its file. Each call to the
-- operating system may fail, as a record of faults says; so it is with the files of an upload, of an
-- installation, of an unpacked artifact and of the agent's state. The methods of the queue, the store,
-- the scheduler, the health checker and the controller's stores in memory run under a mutex, so each is
-- one step. ObserveReadiness of the metrics takes none: there a step is one atomic load, addition or
-- store, and the calls alternate in any order. What the workers enqueue during a Send, among the
-- results that a failed Send gives back, and during the sleeps is part of the transmitter's round; no
-- worker enqueues within a call of the backfill controller. Rounds of the sync and ticks of the
-- scheduler, and the workers of the pool, alternate as a list of events or turns says. A handler is a
-- function from a request and a state to a response and a state.
--
-- Parameters. JSON, YAML, SHA-256, gzip, tar, minisign, the HTTP router and client, the rate limiter, and of
-- Go's package strings the functions TrimSpace, ToLower and EqualFold stand for themselves: the
-- definitions take them as arguments. A request or a response carries what its body decodes to.
--
-- Bounds. Counters of the queue are uint64 and wrap. The length field of a record is a uint32 and
-- wraps; sizes, offsets and sequence numbers (int64) are natural numbers, which the store never
-- makes negative, and a file whose name has a negative number is left out. The digits of a number
-- are taken on as much fuel as the number itself, which is enough. The loop that moves a monitor's
-- next time runs on as much fuel as there are nanoseconds to catch up, which is enough, since an
-- interval is at least one. The other loops run over lists that get shorter; the loop of Run takes
-- one round of input at a time, and as many rounds as there are results are enough to replay them.
--
-- Not modelled: the wrap-around of int64 other than in the monitor sync's durations; the probes
-- (agent/internal/probe) but for their requests; the store in Postgres, whose behaviour is the
-- database's; the heartbeat; TLS, certificates and enrolment; diagnostics, the reading of the configuration,
-- logging and command lines, which are input and output.
pub mod Prelude
pub mod Persist
pub mod Artifacts
pub mod Server
pub mod Queue
pub mod Backfill
pub mod Transmit
pub mod Scheduler
pub mod Worker
pub mod Config
pub mod Monitors
pub mod Health
pub mod Plans
pub mod Metrics
pub mod Uplink
pub mod Upgrade
