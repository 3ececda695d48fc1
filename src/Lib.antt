-- ===== src/Lib.antt =====
-- Verification of the AI Control HUD: the agent and the hub of the Go code under agent/.
--
-- The agent watches two sources on a machine (the ZCode task store and the Command Code usage
-- service), keeps one snapshot of them, derives events from tasks that end, holds these in a
-- durable outbox, and posts snapshot, heartbeats and events to a hub. The hub keeps them in a
-- SQLite database, caches the primary agent's snapshot, serves it with its age taken into
-- account, and serves the log of events by pages. Old events are pruned.
--
-- Files, and the code they model (paths from the repository's root):
--   Prelude, Prelude/*       shared types, tests, lists, texts, tables and results
--   Domain, Domain/Validate  agent/internal/domain/state.go: the snapshot and `Validate`
--   Domain/Spec, Spec/*      what a valid snapshot is, and that `Validate` decides it
--   Snapshot, Snapshot/*     agent/internal/store/snapshot.go: `SnapshotStore`
--   Collect, Collect/*       agent/internal/runtime/runtime.go: the collection loops, which put what
--                            the collectors give into the store, and what is shown then
--   Zcode/Status, Zcode/TurnLog   agent/internal/collector/zcode: the statuses (collector.go) and the
--                            lines of the turn log (turn_log.go, evidence.go)
--   Zcode/Activity, Zcode/Since, Zcode/Lines   what the turn log says of a session
--   Zcode/Values, Counts, Database, Goal, Goals, Sessions, TaskIndex, Collector   agent/internal/
--                            collector/zcode/collector.go and runtime_session.go: the helpers, the
--                            tables with their queries, the three reads, and `Collect`
--   Zcode/Loops, Tally, Shows, Gathers, Runs, Apart, Whole, Live, History, Collected, Counted,
--   Once, Ended, Environment, Errors, Feed   the proofs about it; Feed puts it under the collection
--                            loop
--   CommandCode, CommandCode/*   agent/internal/collector/commandcode/collector.go and static.go: what
--                            is made of the two answers of the billing service
--   Discovery, Discovery/*   agent/internal/hub/discovery.go and discovery/discovery.go: the hub's
--                            announcement, and the agent's search for it
--   Events                   agent/internal/events/event.go: `Event` and its `Validate`
--   Events/Outbox, Outbox/*  agent/internal/events/outbox.go and hygiene.go: `Observe`, `Pending`,
--                            `Ack`, `Count`, `Stats`, `Maintain`
--   Events/Baseline, Events/Emission   what `Observe` writes to the two tables
--   Events/Hygiene           what `Maintain` leaves and `Ack` removes
--   Hub/Models               agent/internal/hub/models.go: what is posted, and its checks
--   Hub/Store, Store/*       agent/internal/hub/store.go and `EventBounds` of retention.go
--   Hub/Clone, Hub/Server    agent/internal/hub/state_cache.go and server.go: the cache and the
--                            handlers, each a function of the server that returns it anew
--   Hub/Retention            agent/internal/hub/retention.go: `PruneEvents`
--   Hub/Config, Hub/Agreed   agent/internal/hub/config.go: `Validate`, and the policy of a
--                            retention of very many days
--   Hub/Log, Hub/Cursor, Hub/Cached, Hub/Retained   the proofs about the four above
--   Remote/Config, Remote/Client   agent/internal/remote/config.go and client.go: the address of
--                            the hub, and the uploads with their second attempt
--   Remote/Backoff, Remote/Delivery   agent/internal/remote/runtime.go: the pace of the loops, and
--                            their rounds; the delivery loop is cut where others may run
--   Remote/Wire              the network, which ends at the handlers of Hub/Server; a request may
--                            be lost, or its answer
--   Remote/Schedule          agent and hub in one world, and any sequence of the loops' steps;
--                            the hub's retention is no step of it
--   Hub/Cached/Crossed       two posts at once, by the two steps of each
--   Remote/*                 the proofs about the agent's side
--   Examples                 concrete values, and each theorem applied to some
--
-- How the code is read. A method that changes an object is a function that returns the new
-- record with the method's result; a Go `error` is `Prelude.Result.Error`, whose text is shorter
-- than the code's. A `time.Time` is a number of nanoseconds since the zero time; no clock stands
-- before it. A pointer is an `Option`, and a slice is one where nil matters. `float64` is a
-- parameter with the comparisons that the code makes. A table of a database is a list of rows;
-- each SQL statement is the list function that its text states, and a transaction that is not
-- committed leaves the database as it was. Whether a statement succeeds is an argument `io`, so a
-- theorem that holds for every `io` holds under every fault. JSON, the texts of times,
-- `julianday`, `strconv.ParseInt` and random ids come from outside this repository and are
-- fields or arguments, with the laws that are needed (`HubLaws`) as hypotheses. The tables that the
-- ZCode collector reads are arguments of each of its reads, so they may change between two.
--
-- Fuel. The loop of `PruneEvents` and the reader of the event log take fuel, and a theorem says
-- how much is enough: one more than the rows that are left.
--
-- Not modelled: HTTP, TLS and the JSON encoders; opening and configuring the databases; page
-- counts and checkpoints; the operating system's services, secrets, access lists and firewalls;
-- the command lines; the provider files of Command Code and the evidence report; the sockets of
-- the LAN discovery; tickers, pauses and cancellation; the Android, Windows, Python and script
-- code. How `zcodepath.Resolve` finds the paths is not modelled: what it gives is an argument. The
-- mutexes make each method of a store one step, and `PruneEvents` too, although it lets other
-- requests in between its batches; the pointers that `clone` copies are values, so aliasing is not
-- modelled.
pub mod Prelude
pub mod Collect
pub mod Zcode
pub mod CommandCode
pub mod Discovery
pub mod Domain
pub mod Snapshot
pub mod Events
pub mod Hub
pub mod Remote
pub mod Examples
