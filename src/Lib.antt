-- ===== src/Lib.antt =====
-- KinTunnel: the engine that keeps the peers of a WireGuard tunnel, the persons who own them, and
-- the addresses it hands out.
--
-- The engine (packages/engine/src) keeps one file, state.json. The calls of its HTTP API that change
-- it go through `StateStore.update`: load the file, run a mutation on the state, save the file. One
-- call does not, the restore of a backup, which replaces the file. The mutations append events to a
-- log of bounded length within the state, and to an audit sink. A reconcile compares the active
-- peers with the interface of the host.
--
-- Files:
--   Base       lists, texts as UTF-16 units, numbers in text, JavaScript's parseInt, trim and split,
--              bit operations, and results of code that throws
--   Ip         packages/engine/src/ip.ts; Ip/Subnet, Ip/RoundTrip and Ip/Allocation have its laws
--   Types      packages/engine/src/types.ts: the records of the state and of the results
--   Platform   what the engine takes from Node.js and the host, as a record of functions
--   Peers      packages/engine/src/peers.ts: the status that a peer shows, and the validators
--   Json       parsed request bodies
--   Keys       packages/engine/src/keys.ts
--   Render     packages/engine/src/config-render.ts
--   State      the class StateStore of packages/engine/src/state.ts: Requests (parsePeerCreate,
--              parsePersonCreate), Peers (createPeer, deletePeer, revokePeer), Persons (createPerson
--              to revokePersonDevices), Sweep (sweepExpired) and Context (appendEvent). Evolution,
--              Validity, Effect and Progress state what the mutations keep.
--   Store      load, save and update of the same class; Store/Calls has the calls that go through
--              update, which packages/engine/src/app.ts and backup.ts make, and their histories
--   Apply      packages/engine/src/apply.ts: the plan, the text for wg, and the dry run
--   Host       the host as a record of functions (commands, files), the events that are emitted while
--              it is driven, and steps on it that may throw
--   Networking packages/engine/src/networking.ts: Rules (the rules, iptables, the files under /proc),
--              Tables (iptables as a table of rules), Insertions, Ensured and Safety (its laws)
--   Runtime    packages/engine/src/runtime.ts: getCapabilities and getRuntimeState; Runtime/Dump
--              reads what wg dumps
--   Live       packages/engine/src/apply.ts: the live path of executeApply, rollbackPlan and
--              detectDrift (Drifts). Guarantees is an interface of relations that steps keep,
--              Rollbacks and Conduct show that the live path keeps them, Outcomes uses that.
--   Health     packages/engine/src/health.ts: Probes, and the report; Verdicts and Policy have its laws
--   Backup     packages/engine/src/backup.ts: Snapshots, Retention, Diff and Changes (how two states
--              differ), Plan, Restore and Restore/Recovery (the safety snapshot put back after a
--              failure), and Manage (creation, list, Deletion, and Transfer with export and
--              import)
--   Audit      packages/engine/src/audit-store.ts: append, rotate and query; Appends, Bounds and
--              Queries have its laws. Newest has the order of the retention, which is that of a
--              query when all dates parse.
--   Reconcile  packages/engine/src/runtime.ts: reconcile; Reconcile/Handler has the mutation of
--              POST /reconcile of packages/engine/src/app.ts
--   Api        the views of packages/engine/src/app.ts and its request to delete a person
--   Tests      runs at concrete inputs
--
-- A mutation is a function from a context (the state, the events handed to the sink, the number of
-- random draws) to a result and a context; a throw comes back as an error beside the context, and
-- `update` then leaves the file alone. The write queue runs one call at a time, so a history is a
-- sequence of calls, each at a time of its own. Instants are milliseconds. Texts are lists of UTF-16
-- units. A step on the host is a function from the context and the host's state, of any type, to an
-- attempt and both: what a step did before a throw stays done. A backup directory is the list of its
-- snapshots; JSON and SHA-256 are parameters. No definition runs on fuel: the loop of the allocator
-- counts the hosts of the subnet, and every other loop runs over a list.
--
-- The initial state is written with an empty map of warnings, where the source leaves the map out
-- of the file until the next write; a load reads both alike. A property of a stored object that is
-- none of the declared ones is not modelled.
--
-- Not modelled: the lock files and permissions; two processes that create the state file at once;
-- the lock of the backup directory and its staging directories; file errors of the audit log;
-- metrics, settings from the environment, HTTP itself, and the admin interface (packages/admin).
pub mod Base
pub mod Host
pub mod Ip
pub mod Types
pub mod Platform
pub mod Peers
pub mod Networking
pub mod Json
pub mod Newest
pub mod Keys
pub mod State
pub mod Render
pub mod Store
pub mod Apply
pub mod Runtime
pub mod Live
pub mod Reconcile
pub mod Health
pub mod Backup
pub mod Audit
pub mod Api
pub mod Tests
