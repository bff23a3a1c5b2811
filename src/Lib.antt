-- ===== src/Lib.antt =====
-- Verification of the core of StackForge, a Go program that installs a Consul, Nomad and Traefik
-- cluster and runs a control plane which registers domains and routes them.
--
-- The parts, and the files that model them. A type or function of the source keeps its name, in
-- this library's spelling; a comment above a definition names the function where it is only a part
-- of one.
--   internal/stackforge/domainpool/domainpool.go: Pool (the file of entries, Add, Remove, Find),
--     Pool/Retry (options, repeated calls), Pool/Apply (ApplyDNS, ApplyAll), Pool/Verify
--     (VerifyDNSWithOptions), Pool/Audit. The state is a World: files, audit lines, the number of
--     identifiers drawn, the state of the DNS service.
--   internal/controlplane/dns/cloudflare/client.go: Cloudflare. The pool and the reconciler call it.
--   internal/controlplane/domain/domain.go: DomainName (names, which the pool uses too) and
--     Registry (the Store in memory: three maps).
--   internal/controlplane/auth/auth.go: Auth. internal/controlplane/http/server.go: Server, the
--     handlers behind Auth's middleware, over Registry and Reconcile.
--   internal/controlplane/reconcile/reconcile.go: Reconcile, over Cloudflare and Backends.
--   internal/controlplane/discovery/consul/client.go and
--     internal/controlplane/orchestrator/nomad/client.go: Backends.
--   internal/stackforge/config/config.go: Config; internal/stackforge/safety/safety.go: Safety;
--     internal/stackforge/firewall/firewall.go: Firewall, both over Config.
--   internal/controlplane/domain/sqlite.go and postgres.go: Sql (tables as lists of rows, and the
--     statements that both stores send), Sql/Sqlite and Sql/Postgres (the methods that differ),
--     Sql/Repository (the interface of domain.go with what it owes its clients).
--   internal/controlplane/config/config.go and internal/stackforge/osdetect/osdetect.go: Settings.
--   internal/stackforge/rollback/rollback.go: Rollback, over an executor.
--   internal/stackforge/remoteexec/remoteexec.go: Remote. internal/stackforge/secrets/secrets.go:
--     Secrets. The quoting for shells that four packages repeat: Shell.
--   internal/stackforge/install/install.go: Install (steps and reports), Install/Commands (the
--     texts of its shell commands), Install/Plan, Install/Services and Install/Steps (Plan),
--     Install/Run (the loop of Run) and Install/Start (Run), over Config, Safety, Firewall, Secrets, Inventory and Rollback.
--     A step holds three functions on the nodes, files and shared secrets, as it does in the code.
--   internal/stackforge/backup/backup.go: Backup (manifest, plans, files), Backup/Run and
--     Backup/Restore. internal/stackforge/upgrade/upgrade.go, uninstall/uninstall.go and
--     status/status.go beside it: Maintenance, over Backup.
--   internal/stackforge/verify/verify.go: Verification, over Inventory, Backup and Maintenance.
--     internal/stackforge/validate/validate.go: Validation, over Config, Safety and Firewall.
--   internal/stackforge/components/components.go: Components, over Inventory.
--   internal/stackforge/inventory/inventory.go and observe.go: Inventory and Inventory/Observe.
-- Base, Text, Net, Paths and Maps hold what the program uses of Go and its standard library; Host
-- holds what the machine does. The modules under a component hold its theorems, Tests runs at
-- concrete inputs.
--
-- How the code is read. An error is its text; a Cloudflare error keeps its status. Texts are
-- sequences of characters, with the case mapping of ASCII, and `%q` writes no escapes. Times are
-- seconds, 0 is the zero time, and an operation reads the clock once. YAML and JSON are a Codec, a
-- pair of functions at one type, with the round trip as a hypothesis where a theorem needs it. A
-- file operation fails as the Host says, by path and contents, and the Host says what a failed
-- write leaves in the file. HTTP services, resolvers, executors and digests are parameters:
-- functions on a state. Random identifiers are a function of the number drawn. Ports, retries and
-- delays that are negative count as 0. The order in which Go ranges over a map is that of
-- insertion. A cancelled context only shortens sleeps, which are kept as a list.
--
-- Loops are structural recursion on the list that the code ranges over; the retry loop recurses on
-- the attempts that are left, `retryCount` of them after the first, so no fuel is needed. Only
-- the printing of a number recurses on fuel, and a number has no more digits than its value plus
-- one.
--
-- A database may fail at every statement, and a failed statement changes nothing; of rows that
-- ORDER BY does not tell apart the first inserted comes first. A shell command is a text, whose
-- effect is the executor's. The outcome of an installation step is that of its functions.
--
-- Not modelled: the command line and SSH (input and output); the bootstrap of a node; opening a
-- database; the lists of backups and of rollback records, which read a directory.
pub mod Base
pub mod Text
pub mod Net
pub mod Paths
pub mod Host
pub mod DomainName
pub mod Cloudflare
pub mod Pool
pub mod Maps
pub mod Registry
pub mod Config
pub mod Safety
pub mod Firewall
pub mod Auth
pub mod Backends
pub mod Reconcile
pub mod Shell
pub mod Remote
pub mod Secrets
pub mod Server
pub mod Sql
pub mod Inventory
pub mod Rollback
pub mod Install
pub mod Backup
pub mod Settings
pub mod Maintenance
pub mod Tests
pub mod Verification
pub mod Validation
pub mod Components
