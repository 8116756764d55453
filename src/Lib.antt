-- ===== src/Lib.antt =====
-- Verification of Mima, a self-hosted, end-to-end encrypted store of credentials for teams.
--
-- The server (apps/api) keeps users, memberships, ciphertexts and key envelopes in a database, decides
-- who may open which vault, limits failed logins, and writes an audit chain. The clients (packages/
-- client-core, apps/extension, apps/web) decrypt locally. Pure rules that both sides share are in
-- packages/domain; hashing of audit records is in packages/crypto.
--
-- Files, and the code that each models:
--   Prelude                 shared names, tests, lists, and tables with text keys
--   Roles, Roles/*          packages/domain/src/roles.ts
--   Access, Access/*        apps/api/src/services/access.ts, over the tables of apps/api/src/db/schema.ts
--   Lease, Lease/*          packages/client-core/src/secret-lease.ts
--   Limiter, Limiter/*      apps/api/src/auth/attempt-limiter.ts
--   Json, Json/*            canonicalJson of packages/crypto/src/audit-chain.ts
--   Anchor                  AuditAnchorStore of packages/crypto/src/audit-chain.ts
--   Audit, Audit/*          apps/api/src/services/audit.ts
--   Stream, Stream/*        packages/client-core/src/sync.ts and encrypted-sync.ts: frames of a stream
--   Outbox, Outbox/*        packages/client-core/src/encrypted-outbox.ts
--   Password, Password/*    packages/domain/src/password.ts
--   Commands, Commands/*    packages/client-core/src/outbox.ts
--   Names, Names/*          packages/domain/src/vault-group.ts
--   Folders, Folders/*      packages/domain/src/folder-path.ts
--   Feed, Feed/*            apps/api/src/routes/events.ts, with rows of apps/api/src/services/bus.ts
--   EncryptedFeed, EncryptedFeed/*  apps/api/src/routes/e2ee-events.ts
--   Panel, Panel/*          apps/extension/src/panel-model.ts
--   Sessions, Sessions/*    apps/api/src/services/session-service.ts
--   SignIn, SignIn/*        apps/api/src/auth/transaction-store.ts
--   Runner, Runner/*        apps/api/src/services/commands.ts: commands once for each key
--   Wire, Wire/*            what apps/api/src/routes/events.ts writes, for packages/client-core/src/sync.ts
--   Store, Store/*          packages/client-core/src/meta-store.ts
-- A file without a folder part, Store/Events, Access/Recovery, EncryptedFeed/Steps, Folders/Directories
-- and Folders/Changes hold definitions, and the files below them the theorems; the Examples
-- files apply them to concrete data. Definitions keep the names of the source in lower case with
-- underscores: resolveEffectiveRole is resolve_effective_role.
--
-- Conventions. A method that changes an object takes the object and returns the new one. A transaction
-- is one function on the tables that it reads and writes, since advisory and row locks order the
-- transactions, and what a command does after its commit follows at once. The current time, random
-- numbers, hashes and what else the platform provides are arguments. A time is a number of
-- milliseconds. Text that is only compared is a String; text that is taken apart is the list of its
-- UTF-16 code units.
-- Loops are recursion on the list they run over. The frame loop of a stream runs on fuel, the length of
-- the buffer, which is enough since each frame takes two units at least; the flush loop of an outbox runs
-- on the list of the server's answers, and the password generator on the list of the random numbers: twice
-- as many as the length suffice if none is thrown away.
-- Not modelled: cryptographic primitives, user interface, network protocols of identity providers,
-- request parsing, and the routes that only query the database; the manifest lists them one by one.
mod Prelude
pub mod Roles
pub mod Access
pub mod Lease
pub mod Limiter
pub mod Folders
pub mod Json
pub mod Anchor
pub mod Audit
pub mod Stream
pub mod Runner
pub mod Sessions
pub mod SignIn
pub mod Store
pub mod Outbox
pub mod Panel
pub mod Password
pub mod Commands
pub mod Names
pub mod EncryptedFeed
pub mod Feed
pub mod Wire
