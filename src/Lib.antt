-- ===== src/Lib.antt =====
-- awiki-cli is the command line client of a messaging service, in Go. This library models the
-- parts of it that decide what happens to a user's installation and data: whether a build may
-- run, how a workspace on disk moves to a newer schema, which identities it holds and how their
-- handles are read, what the local store keeps of contacts and messages and how it changes owner
-- when a handle is recovered, where notifications go, and how the client keeps its connections.
-- At its start the client asks the update check and then runs the workspace upgrade; the other
-- parts serve single commands, the listener and the service beside it. The contacts, the messages
-- and the outbox are tables of one database; the upsert of a contact is the one operation that
-- changes two of them. The parts share no other state.
--
--   Base and Base/*: what the other modules share: Boolean tests and lists on native numbers, a
--     value or an error, Go's int, three-way signs.
--   Text and Text/*: Go strings as lists of code points, with the functions of package strings
--     and strconv.Atoi that the program uses, and their laws.
--   Update/Version: internal/update/update.go, parseSemVersion, compareVersions,
--     comparePrerelease, compareNumericIdentifiers.
--   Update/Cache: the same file, cachePath, readCache, writeCache, fetchFromRegistryURLs,
--     fetchFromRegistryURL, loadMetadata.
--   Update/Decision: the same file, parseBool, isDevVersion, check.
--   Upgrade/Machine: internal/upgrade/types.go, journal.go and meta.go: the files on disk and the
--     operations on them.
--   Upgrade/Detect: internal/upgrade/detect.go, Inspect and Detect.
--   Upgrade/Plan: internal/upgrade/types.go, Migration and Plan.
--   Upgrade/Lock: internal/upgrade/lock.go, AcquireFileLock.
--   Upgrade/Backup: internal/upgrade/backup.go, CreateBackup.
--   Upgrade/Migrations: internal/upgrade/migration_v0_to_v1.go and NewDefaultUpgrader of
--     upgrader.go. Migrations/Laws and Migrations/Steady relate the three migrations to the laws
--     of Run/Interface and Run/Calm.
--   Upgrade/Run: internal/upgrade/upgrader.go, UpgradeIfNeeded. Run/Interface has the laws that a
--     migration must satisfy.
--   Routes: internal/runtime/openclawnotify/routes.go.
--   Store: internal/store/recover_merge.go, its helpers, MakeThreadID of helpers.go and
--     defaultString of dao.go. Store/Table is the merge loop of a table, Store/Message, Contact,
--     Binding, Group and Member its instances.
--   Store/Book: internal/store/dao.go, UpsertContact, upsertContactHandleBinding,
--     GetContactByDID, GetCurrentContactByHandle.
--   Store/Current: internal/store/recover_merge.go, normalizeRecoveredCurrentHandles.
--   Store/Inbox: internal/store/dao.go, StoreMessage, StoreMessagesBatch, GetMessageByID.
--   Store/Outbox: the same file, QueueE2EEOutbox and the other functions on e2ee_outbox, and the
--     deletions of ClearOwnerE2EEData and the recovery merge.
--   Identity/Did and Identity/Handle: internal/identity/did.go, the functions that read a DID,
--     and internal/identity/handle_input.go.
--   Identity/Names: internal/identity/layout.go, sanitizeComponent and its like, and
--     internal/identity/store.go, chooseNamedIdentity, chooseDefaultIdentityName,
--     uniqueBackupDir.
--   Identity/Index: the same files, the index of identities, save, ReplaceIdentity, SetDefault,
--     Current.
--   Transport: internal/transportcfg/config.go, durationFromEnv, TimeoutForProfile,
--     WithProfileTimeout.
--   Message/Discovery: internal/message/service_discovery.go.
--   Listener/Session: internal/runtime/listener/server.go, session and runSessionLoop, with Close
--     and recordSessionError of the supervisor, as a step relation.
--   Tests in each part: runs on concrete data.
--
-- A function of the source keeps its name, in the spelling of this library; a part of a function
-- that has a name of its own stands next to it. Errors are values of a sum. State is passed
-- explicitly: the upgrade runs on a machine that has the disk, the clock, a list of faults to
-- come and the locks. Each write takes the next fault, which lets it succeed, fail without effect
-- or fail after it took effect, so that every list of faults is a way in which a run may be
-- disturbed or cut off. Other processes act between the first inspection and the lock, by a
-- function that is an argument.
--
-- Loops are recursion on the list that they run over; the loop of Plan runs over the distance of
-- the two versions, so that no fuel is needed. The search for a free backup directory runs on
-- fuel: two more than there are files is enough. The search for a free name tries 998 numbers, as
-- in the source. The loop of a session has no end of its own and is a relation between states.
-- Go's 64-bit durations wrap in the cache's lifetime and in the timeouts, and strconv.Atoi has
-- its range; the other integers are natural numbers, or integers where they may be negative.
--
-- Parameters stand for what the source calls: the HTTP client, time.Parse, process tests, time
-- formats, unicode.ToLower beyond ASCII, url.PathUnescape, url.ParseRequestURI,
-- time.ParseDuration, the environment, the ORDER BY of a query, the file that VACUUM INTO writes,
-- and the calls of the migrations in the packages of the configuration, the identities and the
-- store. JSON files are values or files that do not parse. Times are numbers.
--
-- Not modelled are the other packages: the command line, configuration, the identity service with
-- its keys, the message and mail services with their wire formats and cryptography, the handling
-- of notifications, the doctor and the output, which mostly call external services, SDKs and the
-- operating system. Of the parts above, what the migrations call, path helpers, the files of an
-- identity's directory and tracing are left out; of the recovery merge the relationship events
-- and the sessions of end-to-end encryption; of the local store the groups, their members, the
-- change of an owner's DID and free SQL. A failed SQL statement rolls its transaction back, so
-- the statements are modelled for runs without one, except where Store/Current and Store/Outbox
-- name the violated key.
mod Base
pub mod Text
pub mod Update
pub mod Upgrade
pub mod Routes
pub mod Store
pub mod Identity
pub mod Transport
pub mod Message
pub mod Listener
