-- ===== src/Lib.antt =====
-- Verichron Epoch: verification library for the code that prepares device backups as evidence and
-- shows how that goes.
--
-- The processor (apps/processor) takes each backup, hashes it, decrypts it, repairs the decrypt,
-- runs iLEAPP over it and copies the device's crash logs, each result in a folder of its own with a
-- completion marker that names what it was made from. The app (apps/epoch) runs the processor as a
-- child, cuts its output into lines, reads the lines into a progress per backup, and keeps the
-- state of a run in its main process for pages that mount again. The orchestrator
-- (apps/orchestrator), which the app starts and stops, runs the stages over a prepared backup and
-- records each run and stage in the database, where it finds what is done already.
--
-- Which file models what:
--
--   Processor, Processor/Pass       the loop body of runBackups in apps/processor/src/main.ts: the
--                                   three folders of a backup, and the changes made to them in order
--   Processor/Password              its password loop
--   Processor/CrashReports          prepareCrashReports, apps/processor/src/utils/crashReports.ts
--   Processor/Run                   the loop over the backups, summary.json and the exit code, main.ts
--   Processor/Ileapp                IleappProgress, apps/processor/src/utils/ileapp.ts, from the lines
--                                   as its patterns read them; the newest module is first
--   Contracts                       the markers, packages/contracts/ts/derivativeMarker.ts
--   Contracts/Identity              which part of its parameters identifies a derivative, there too
--   Contracts/Backups               packages/contracts/ts/discoverBackups.ts
--   Lines                           LineSplitter and lineReader
--   PrepareProgress                 apps/epoch/src/shared/prepareProgress.ts; Patterns and Matching
--                                   are its regular expressions, Banner the line that begins a backup
--   Sessions                        apps/epoch/src/main/ipc/pipelineSessions.ts
--   Handlers, Handlers/Ends         the orchestrator's child in
--                                   apps/epoch/src/main/ipc/pipelineHandlers.ts; Steps is what can
--                                   happen to it, one event after another
--   Handlers/Prepare                the processor's child there: its output, the password prompt that
--                                   it shows (Prompt), its end; Events is what can happen,
--                                   Follows what its variables then say, and Steps where a password
--                                   goes; Life, beside it, is how far
--                                   a child is
--   Orchestrator                    what a stage reads, apps/orchestrator/src/registration.ts
--   Orchestrator/Evidence           the checks of registration.ts before it writes; Register is its
--                                   transaction over the evidence tables
--   Orchestrator/Runs               apps/orchestrator/src/db.ts, the view run_completeness, and the
--                                   closing of dangling runs in pipelineHandlers.ts
--   Orchestrator/Pipeline           apps/orchestrator/src/pipeline.ts
--   Orchestrator/Discovery          apps/orchestrator/src/discovery.ts from the loaded stages on, and
--                                   apps/orchestrator/src/migrations.ts
--   AnalysisTargets                 which backups an analysis reads: analysisTargets.ts and
--                                   preparedBackups.ts of apps/epoch/src/main/ipc, and
--                                   apps/epoch/src/shared/analysisSelection.ts
--   DevicePull                      apps/epoch/src/main/tools/device-backup/ios/backupRun.ts; CrashLogs
--                                   is crashReports.ts there, Pull, Run and Again are
--                                   iosBackupSource.ts (pullBackup; runBackup; deleting an incomplete
--                                   backup, copying crash logs again), Output the OutputParser of
--                                   backupRun.ts
--   PullState                       apps/epoch/src/main/tools/device-backup/pullState.ts
--   Prelude, Tests                  shared names and lemmas; the theorems at concrete inputs
--
-- How the model stands to the code:
--
--   A folder is its marker and, beside it, the content root that its files were really made from.
--   The code never reads the second; it is there to say what a marker vouches for. A recursive
--   removal is two changes, one in which files are gone and the marker may stand, and the end. What
--   the code calls and cannot decide (hashing, the decrypt tool, sqlite, iLEAPP, copying, the person
--   at the prompt) is a record of answers, `Outside`, in which a call that throws gives none. A turn
--   is a function of these answers, so each theorem on it is about every course of the outside.
--   Markers that do not parse count as none, as readMarker has it. The map of repair failures is an
--   association list in which the newest entry is first.
--
--   A text that the code walks is a list of character codes, other strings are native. Number() is
--   exact below 2^53, which byte counts are. A plain object used as a map is an association list of
--   its own properties: a backup labelled like a property that every object inherits is out of the
--   model. Times are milliseconds as natural numbers; a timer never fires before its time. Node's
--   StringDecoder is a parameter.
--
--   The tables pipeline_runs and pipeline_stage_status are one list of runs, each with its stage
--   rows; an UPDATE is a map over it, the new UUID of a run a parameter. What a spawned stage does
--   is a parameter, and spawning it may throw; calls of the database do not fail. Postgres's LIKE
--   is a parameter. A child of the handlers is a number with what its event handlers closed over;
--   a timer fires only while it is set, and the report of a closed child, which waits for the
--   database and a file, is a later event that may come in any order.
--   A child's 'error' is not its end, which is its 'close'; no other child is started between the two.
--   The order of a stage, which its schema has as any integer, is a natural number.
--
--   The evidence tables are a record of lists, the newest row first. An INSERT … ON CONFLICT is
--   `upsert` of Prelude/Tables. Other connections may commit between the first SELECT and the first
--   INSERT of a registration; what they commit is a parameter. A pull's device folder is its
--   Status.plist, whether it has a Manifest.db, and its bytes; its answers are fields of `Answers`, and
--   its messages are constructors. A run of idevicebackup2 is a record of the variables that its
--   handlers close over, and each call of a handler is one event; events come in any order, and
--   an event whose listener is spent changes nothing. Its output comes in chunks of bytes, and the
--   decoder of one chunk, Node's toString('utf-8'), is a parameter. Where the deletion of an
--   incomplete backup fails, what it leaves of the folder is an answer.
--
--   A source of backups is a tree of directories, searched three levels deep; localeCompare is a
--   parameter.
--
--   The password loop is recursion on the rounds that are left, three, which is its own bound. All
--   other loops run over lists and trees.
--
-- Not modelled: hashing and manifests, repair, reading a stage.json, the renderer,
-- Python code and SQL; file and process I/O.
pub mod AnalysisTargets
pub mod Contracts
pub mod DevicePull
pub mod Handlers
pub mod Lines
pub mod Orchestrator
pub mod Prelude
pub mod PrepareProgress
pub mod Processor
pub mod PullState
pub mod Sessions
pub mod Tests
