-- ===== src/Lib.antt =====
-- LINBO Docker: the API service (containers/api/src), its command language, its operations on
-- hosts, its image paths, its import of devices, its Wake-on-LAN packets, its driver paths and
-- catalogue of devices, its start.conf rewriting, its jobs for machine accounts and for
-- provisioning, and its two workers.
--
-- How the parts interact: a request names hosts and a command string. The string is parsed and
-- validated (remote.service.js), an operation with one session for each host is created in Redis
-- (sync-operations.service.js), and a pool of workers runs the commands over SSH and records each
-- outcome; a second request may cancel the operation meanwhile. Image names and the paths that
-- the database stores for them are checked and resolved by image-path.js. A CSV file of devices
-- is parsed and validated by deviceImport.service.js before its hosts are stored. Beside this a
-- worker of its own takes queued operations from the database, and another one scans the hosts
-- and keeps their status.
--
-- Files:
--   Base, Text: shared names; JavaScript strings as lists of UTF-16 code units, `split`, `join`,
--   `parseInt`, and Node's `path.join`.
--   Remote: parseCommands and validateCommandString of containers/api/src/services/
--   remote.service.js. Remote.Segments is the grammar, Remote.Lookahead and Remote.Parsing prove
--   the agreement, Remote.Valid what parsed commands satisfy.
--   Ops: containers/api/src/services/sync-operations.service.js. Ops.Data holds the stored values,
--   Ops.Redis the interface of the Redis server, Ops.Sessions createOperation, updateSession,
--   checkOperationCompletion and cancelOperation, Ops.Execute executeDirectCommands, Ops.Pool the
--   workers of runWithConcurrency, a step being the end of one call. Ops.Execute runs the hosts one
--   after the other; Ops.Handlers lets their handlers take turns, a step being one command to Redis
--   or one call of the SSH service. The other modules prove: Ops.Turns and Ops.Interleaved compare
--   the two, Ops.Progress counts steps, Ops.Pool.Counts, Ops.Pool.Invariant, Ops.Pool.Results and
--   Ops.Pool.Runs are about the workers.
--   Ops.Listing holds getOperation and listOperations, Ops.Pages proves what its pages show.
--   Image: containers/api/src/lib/image-path.js, with Image.Names and Image.Paths.
--   Import: containers/api/src/services/deviceImport.service.js: the CSV parser; Import.Rows holds
--   validateCsvRow, validateCsv and the hosts that importFromCsv takes from the report, the other
--   modules prove.
--   Wol: containers/api/src/services/wol.service.js; Wol.Packet and Wol.Notation prove the layout of
--   the packets and that they do not depend on the spelling of the address.
--   Driver: sanitizeName and sanitizeRelativePath of containers/api/src/lib/driver-path.js.
--   Macct: containers/api/src/services/macct.service.js over an interface of the table of operations
--   and the two Redis streams; Macct.Retries and Macct.Once prove.
--   Tables: the interface of a database table; Tables.Laws proves what a lookup finds after updates.
--   Worker: containers/api/src/workers/operation.worker.js over three tables; Worker.Next,
--   Worker.Oldest, Worker.Made, Worker.Runs, Worker.Sessions, Worker.Owners, Worker.Batches,
--   Worker.Cancel, Worker.Overwritten and Worker.Retry prove.
--   Scan: containers/api/src/workers/host-status.worker.js and what it calls of
--   containers/api/src/services/host.service.js; Scan.Online, Scan.Stale and Scan.Counting prove.
--   Catalog: containers/api/src/lib/driver-catalog.js; Catalog.Merging proves what the merge with an
--   overlay keeps and takes, Catalog.Lookup what the lookup of a device finds.
--   Provision: containers/api/src/services/provisioning.service.js over the tables of operations and
--   of hosts; Provision.Once and Provision.Reports prove.
--   StartConf: containers/api/src/lib/startconf-rewrite.js; StartConf.Words, StartConf.Replacing,
--   StartConf.Heads and StartConf.Lines prove what replacing a word twice does to a line, and
--   StartConf.Rewritten what it does to a file.
--   Tests: stores in memory for the interfaces, runs, and the theorems at concrete inputs.
--
-- Bounds and fuel: the loop of parseCommands runs on fuel, the length of the trimmed string; each
-- round takes at least one code unit, so it is enough. The batches of the operation worker run on
-- one unit of fuel for each session, which is enough as no batch is empty. Numbers are unbounded
-- where JavaScript has doubles. `toLowerCase` is modelled on ASCII letters; the delimiter of a CSV
-- file is one code unit.
--
-- Not modelled: expiry of Redis keys, WebSocket messages, log output, JSON as text (a stored JSON
-- text is the value that it holds), the HTTP routes, the services that only call external
-- programs, and the web frontend.
pub mod Base
pub mod Text
pub mod Remote
pub mod Ops
pub mod Image
pub mod Import
pub mod Wol
pub mod Tables
pub mod Worker
pub mod Scan
pub mod Catalog
pub mod Provision
pub mod StartConf
pub mod Macct
pub mod Driver
mod Tests
