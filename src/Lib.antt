-- ===== src/Lib.antt =====
-- trekker is a file manager for several machines: a NestJS server (nest-api) that lists, copies,
-- renames, deletes, compares and scans files on the hosts it can reach, and a Next.js client (front).
-- This library models the parts of the server that decide, and the state of the panes in the client,
-- as functions on explicit state, and proves what each part is there to guarantee. The calls to hosts,
-- to the database and to the file system are arguments of the definitions.
--
-- A request names a path on a host. The path guard turns it into a path that was looked up on the
-- host and lies under the member's roots, and only such a path reaches a driver. A driver on another
-- machine is given a command line, which the quoting makes of a program and its arguments. Copies and
-- moves are planned once, on the answers of the operator, and then run by a queue under limits; bulk
-- renames are judged as a batch before the first of them is made. Comparisons walk two trees, scans
-- wait in a queue, read the output of `du` and fold it into a treemap, and look for duplicates by
-- checksums of sha256sum. Tails cut a growing file into lines and hand them to all that watch it, a walk
-- of a tree lists what a delete or an upload is about, the table of `df` tells which file system a path
-- is on, and downloads answer ranges of bytes. In the client, a pane has tabs, a history and a selection.
--
-- Prelude, Text, Posix: Boolean tests and lists over the native numbers; JavaScript strings as lists
--   of UTF-16 code units with the functions of String.prototype; posix.join, normalize and dirname of
--   node:path.
-- PathGuard: nest-api/src/hosts/path-guard/path-guard.service.ts. `validate_on` is `validate` behind
--   the loading of the host, `resolve_on_host` is `resolveOnHost` with one unit of fuel for each
--   character of the path and one more, since each round takes off a segment.
-- Shell: nest-api/src/hosts/drivers/shell-quote.ts; Shell.Lexer is how a POSIX shell splits a line
--   into words, written from the standard and not from the code.
-- TransferQueue: nest-api/src/transfers/transfer-queue.service.ts. Its state is the waiting list, the
--   running map and the flag of the shutdown; `Step` has the requests, the ends of transfers and the
--   shutdown as steps in any order.
-- HashQueue: nest-api/src/hashes/hash-queue.service.ts, with its requests, ends and shutdown as events in
--   any order.
-- TransferPlan: nest-api/src/transfers/transfer-plan.ts and numberedName of
--   nest-api/src/fs/upload-name.ts. An object that is read under a key is a list of its own
--   properties, and the names of Object.prototype are read as inherited. Decimal numbers are written
--   with at most fifteen digits; the attempts stay below 1000.
-- DeletePlan: nest-api/src/fs/delete-plan.ts; the command it shows is read with Shell.Lexer.
-- UploadName: isPartialName and partialName of nest-api/src/fs/upload-name.ts, and
--   nest-api/src/fs/entry-name.ts.
-- RenamePlan: nest-api/src/fs/rename-plan.ts; RenamePlan.Slots has the threads that run patterns.
-- CompareTree: nest-api/src/compare/compare-tree.ts. `descend` recurs on the levels that may still be
--   opened, which with the depth make up the bound, so it needs no fuel.
-- ScanAggregator: nest-api/src/scans/scan-aggregator.ts, `finish` in ScanAggregator.Emit. The loop
--   over the queue of levels has 20000 units of fuel: each name in the queue came with a row, and
--   there are at most that many rows.
-- ScanQueue: nest-api/src/scans/scan-queue.service.ts, with its requests, ends and shutdown as events in
--   any order. The loop of `pump` has one unit of fuel for each scan that waits, since a round starts one.
-- DuParse: nest-api/src/scans/du-parse.ts, from the decoded text on; DuParse.Rungs has the ways to call
--   `du` of nest-api/src/scans/du-flavour.ts.
-- Sha256Sum: chunkPaths and parseSumLines of nest-api/src/hosts/sha256-sum.ts.
-- DuplicateFinder: nest-api/src/scans/duplicate-finder.ts; the checksums of a chunk are an argument.
-- TailRegistry: nest-api/src/fs/tail-registry.service.ts. TailRegistry.Entry has the ring and the
--   subscribers of one file; the clients, the timers and the sources act as events in any order, and a
--   source reports to its entry as long as the entry is in the map.
-- TreeWalk: nest-api/src/fs/tree-walk.ts. `descend` recurs on the levels that may still be entered: 63
--   at the root, 64 less the depth of its entries.
-- MountTable: nest-api/src/fs/mount-table.ts; the output of `df` is an argument, or none where the call
--   throws.
-- PaneState: front/src/components/explorer/pane-state.ts, with the targets of a pane in
--   PaneState.Targets.
-- Redact: nest-api/src/audit/redact.ts. A payload is a tree of values; the patterns are functions on text.
-- Listing, Clipboard, RowWindow, Disks: the paths of front/src/helpers/listing.ts, and clipboard.ts,
--   virtual.ts and disks.ts beside it: breadcrumbs and the targets of links, pastes, the rows of a list that
--   are drawn, and the volume of a path.
-- RateLimit: nest-api/src/audit/rate-limit.service.ts; a key of Redis is a value with the time at which
--   it is gone.
-- TailLines: nest-api/src/fs/tail-lines.ts, from the decoded text on.
-- Download: nest-api/src/fs/download-headers.ts.
--
-- Numbers are natural numbers: sizes, times and counts, which in the code stay below 2^53 or are
-- bigints. Where the code compares a difference, the subtrahend stands on the other side. A share of
-- the total that is computed in floating point is a parameter. Not modelled: messages and notes for
-- the screen, the worker thread of a pattern, the decoding of bytes, drivers, the database, the
-- controllers, the runners that drive a host, and of the client all but the state of the panes and
-- these helpers.
pub mod Prelude
pub mod Text
pub mod Shell
pub mod PathGuard
pub mod TransferQueue
pub mod Redact
pub mod RenamePlan
pub mod TailLines
pub mod TailRegistry
pub mod Disks
pub mod Download
pub mod Posix
pub mod Clipboard
pub mod CompareTree
pub mod TransferPlan
pub mod ScanAggregator
pub mod ScanQueue
pub mod PaneState
pub mod RowWindow
pub mod Listing
pub mod MountTable
pub mod DuParse
pub mod TreeWalk
pub mod DuplicateFinder
pub mod Sha256Sum
pub mod HashQueue
pub mod RateLimit
pub mod UploadName
pub mod DeletePlan
