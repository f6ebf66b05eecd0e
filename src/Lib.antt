-- ===== src/Lib.antt =====
-- syncat keeps directories of several nodes the same, peer to peer. A node offers shares and
-- subscribes to those of its peers. It scans its copy into an index of rows, one for a path, each
-- with a version vector; peers send each other their rows over an authenticated connection; for
-- each share a node compares its rows with the peer's and decides, path by path, what to do; a
-- change that would delete too much is put on hold until the user confirms it.
--
-- The files, with the code they are about:
--   Vector, Vector/*      internal/sync/reconcile.go: `Equal`, `Dominates`, `Concurrent`, `Merge`,
--                         `Bump`. A Go map is a list of pairs with one entry to a key (`IsMap`),
--                         in any order; a counter is a ℕ that wraps at 2^64.
--   Path, Path/*          internal/sync/path.go: `ValidateRelPath`, `JoinSharePath` and
--                         `checkNoSymlinkParents`, with the parts of path/filepath they use.
--                         What `os.Lstat` answers is a parameter.
--   Reconcile/Names       internal/sync/reconcile.go: `ConflictRelPath`, `loserConflictRelPath`,
--                         `splitExt` and the layout of the time stamp.
--   Reconcile/Decide      `reconcileOne`, `reconcileConcurrent`, `reconcileIdenticalContent`,
--                         `conflictWinnerIsRemote`.
--   Reconcile/Pass        `Reconcile`, `indexByPath`, `isDirEntry`; the ignore function is a
--                         parameter. The other files of Reconcile are theorems.
--   Hold, Hold/*          internal/hold/hold.go with the table of internal/index/holds.go: the
--                         guard's map in memory and the rows in the store are two fields, each
--                         operation a function on both, and whether its write succeeds an argument.
--   Wire, Wire/Text,      internal/protocol/message.go: the messages and `ValidateMessage`.
--   Wire/Check
--   Wire/Frame            internal/protocol/message.go: `encodeFrame` and `ReadFrame`.
--   Wire/Stream           internal/protocol/stream.go: the lanes of the session writer and its
--                         goroutine, one function for each step of its three selects.
--   Wire/Keepalive        internal/protocol/keepalive.go, the loop over a list of events.
--   Wire/Handshake        internal/protocol/handshake.go: `validatePeerHello`, `negotiateVersion`.
--                         Token parsing (internal/config/keys.go, base64 and JSON) and the set of
--                         known peers are parameters.
--   Config, Config/*      internal/config/safety.go: `Config.SafetyFor`.
--   Index                 internal/index/store.go and syncstore.go: the rows, the journal and the
--                         epoch of one share, with `putFileAndJournal`, `ApplyScanResult`,
--                         `PruneJournal`, `JournalSince`, `ListShare`.
--   Index/Answer,         internal/sync/session.go: `answerSyncRequest`, `sendJournalDeltas`,
--   Index/Batches         `canAnswerWithDeltas`, the cutting of rows into batches. The encoded sizes
--                         are parameters.
--   Index/Receive         internal/sync/dispatch.go with syncstore.go: the handlers of snapshots,
--                         deltas and index updates, on the mirror, the cursor and the staging of one peer.
--   Index/System          steps of a share and of a peer that mirrors it: local changes, index updates
--                         that are taken in while their rows are still the index's own, and exchanges
--                         that may be cut off at any frame and of which frames may be dropped. The
--                         other files of Index are theorems.
--   Transfer/Serve        internal/sync/transfer.go: `transferResponse`, `streamFile`,
--                         `handleFileRequest`. The file system, the writer and the hash are
--                         parameters.
--   Transfer/Pull         `pullFile` over the events of its select, and `routeChunk`. The other files
--                         of Transfer are theorems.
--   Trash, Trash/*        internal/sync/trash.go: `Sweep` over the events that `List` finds.
--   Prelude, Prelude/*    bytes, maps, integers and the library names that the rest shares.
--
-- The reconciler uses Path for the names a peer sends and Vector for the versions; Hold uses the
-- rows of the index; Wire checks rows before the receiver of Index takes them, and the mirror that it
-- keeps is what the reconciler compares with. A file that the reconciler decides to fetch comes by
-- Transfer, which uses Path and Vector for its checks.
--
-- Strings are lists of bytes; where Go ranges over runes the file says why bytes serve. Go's int is
-- a ℕ where it counts, and a ℤ of its own (`pos`, `negsuc`) where it may be negative; only version
-- counters, sequence numbers and the frame's length have the width of their type written out, the
-- others being compared and not computed with. Loops are by structural recursion, and the digits of a
-- time stamp take a fixed number of steps. Two loops of Index take fuel: `sendJournalDeltas` one round
-- more than the journal has rows, the cutting of rows one round for each row; a round takes at least
-- one row, and the outcome of running out is shown not to occur.
--
-- In Index the sequence numbers stay below 2^64 and the clock does not go back, which the theorems
-- say where they need it; between two exchanges any of the share's own steps may come, but none while
-- one is under way. An index update that waits until its rows have changed again is not a step: it may
-- put an older row over a newer one.
--
-- Not modelled: CBOR and JSON encoding, the SQL of the store, file input and output, goroutines and
-- timers, signatures, the acknowledgements of the index, the application of decisions, the rest of
-- the trash, the scanner, the network library, the API, the web interface and the command line. They
-- are input and output around what is modelled, or not done yet.
pub mod Prelude
pub mod Vector
pub mod Path
pub mod Reconcile
pub mod Hold
pub mod Wire
pub mod Config
pub mod Index
pub mod Transfer
pub mod Trash
