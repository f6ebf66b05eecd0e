-- ===== src/Index.antt =====
-- The index of one share in the store of internal/index (store.go and syncstore.go): its rows, the
-- journal of their changes, and the epoch that the journal's numbers belong to. A table is a list of
-- its rows; the journal's are in the order of their numbers, in which they are inserted. SQL
-- statements inside a transaction are one step, and a failing transaction changes nothing. The
-- numbers stay far below the 63 bits of a column. Columns that only the local scan reads
-- (`updated_at`) are left out.
pub mod Batches
pub mod Answer
pub mod Receive
pub mod Frames
pub mod Latest
pub mod Journal
pub mod Parked
pub mod Changes
pub mod Fresh
pub mod Staging
pub mod Snapshot
pub mod Deltas
pub mod Sent
pub mod Rounds
pub mod Kept
pub mod Exchange
pub mod Parts
pub mod Cut
pub mod Answered
pub mod Refused
pub mod Blocked
pub mod Dropped
pub mod System
mod Tests
use syncat.Prelude.{
  ltb, if◌then◌else◌, take, Bytes, bytes_eq, bytes_lt, Dict, find, insert, ℤ, int_lt, ℕ, ◌+◌, ◌-◌,
  min, Bool, true, false, ◌||◌, Option, none, some, List, [], ◌∷◌, ◌++◌, bytes_key,
}
use syncat.Reconcile.{file_type_dir, FileInfo}
use syncat.Reconcile.Pass.{IgnoreFunc, is_ignored}

-- A row of `files`, with its column `ignored`.
pub record FileEntry : Type 0 where
  pub info : FileInfo
  pub ignored : Bool

-- A row of `change_journal` under the share's epoch.
pub record JournalRow : Type 0 where
  pub seq : ℕ
  pub row : FileInfo
  pub created_at : ℤ

pub record ShareStore : Type 0 where
  pub epoch : Bytes
  pub next_seq : ℕ
  pub files : Dict Bytes FileEntry
  pub journal : List JournalRow

-- The state that `INSERT OR IGNORE INTO share_state` makes, with its random epoch.
abbrev pub new_share : Bytes → ShareStore
new_share epoch = record { epoch = epoch; next_seq = 1; files = []; journal = [] }

-- `putFileAndJournal`
unfoldable pub put_file_and_journal : ℤ → FileInfo → ShareStore → ShareStore
put_file_and_journal now row s = record {
  epoch = s.epoch;
  next_seq = s.next_seq + 1;
  files = insert row.rel_path (record { info = row; ignored = false }) s.files;
  journal = s.journal ++ record { seq = s.next_seq; row = row; created_at = now } ∷ [];
}

unfoldable pub put_all : ℤ → List FileInfo → ShareStore → ShareStore
unfolding put_file_and_journal
put_all now [] s = s
put_all now (row ∷ rows) s = put_all now rows (put_file_and_journal now row s)

-- `UPDATE files SET ignored = 1`: the row keeps its version, and nothing is journalled.
abbrev pub park_entry : Bytes → Option FileEntry → ShareStore → ShareStore
park_entry p none s = s
park_entry p (some e) s = record s { files = insert p (record e { ignored = true }) s.files }

unfoldable pub park : Bytes → ShareStore → ShareStore
park p s = park_entry p (find s.files p) s

unfoldable pub park_all : List Bytes → ShareStore → ShareStore
unfolding park
park_all [] s = s
park_all (p ∷ ps) s = park_all ps (park p s)

pub record ScanResult : Type 0 where
  pub added : List FileInfo
  pub content_changed : List FileInfo
  pub metadata_only : List FileInfo
  pub deleted : List FileInfo
  pub ignored : List Bytes

-- `ApplyScanResult`
unfoldable pub apply_scan_result : ℤ → ScanResult → ShareStore → ShareStore
unfolding put_all park_all
apply_scan_result now r s = park_all r.ignored (
    put_all now r.deleted
      (put_all now r.metadata_only (put_all now r.content_changed (put_all now r.added s))))

-- `PruneJournal`: `DELETE FROM change_journal WHERE created_at<?`
unfoldable pub prune_journal : ℤ → List JournalRow → List JournalRow
prune_journal before [] = []
prune_journal before (j ∷ js) =
    let rest = prune_journal before js in if int_lt j.created_at before then rest else j ∷ rest

-- `next_seq - 1`, the second result of `ShareState`.
abbrev pub high_seq : ShareStore → ℕ
high_seq s = s.next_seq - 1

-- `OldestJournalSeq`: MIN(seq), and 0 for an empty journal.
unfoldable pub oldest_journal_seq : List JournalRow → ℕ
oldest_journal_seq [] = 0
oldest_journal_seq (j ∷ []) = j.seq
oldest_journal_seq (j ∷ k ∷ js) = min j.seq (oldest_journal_seq (k ∷ js))

-- The rows of `JournalSince` before its LIMIT.
unfoldable pub journal_after : ℕ → List JournalRow → List JournalRow
journal_after seq [] = []
journal_after seq (j ∷ js) =
    let rest = journal_after seq js in if ltb seq j.seq then j ∷ rest else rest

unfoldable pub journal_since : ℕ → ℕ → List JournalRow → List JournalRow
unfolding journal_after
journal_since seq limit js = take limit (journal_after seq js)

-- ORDER BY relpath, which compares bytes.
unfoldable pub insert_by_path : FileInfo → List FileInfo → List FileInfo
insert_by_path r [] = r ∷ []
insert_by_path r (x ∷ rows) =
    if bytes_lt x.rel_path r.rel_path then x ∷ insert_by_path r rows else r ∷ x ∷ rows

-- `ListShare` with the tombstones: no parked row.
unfoldable pub list_share : Dict Bytes FileEntry → List FileInfo
unfolding insert_by_path
list_share [] = []
list_share ((p, e) ∷ files) =
    let rest = list_share files in if e.ignored then rest else insert_by_path e.info rest

abbrev pub is_dir : FileInfo → Bool
is_dir f = bytes_eq f.type file_type_dir

-- `filterIgnoredRows`
unfoldable pub filter_ignored_rows : IgnoreFunc → List FileInfo → List FileInfo
filter_ignored_rows ignore [] = []
filter_ignored_rows ignore (r ∷ rows) =
    let rest = filter_ignored_rows ignore rows in
    if is_ignored ignore r.rel_path (is_dir r) then rest else r ∷ rest

-- `journalHasIgnored`
unfoldable pub journal_has_ignored : IgnoreFunc → List JournalRow → Bool
journal_has_ignored ignore [] = false
journal_has_ignored ignore (j ∷ js) =
    is_ignored ignore j.row.rel_path (is_dir j.row) || journal_has_ignored ignore js

abbrev pub rows_of : List JournalRow → List FileInfo
rows_of [] = []
rows_of (j ∷ js) = j.row ∷ rows_of js
