-- ===== src/Reconcile.antt =====
-- The decision layer of internal/sync/reconcile.go over the index rows of
-- internal/protocol/message.go. Strings are bytes. `Reason` has one constructor for each text that
-- the code puts into `Action.Reason`.
pub mod Names
pub mod Decide
pub mod Pass
pub mod Order
pub mod Keep
pub mod Converge
pub mod Settle
pub mod Safety
mod Tests
mod Examples
use syncat.Prelude.{Bytes, codes, bytes_eq, ℤ, pos, ℕ, Bool, false, []}
use syncat.Vector.{VersionVector}
use syncat.Path.{PathError}

abbrev pub file_type_file : Bytes
file_type_file = codes "file"

abbrev pub file_type_dir : Bytes
file_type_dir = codes "dir"

abbrev pub file_type_symlink : Bytes
file_type_symlink = codes "symlink"

pub record FileInfo : Type 0 where
  pub rel_path : Bytes
  pub type : Bytes
  pub size : ℤ
  pub mtime_ns : ℤ
  pub mode : ℕ
  pub sha256 : Bytes
  pub version : VersionVector
  pub deleted : Bool

-- Go's zero value, which an action holds where a field is unused.
abbrev pub no_file : FileInfo
no_file = record {
  rel_path = [];
  type = [];
  size = pos 0;
  mtime_ns = pos 0;
  mode = 0;
  sha256 = [];
  version = [];
  deleted = false;
}

pub data ActionKind : Type 0 where
  nothing pull delete_file resurrect conflict_copy locally_modified : ActionKind

pub data ActionSource : Type 0 where
  source_none source_local source_remote : ActionSource

pub data Reason : Type 0 where
  ignored_path : Reason
  rejected_path : PathError → Reason
  rejected_symlink inbound_is_blocked local_only_receive_only local_only : Reason
  remote_only_tombstone remote_only_file versions_equal remote_dominates_delete : Reason
  remote_dominates local_dominates_receive_only local_dominates : Reason
  concurrent_receive_only modify_wins tombstones_merge identical_content : Reason
  concurrent_modification : Reason

pub record Action : Type 0 where
  pub kind : ActionKind
  pub rel_path : Bytes
  pub resolved : FileInfo
  pub source : ActionSource
  pub source_version : VersionVector
  pub conflict_rel_path : Bytes
  pub conflict_info : FileInfo
  pub conflict_source : ActionSource
  pub locally_modified_flag : Bool
  pub reason : Reason

-- `Action{Kind: kind, RelPath: p, Reason: why}`
abbrev pub bare_action : ActionKind → Bytes → Reason → Action
bare_action k p why = record {
  kind = k;
  rel_path = p;
  resolved = no_file;
  source = source_none;
  source_version = [];
  conflict_rel_path = [];
  conflict_info = no_file;
  conflict_source = source_none;
  locally_modified_flag = false;
  reason = why;
}

pub record Direction : Type 0 where
  pub inbound_blocked : Bool
  pub outbound_blocked : Bool

unfoldable pub direction_for : Bytes → Bytes → Direction
direction_for permission subscription_mode = record {
  inbound_blocked = bytes_eq permission (codes "read-only");
  outbound_blocked = bytes_eq subscription_mode (codes "receive-only");
}
