-- ===== src/Reconcile/Decide.antt =====
-- `reconcileOne`, `reconcileConcurrent`, `reconcileIdenticalContent` and `conflictWinnerIsRemote` of
-- internal/sync/reconcile.go: the decision for one path, given our row and the peer's.
use syncat.Prelude.{
  if◌then◌else◌, Bytes, bytes_eq, bytes_lt, ℤ, int_lt, int_eq, Bool, true, ◌&&◌, not, Option, none,
  some,
}
use syncat.Vector.{VersionVector, equal, dominates, merge, bump}
use syncat.Path.{validate_rel_path}
use syncat.Reconcile.{
  file_type_symlink, bare_action, FileInfo, ActionSource, Reason, Action, Direction, nothing, pull,
  delete_file, resurrect, conflict_copy, locally_modified, source_none, source_local, source_remote,
  rejected_path, rejected_symlink, inbound_is_blocked, local_only_receive_only, local_only,
  remote_only_tombstone, remote_only_file, versions_equal, remote_dominates_delete,
  remote_dominates, local_dominates_receive_only, local_dominates, concurrent_receive_only,
  modify_wins, tombstones_merge, identical_content, concurrent_modification,
}
use syncat.Reconcile.Names.{loser_conflict_rel_path}

unfoldable pub conflict_winner_is_remote : FileInfo → FileInfo → Bool
conflict_winner_is_remote l r =
    if not (int_eq r.mtime_ns l.mtime_ns)
    then int_lt l.mtime_ns r.mtime_ns
    else bytes_lt l.sha256 r.sha256

unfoldable pub reconcile_identical_content : Bytes → FileInfo → FileInfo → Action
reconcile_identical_content p l r = record (bare_action pull p identical_content) {
  resolved = record l { version = merge l.version r.version; rel_path = p };
  source = source_none;
}

-- The conflict copy of a genuine conflict, once the winner is known.
unfoldable pub keep_both :
    Bytes → FileInfo → ActionSource → FileInfo → ActionSource → VersionVector → Bytes → ℤ → Action
keep_both p winner winner_source loser loser_source merged node clock =
    let conflict_path = loser_conflict_rel_path p loser node clock in
    record (bare_action conflict_copy p concurrent_modification) {
      resolved = record winner { version = merged; rel_path = p };
      source = winner_source;
      source_version = winner.version;
      conflict_rel_path = conflict_path;
      conflict_info = record loser { rel_path = conflict_path };
      conflict_source = loser_source;
    }

-- The live side of a delete-vs-modify conflict.
unfoldable pub revive : Bytes → FileInfo → ActionSource → VersionVector → Action
revive p winner source merged = record (bare_action resurrect p modify_wins) {
  resolved = record winner { version = merged; rel_path = p };
  source = source;
  source_version = winner.version;
}

unfoldable pub reconcile_concurrent : Bytes → FileInfo → FileInfo → Bytes → Direction → ℤ → Action
unfolding keep_both revive reconcile_identical_content conflict_winner_is_remote
reconcile_concurrent p l r node dir clock =
    let merged = bump (merge l.version r.version) node in
    if dir.outbound_blocked && not l.deleted
    then record (bare_action locally_modified p concurrent_receive_only) {
      resolved = r;
      source = source_remote;
      source_version = r.version;
      locally_modified_flag = true;
    }
    else if l.deleted && not r.deleted
    then revive p r source_remote merged
    else if not l.deleted && r.deleted
    then revive p l source_local merged
    else if l.deleted
    then record (bare_action delete_file p tombstones_merge) {
      resolved = record r { version = merged; rel_path = p };
      source = source_none;
    }
    else if bytes_eq l.sha256 r.sha256
    then reconcile_identical_content p l r
    else if conflict_winner_is_remote l r
    then keep_both p r source_remote l source_local merged node clock
    else keep_both p l source_local r source_remote merged node clock

-- `rejected_path` and `rejected_symlink`, the checks on the peer's row.
unfoldable pub reject_remote : FileInfo → Option Reason
reject_remote r = elim (validate_rel_path r.rel_path) [
  | some e ↦ some (rejected_path e)
  | none ↦ if bytes_eq r.type file_type_symlink then some rejected_symlink else none
]

-- The peer's row is taken over as it stands.
unfoldable pub adopt : Bytes → FileInfo → Reason → Reason → Action
adopt p r why_delete why_pull =
    if r.deleted
    then record (bare_action delete_file p why_delete) { resolved = r; source = source_none }
    else record (bare_action pull p why_pull) {
      resolved = r;
      source = source_remote;
      source_version = r.version;
    }

-- Nothing comes in; under a receive-only subscription our own change is flagged.
unfoldable pub stay : Bytes → Direction → Reason → Reason → Action
stay p dir why_flag why =
    if dir.outbound_blocked
    then record (bare_action locally_modified p why_flag) { locally_modified_flag = true }
    else bare_action nothing p why

-- The `switch` on the two version vectors.
unfoldable pub reconcile_versions : Bytes → FileInfo → FileInfo → Bytes → Direction → ℤ → Action
unfolding adopt stay reconcile_concurrent
reconcile_versions p l r node dir clock =
    if equal l.version r.version
    then bare_action nothing p versions_equal
    else if dominates r.version l.version
    then adopt p r remote_dominates_delete remote_dominates
    else if dominates l.version r.version
    then stay p dir local_dominates_receive_only local_dominates
    else reconcile_concurrent p l r node dir clock

-- The rest of `reconcileOne`, once the peer's row has passed.
unfoldable pub reconcile_known :
    Bytes → Option FileInfo → Option FileInfo → Bytes → Direction → ℤ → Action
unfolding adopt stay reconcile_versions
reconcile_known p l none node dir clock = stay p dir local_only_receive_only local_only
reconcile_known p none (some r) node dir clock = adopt p r remote_only_tombstone remote_only_file
reconcile_known p (some l) (some r) node dir clock = reconcile_versions p l r node dir clock

abbrev reject_row : Option FileInfo → Option Reason
reject_row none = none
reject_row (some r) = reject_remote r

-- `hasLocal` and `hasRemote` tell whether a row is there.
unfoldable pub reconcile_one :
    Bytes → Option FileInfo → Option FileInfo → Bytes → Direction → ℤ → Action
unfolding reject_remote reconcile_known
reconcile_one p l r node dir clock = elim (reject_row r) [
  | some why ↦ bare_action nothing p why
  | none ↦
      if dir.inbound_blocked
      then bare_action nothing p inbound_is_blocked
      else reconcile_known p l r node dir clock
]
