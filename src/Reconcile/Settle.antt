-- ===== src/Reconcile/Settle.antt =====
-- What the next pass sees of a resolution.
use syncat.Prelude.{
  Bytes, bytes_eq, IsMap, ℤ, ◌+◌, ◌<◌, ◌≡◌, refl, ◌≢◌, true, false, none, some, arith, bytes_key,
}
use syncat.Vector.{u64_mod, counter, dominates, merge}
use syncat.Vector.Order.{dominates-not-equal}
use syncat.Vector.Join.{dominates-bump-merge}
use syncat.Path.{validate_rel_path}
use syncat.Reconcile.{
  file_type_symlink, FileInfo, Reason, Direction, pull, delete_file, locally_modified,
  source_remote, remote_dominates_delete, remote_dominates,
}
use syncat.Reconcile.Decide.{
  reconcile_concurrent, reject_remote, adopt, reconcile_versions, reconcile_known, reconcile_one,
}

-- A decision on concurrent versions, unless it only flags a local change or merges equal contents,
-- records a version that strictly dominates both sides while the node's counter has room.
pub resolution_dominates :
    (p : Bytes) (l r : FileInfo) (node : Bytes) (dir : Direction) (clock : ℤ)
    → IsMap l.version
    → IsMap r.version
    → counter (merge l.version r.version) node + 1 < u64_mod
    → (reconcile_concurrent p l r node dir clock).kind ≢ locally_modified
    → (reconcile_concurrent p l r node dir clock).kind ≢ pull
    → let a = reconcile_concurrent p l r node dir clock in
      (dominates a.resolved.version l.version ≡ true)
      × (dominates a.resolved.version r.version ≡ true)
unfolding reconcile_concurrent
resolution_dominates p l r node dir clock wl wr room flagged pulled =
    ground (arith, flagged, pulled, dominates-bump-merge l.version r.version node wl wr room)

-- Where the version is above, the row is adopted.
dominated-adopts :
    (p : Bytes) (l r : FileInfo) (node : Bytes) (dir : Direction) (clock : ℤ)
    → dominates r.version l.version ≡ true
    → reject_remote r ≡ none
    → dir.inbound_blocked ≡ false
    → reconcile_one p (some l) (some r) node dir clock
      ≡ adopt p r remote_dominates_delete remote_dominates
unfolding reconcile_one reconcile_known reconcile_versions
dominated-adopts p l r node dir clock above passes open_in =
    let differ = (dominates-not-equal r.version l.version above).1 in
    rw (passes, reconcile_one, open_in, differ, above) refl

adopt-takes :
    (p : Bytes) (r : FileInfo) (a b : Reason)
    → let d = adopt p r a b in
      (d.resolved ≡ r)
      × (r.deleted ≡ true → d.kind ≡ delete_file)
      × (r.deleted ≡ false
          → (d.kind ≡ pull) × (d.source ≡ source_remote) × (d.source_version ≡ r.version))
unfolding adopt
adopt-takes p r a b = (
  ground arith,
  λ gone. ground (arith, gone),
  λ live. (ground (arith, live), ground (arith, live), ground (arith, live)),
)

-- What a resolution records passes the checks on a row that comes in.
resolved-passes :
    (p : Bytes) (l r : FileInfo) (node : Bytes) (dir : Direction) (clock : ℤ)
    → (reconcile_concurrent p l r node dir clock).kind ≢ locally_modified
    → validate_rel_path p ≡ none
    → bytes_eq l.type file_type_symlink ≡ false
    → bytes_eq r.type file_type_symlink ≡ false
    → reject_remote (reconcile_concurrent p l r node dir clock).resolved ≡ none
unfolding reconcile_concurrent reject_remote
resolved-passes p l r node dir clock flagged valid plain_l plain_r =
    ground (arith, flagged, valid, plain_l, plain_r)

-- What one node decides on concurrent versions of a valid path, unless it only flags a local change or
-- merges equal contents, the peer takes over, where neither row is a symlink, the deciding node's
-- counter has room and the peer's direction lets changes in: shown the resolved row, the peer deletes
-- the file if the row is a tombstone, and else pulls it at the row's version, and records that row.
pub resolution_spreads :
    (p : Bytes) (l r : FileInfo) (node other : Bytes) (dir other_dir : Direction) (clock later : ℤ)
    → IsMap l.version
    → IsMap r.version
    → counter (merge l.version r.version) node + 1 < u64_mod
    → validate_rel_path p ≡ none
    → bytes_eq l.type file_type_symlink ≡ false
    → bytes_eq r.type file_type_symlink ≡ false
    → other_dir.inbound_blocked ≡ false
    → (reconcile_concurrent p l r node dir clock).kind ≢ locally_modified
    → (reconcile_concurrent p l r node dir clock).kind ≢ pull
    → let a = reconcile_concurrent p l r node dir clock in
      let d = reconcile_one p (some r) (some a.resolved) other other_dir later in
      (d.resolved ≡ a.resolved)
      × ((a.resolved.deleted ≡ true) → d.kind ≡ delete_file)
      × ((a.resolved.deleted ≡ false)
          → (d.kind ≡ pull) × (d.source ≡ source_remote) × (d.source_version ≡ a.resolved.version))
resolution_spreads p l r node other dir other_dir clock later wl wr room valid pl pr open_in flagged
      pulled =
    let a = reconcile_concurrent p l r node dir clock in
    let (_, above) = resolution_dominates p l r node dir clock wl wr room flagged pulled in
    let passes = resolved-passes p l r node dir clock flagged valid pl pr in
    rw (dominated-adopts p r a.resolved other other_dir later above passes open_in)
      (adopt-takes p a.resolved remote_dominates_delete remote_dominates)
