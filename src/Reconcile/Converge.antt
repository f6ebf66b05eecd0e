-- ===== src/Reconcile/Converge.antt =====
-- Two nodes that resolve the same divergence come to the same result.
use syncat.Prelude.{
  length, take, Bytes, bytes_eq_iff, bytes_lt_asymm, bytes_lt_total, IsMap, int_eq_iff,
  int_lt-asymm, int_lt-total, ◌≤◌, ◌≡◌, ◌∙◌, ◌≢◌, false, not, [], arith, bytes_key,
}
use syncat.Vector.{VersionVector, equal, dominates}
use syncat.Reconcile.{FileInfo, Direction}
use syncat.Reconcile.Names.{conflict_rel_path_of, conflict_id_len, hex_encode}
use syncat.Reconcile.Decide.{conflict_winner_is_remote}

-- Each side picks the same winner: for different contents, exactly one of the two calls that swap
-- the sides says that the remote one wins.
pub conflict_winner-antisym :
    (l r : FileInfo)
    → l.sha256 ≢ r.sha256
    → conflict_winner_is_remote l r ≡ not (conflict_winner_is_remote r l)
unfolding conflict_winner_is_remote
conflict_winner-antisym l r h = ground (
  arith,
  h,
  int_eq_iff r.mtime_ns l.mtime_ns,
  int_eq_iff l.mtime_ns r.mtime_ns,
  int_lt-asymm l.mtime_ns r.mtime_ns,
  int_lt-asymm r.mtime_ns l.mtime_ns,
  int_lt-total r.mtime_ns l.mtime_ns,
  int_lt-total l.mtime_ns r.mtime_ns,
  bytes_lt_asymm l.sha256 r.sha256,
  bytes_lt_asymm r.sha256 l.sha256,
  bytes_lt_total l.sha256 r.sha256,
  bytes_eq_iff l.sha256 r.sha256,
)

-- Two live rows that neither side's version orders.
pub record IsDiverged (l r : FileInfo) : Type 0 where
  pub local_live : l.deleted ≡ false
  pub remote_live : r.deleted ≡ false
  pub not_equal : equal l.version r.version ≡ false
  pub not_above : dominates l.version r.version ≡ false
  pub not_below : dominates r.version l.version ≡ false
  pub local_map : IsMap l.version
  pub remote_map : IsMap r.version

equal_comm : (a b : VersionVector) → equal a b ≡ equal b a
unfolding equal
equal_comm a b = ground arith

pub IsDiverged-swap : (l r : FileInfo) → IsDiverged l r → IsDiverged r l
IsDiverged-swap l r h = record {
  local_live = h.remote_live;
  remote_live = h.local_live;
  not_equal = equal_comm r.version l.version ∙ h.not_equal;
  not_above = h.not_below;
  not_below = h.not_above;
  local_map = h.remote_map;
  remote_map = h.local_map;
}

-- No direction rule applies.
abbrev pub both_ways : Direction
both_ways = record { inbound_blocked = false; outbound_blocked = false }

-- What a resolution leaves on disk: everything but the version that it records.
abbrev pub unversioned : FileInfo → FileInfo
unversioned f = record f { version = [] }

-- The name that `loserConflictRelPath` takes from the loser.
abbrev pub own_name : Bytes → FileInfo → Bytes
own_name p f = conflict_rel_path_of p (hex_encode (take conflict_id_len f.sha256)) f.mtime_ns

-- The loser has a digest to name its copy by, and the name is not the winner's.
pub record IsNameable (p : Bytes) (f : FileInfo) : Type 0 where
  pub digest : conflict_id_len ≤ length f.sha256
  pub other_name : own_name p f ≢ p
