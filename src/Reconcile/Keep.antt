-- ===== src/Reconcile/Keep.antt =====
-- What one decision may do to the two versions of a file.
use syncat.Prelude.{Bytes, ℤ, ◌≡◌, ◌≢◌, ◌⊎◌, true, false, Option, none, some, arith}
use syncat.Vector.{dominates, concurrent}
use syncat.Reconcile.{
  FileInfo, Action, Direction, nothing, delete_file, resurrect, conflict_copy, source_local,
  source_remote,
}
use syncat.Reconcile.Safety.{IsQuiet}
use syncat.Reconcile.Decide.{reconcile_one}

-- The action leaves our file as it is, or writes its content beside or over itself.
pub data KeepsLocal (l : FileInfo) (a : Action) : Type 0 where
  untouched : IsQuiet a → KeepsLocal l a
  stays :
      a.resolved.sha256 ≡ l.sha256
      → a.resolved.deleted ≡ false
      → a.kind ≢ delete_file
      → a.source ≢ source_remote
      → KeepsLocal l a
  copied :
      a.kind ≡ conflict_copy
      → a.conflict_info.sha256 ≡ l.sha256
      → a.conflict_source ≡ source_local
      → KeepsLocal l a

-- The two cases in which the peer's content may take the place of ours.
abbrev pub MayReplace : FileInfo → FileInfo → Direction → Type 0
MayReplace l r dir =
    (dominates r.version l.version ≡ true)
    ⊎ ((dir.outbound_blocked ≡ true) × (concurrent l.version r.version ≡ true))

-- Whatever is fetched from the peer, for the path or for the conflict copy, is asked for at the
-- version that the peer's own row shows.
pub fetches_what_peer_has :
    (p : Bytes) (l : Option FileInfo) (r : FileInfo) (node : Bytes) (dir : Direction) (clock : ℤ)
    → let a = reconcile_one p l (some r) node dir clock in
      ((a.source ≢ source_remote) ⊎ (a.source_version ≡ r.version))
      × ((a.conflict_source ≢ source_remote) ⊎ (a.conflict_info.version ≡ r.version))
unfolding reconcile_one
fetches_what_peer_has p none r node dir clock = (ground arith, ground arith)
fetches_what_peer_has p (some l) r node dir clock = (ground arith, ground arith)

-- The offerer of a read-only share takes no action on any path, whatever the rows say.
pub read_only_takes_nothing :
    (p : Bytes) (l r : Option FileInfo) (node : Bytes) (dir : Direction) (clock : ℤ)
    → dir.inbound_blocked ≡ true
    → (reconcile_one p l r node dir clock).kind ≡ nothing
unfolding reconcile_one
read_only_takes_nothing p l none node dir clock h = ground (arith, h)
read_only_takes_nothing p l (some r) node dir clock h = ground (arith, h)

-- A receive-only subscriber makes no conflict copy, and revives a file only from the peer.
pub receive_only_proposes_nothing :
    (p : Bytes) (l r : Option FileInfo) (node : Bytes) (dir : Direction) (clock : ℤ)
    → dir.outbound_blocked ≡ true
    → let a = reconcile_one p l r node dir clock in
      (a.kind ≢ conflict_copy) × ((a.kind ≢ resurrect) ⊎ (a.source ≡ source_remote))
unfolding reconcile_one
receive_only_proposes_nothing p none none node dir clock h = (ground arith, ground arith)
receive_only_proposes_nothing p (some l) none node dir clock h = (ground arith, ground arith)
receive_only_proposes_nothing p none (some r) node dir clock h = (ground arith, ground arith)
receive_only_proposes_nothing p (some l) (some r) node dir clock h = (ground arith, ground arith)
