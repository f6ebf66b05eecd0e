-- ===== src/Index/Receive.antt =====
-- How a node takes in a peer's index: the handlers of internal/sync/dispatch.go with the staging of
-- internal/index/syncstore.go, for one share of one peer. `accepts` is `acceptsInboundIndex`. The
-- statements of the store succeed; the fields of the message that a handler ignores are as sent.
use syncat.Prelude.{
  ltb, ◌==◌, if◌then◌else◌, length, Bytes, bytes_eq, Dict, find, insert, ℕ, ◌+◌, ◌-◌, ◌%◌, Bool,
  true, false, ◌&&◌, ◌||◌, not, Option, none, some, List, [], ◌∷◌, bytes_key,
}
use syncat.Vector.{u64_mod}
use syncat.Reconcile.{FileInfo}
use syncat.Reconcile.Pass.{index_onto}
use syncat.Wire.{
  IndexDeltaEntry, IndexDeltaBatch, IndexSyncRequest, IndexSnapshotBegin, IndexSnapshotBatch,
  IndexSnapshotEnd, IndexUpdate, Message, index_update, index_sync_request, index_snapshot_begin,
  index_snapshot_batch, index_snapshot_end, index_delta_batch, index_ack,
}
use syncat.Wire.Check.{validate_message}

pub record Cursor : Type 0 where
  pub epoch : Bytes
  pub applied_seq : ℕ
  pub snapshot_id : Bytes
  pub snapshot_batch : ℕ

-- The rows of `peer_files`, of `peer_cursors` for `incoming` and of `snapshot_staging` by snapshot,
-- and the session's entry in `snapshots`.
pub record PeerIndex : Type 0 where
  pub mirror : Dict Bytes FileInfo
  pub cursor : Cursor
  pub staging : Dict Bytes (Dict Bytes FileInfo)
  pub snapshot : Option IndexSnapshotBegin

-- `Cursor{}`, which the lookup answers where there is no row.
abbrev pub no_cursor : Cursor
no_cursor = record { epoch = []; applied_seq = 0; snapshot_id = []; snapshot_batch = 0 }

abbrev pub new_peer_index : PeerIndex
new_peer_index = record { mirror = []; cursor = no_cursor; staging = []; snapshot = none }

-- What a handler sets going: a message to the peer, or a reconcile pass.
pub data Effect : Type 0 where
  writes : Message → Effect
  reconciles : Effect

abbrev pub staged : Option (Dict Bytes FileInfo) → Dict Bytes FileInfo
staged none = []
staged (some rows) = rows

-- `DELETE FROM snapshot_staging WHERE ... snapshot_id<>?`
abbrev pub only_rows : Bytes → Option (Dict Bytes FileInfo) → Dict Bytes (Dict Bytes FileInfo)
only_rows id none = []
only_rows id (some rows) = (id, rows) ∷ []

abbrev pub keep_only : Bytes → Dict Bytes (Dict Bytes FileInfo) → Dict Bytes (Dict Bytes FileInfo)
keep_only id staging = only_rows id (find staging id)

-- `StageSnapshotBatch`: an upsert by path.
unfoldable pub stage_snapshot_batch : Bytes → ℕ → List FileInfo → PeerIndex → PeerIndex
stage_snapshot_batch id batch files w =
    let kept = if batch == 0 then keep_only id w.staging else w.staging in
    record w { staging = insert id (index_onto (staged (find kept id)) files) kept }

-- `CommitSnapshot`: the staged rows take the place of the mirror.
unfoldable pub commit_snapshot : Bytes → Bytes → ℕ → PeerIndex → PeerIndex
commit_snapshot id epoch seq w = record w {
  mirror = staged (find w.staging id);
  staging = [];
  cursor = record { epoch = epoch; applied_seq = seq; snapshot_id = []; snapshot_batch = 0 };
}

-- `ApplyPeerDelta`; `none` is its error.
unfoldable pub apply_peer_delta : Bytes → ℕ → ℕ → List FileInfo → PeerIndex → Option PeerIndex
apply_peer_delta epoch from to rows w =
    if not (bytes_eq w.cursor.epoch epoch) || not (from == (w.cursor.applied_seq + 1) % u64_mod)
    then none
    else if not (length rows == (to + (u64_mod - from) + 1) % u64_mod)
    then none
    else some (record w {
      mirror = index_onto w.mirror rows;
      cursor = record w.cursor { applied_seq = to };
    })

abbrev pub files_of : List IndexDeltaEntry → List FileInfo
files_of [] = []
files_of (e ∷ es) = e.file ∷ files_of es

-- `m.FromSeq + uint64(i)` for every entry.
unfoldable pub counts_on : ℕ → List IndexDeltaEntry → Bool
counts_on seq [] = true
counts_on seq (e ∷ es) = e.seq == seq && counts_on ((seq + 1) % u64_mod) es

abbrev pub request_of : Bytes → PeerIndex → IndexSyncRequest
request_of share w = record {
  share_id = share;
  epoch = w.cursor.epoch;
  applied_seq = w.cursor.applied_seq;
  snapshot_id = w.cursor.snapshot_id;
  snapshot_batch = w.cursor.snapshot_batch;
}

abbrev pub sync_request : Bytes → PeerIndex → Message
sync_request share w = index_sync_request (request_of share w)

-- The request after a refused delta names no snapshot.
abbrev pub resync_request : Bytes → PeerIndex → Message
resync_request share w = index_sync_request (record {
  share_id = share;
  epoch = w.cursor.epoch;
  applied_seq = w.cursor.applied_seq;
  snapshot_id = [];
  snapshot_batch = 0;
})

abbrev pub ack : Bytes → Bytes → ℕ → Bytes → Message
ack share epoch seq id = index_ack (record {
  share_id = share;
  epoch = epoch;
  applied_seq = seq;
  snapshot_id = id;
  replay = false;
})

unfoldable pub on_snapshot_begin : IndexSnapshotBegin → PeerIndex → PeerIndex × List Effect
on_snapshot_begin m w = if bytes_eq m.snapshot_id [] then (w, []) else (
  record w {
    snapshot = some m;
    cursor = record {
      epoch = m.epoch;
      applied_seq = 0;
      snapshot_id = m.snapshot_id;
      snapshot_batch = 0;
    };
  },
  [],
)

-- Whether the message belongs to the snapshot that is under way.
abbrev pub is_current : Option IndexSnapshotBegin → Bytes → Bool
is_current none id = false
is_current (some b) id = bytes_eq b.snapshot_id id

unfoldable pub on_snapshot_batch : IndexSnapshotBatch → PeerIndex → PeerIndex × List Effect
unfolding stage_snapshot_batch
on_snapshot_batch m w =
    let after = stage_snapshot_batch m.snapshot_id m.batch m.files w in
    if not (is_current w.snapshot m.snapshot_id)
    then (w, [])
    else if ltb m.batch w.cursor.snapshot_batch
    then (w, [])
    else if not (m.batch == w.cursor.snapshot_batch)
    then (w, writes (sync_request m.share_id w) ∷ [])
    else (
      record after { cursor = record w.cursor { snapshot_batch = w.cursor.snapshot_batch + 1 } },
      [],
    )

abbrev pub finish_snapshot :
    Option IndexSnapshotBegin → IndexSnapshotEnd → PeerIndex → PeerIndex × List Effect
finish_snapshot none m w = (w, [])
finish_snapshot (some b) m w =
    let ended = record w { snapshot = none } in
    if not (bytes_eq b.snapshot_id m.snapshot_id)
    then (w, [])
    else if not (w.cursor.snapshot_batch == m.batch_count)
    then (ended, [])
    else (
      commit_snapshot m.snapshot_id b.epoch b.high_seq ended,
      writes (ack m.share_id b.epoch b.high_seq m.snapshot_id) ∷ reconciles ∷ [],
    )

unfoldable pub on_snapshot_end : IndexSnapshotEnd → PeerIndex → PeerIndex × List Effect
unfolding commit_snapshot
on_snapshot_end m w = finish_snapshot w.snapshot m w

abbrev pub refuse_delta : IndexDeltaBatch → PeerIndex → PeerIndex × List Effect
refuse_delta m w = (w, writes (resync_request m.share_id w) ∷ [])

abbrev pub apply_delta : Option PeerIndex → IndexDeltaBatch → PeerIndex → PeerIndex × List Effect
apply_delta none m w = refuse_delta m w
apply_delta (some after) m w =
    (after, writes (ack m.share_id m.epoch m.to_seq []) ∷ reconciles ∷ [])

unfoldable pub on_delta_batch : IndexDeltaBatch → PeerIndex → PeerIndex × List Effect
unfolding apply_peer_delta counts_on
on_delta_batch m w =
    if not (counts_on m.from_seq m.entries)
    then refuse_delta m w
    else apply_delta (apply_peer_delta m.epoch m.from_seq m.to_seq (files_of m.entries) w) m w

-- `handleIndexUpdate`: `UpsertPeerFiles`, and a pass. It runs in a goroutine of its own, so the call
-- stands where that has taken the lock.
unfoldable pub handle_index_update : IndexUpdate → PeerIndex → PeerIndex × List Effect
handle_index_update m w = (record w { mirror = index_onto w.mirror m.files }, reconciles ∷ [])

unfoldable pub handle : Message → PeerIndex → PeerIndex × List Effect
unfolding on_snapshot_begin on_snapshot_batch on_snapshot_end on_delta_batch handle_index_update
handle (index_snapshot_begin m) w = on_snapshot_begin m w
handle (index_snapshot_batch m) w = on_snapshot_batch m w
handle (index_snapshot_end m) w = on_snapshot_end m w
handle (index_delta_batch m) w = on_delta_batch m w
handle (index_update m) w = handle_index_update m w
handle _ w = (w, [])

-- A frame of the share: `decodeWire` drops a message that is not valid, and the gate one that the
-- share's direction does not admit.
unfoldable pub receive : Bool → Message → PeerIndex → PeerIndex × List Effect
unfolding handle
receive accepts m w = elim (validate_message m) [
  | some e ↦ (w, [])
  | none ↦ if accepts then handle m w else (w, [])
]

unfoldable pub receive_all : List Message → PeerIndex → PeerIndex
unfolding receive
receive_all [] w = w
receive_all (m ∷ ms) w = receive_all ms (receive true m w).0
