-- ===== src/Index/Snapshot.antt =====
-- A snapshot that arrives whole replaces the mirror, whatever the mirror and the cursor were.
use mathlib.Core.Path.{subst}
use syncat.Prelude.{
  Bool-cases, length, All, Bytes, codes, bytes_eq_iff, Dict, find, ◌+◌, ◌≡◌, refl, sym, ap, ◌∙◌,
  ◌≢◌, inl, inr, true, Option, none, some, List, [], ◌∷◌, ◌++◌, arith, bytes_key,
}
use syncat.Reconcile.{FileInfo}
use syncat.Reconcile.Pass.{index_onto, index_by_path, IgnoreFunc}
use syncat.Wire.{
  IndexSnapshotBegin, IndexSnapshotEnd, Message, index_snapshot_begin, index_snapshot_end,
}
use syncat.Wire.Check.{validate_message}
use syncat.Wire.Text.{first_error-none, valid_bounded_text, max_wire_id_len, validate_share_id}
use syncat.Wire.Files.{valid_text-bounded}
use syncat.Index.{high_seq, ShareStore}
use syncat.Index.Batches.{cut_batches, concat, concat-cut_batches}
use syncat.Index.Answer.{
  snapshot_batch_len, snapshot_batch_frames, advertised, send_snapshot, Encoding, answered,
}
use syncat.Index.Receive.{
  staged, commit_snapshot, on_snapshot_begin, finish_snapshot, on_snapshot_end, handle, receive_all,
  PeerIndex,
}
use syncat.Index.Frames.{IsValid, receive-valid, receive_all-append, All-append}
use syncat.Index.Staging.{after_batches, IsStaging}

-- A snapshot that begins moves the cursor to its epoch, before every row of it.
pub begun :
    (b : IndexSnapshotBegin) (w : PeerIndex)
    → b.snapshot_id ≢ []
    → (on_snapshot_begin b w).0 ≡ record w {
      snapshot = some b;
      cursor = record {
        epoch = b.epoch;
        applied_seq = 0;
        snapshot_id = b.snapshot_id;
        snapshot_batch = 0;
      };
    }
unfolding on_snapshot_begin
begun b w n = ground (arith, n, bytes_eq_iff b.snapshot_id [])

begin-IsStaging :
    (b : IndexSnapshotBegin) (w : PeerIndex)
    → b.snapshot_id ≢ []
    → find w.staging b.snapshot_id ≡ none
    → IsStaging b 0 [] (on_snapshot_begin b w).0
begin-IsStaging b w n fresh =
    rw (begun b w n) (record { current = refl; next = refl; content = ap staged fresh })

finished :
    (o : Option IndexSnapshotBegin) (b : IndexSnapshotBegin) (m : IndexSnapshotEnd) (w : PeerIndex)
    → o ≡ some b
    → w.cursor.snapshot_batch ≡ m.batch_count
    → b.snapshot_id ≡ m.snapshot_id
    → (finish_snapshot o m w).0
      ≡ commit_snapshot m.snapshot_id b.epoch b.high_seq (record w { snapshot = none })
finished o b m w current n e =
    rw (current) (ground (arith, n, e, bytes_eq_iff b.snapshot_id m.snapshot_id))

end-mirror :
    (b : IndexSnapshotBegin) (m : IndexSnapshotEnd) (rows : Dict Bytes FileInfo) (w : PeerIndex)
    → IsStaging b m.batch_count rows w
    → b.snapshot_id ≡ m.snapshot_id
    → let v = (on_snapshot_end m w).0 in
      (v.mirror ≡ rows) × (v.cursor.epoch ≡ b.epoch) × (v.cursor.applied_seq ≡ b.high_seq)
unfolding on_snapshot_end commit_snapshot
end-mirror b m rows w h e =
    rw (finished w.snapshot b m w h.current h.next e)
      (ap (λ id. staged (find w.staging id)) (sym e) ∙ h.content, refl, refl)

-- A valid message names its snapshot.
pub named : (b : IndexSnapshotBegin) → IsValid (index_snapshot_begin b) → b.snapshot_id ≢ []
unfolding validate_message
named b v =
    let (_, rest) = first_error-none (validate_share_id b.share_id) _ v in
    let (text, _) =
      first_error-none (valid_bounded_text (codes "snapshot_id") b.snapshot_id max_wire_id_len true)
        _ rest in
    (valid_text-bounded (codes "snapshot_id") b.snapshot_id max_wire_id_len text).0

-- The frames of a whole snapshot.
abbrev pub whole_frames : Bytes → IndexSnapshotBegin → List (List FileInfo) → List Message
whole_frames share b bs =
    index_snapshot_begin b ∷ snapshot_batch_frames share b.snapshot_id 0 bs
    ++ index_snapshot_end
        (record { share_id = share; snapshot_id = b.snapshot_id; batch_count = length bs })
      ∷ []

whole_frames-mirror :
    (share : Bytes) (b : IndexSnapshotBegin) (bs : List (List FileInfo)) (w : PeerIndex)
    → find w.staging b.snapshot_id ≡ none
    → All IsValid (whole_frames share b bs)
    → let v = receive_all (whole_frames share b bs) w in
      (v.mirror ≡ index_onto [] (concat bs))
      × (v.cursor.epoch ≡ b.epoch)
      × (v.cursor.applied_seq ≡ b.high_seq)
unfolding receive_all handle
whole_frames-mirror share b bs w fresh v =
    let m : IndexSnapshotEnd = record {
      share_id = share;
      snapshot_id = b.snapshot_id;
      batch_count = length bs;
    } in
    let frames = snapshot_batch_frames share b.snapshot_id 0 bs in
    let (valid_batches, valid_end) = All-append IsValid frames (index_snapshot_end m ∷ []) v.1 in
    let begun = (on_snapshot_begin b w).0 in
    let loaded = receive_all frames begun in
    let staging =
      after_batches share b 0 [] bs begun (begin-IsStaging b w (named b v.0) fresh) valid_batches in
    let same : 0 + length bs ≡ length bs = omega arith in
    let rows = index_onto [] (concat bs) in
    let all = subst (λ n. IsStaging b n rows loaded) same staging in
    let at_end = end-mirror b m rows loaded all refl in
    let first = receive-valid (index_snapshot_begin b) w v.0 in
    let last = receive-valid (index_snapshot_end m) loaded valid_end.0 in
    let arrived : receive_all (whole_frames share b bs) w ≡ (on_snapshot_end m loaded).0 =
      ap (λ r. receive_all (frames ++ index_snapshot_end m ∷ []) r.0) first
      ∙ receive_all-append frames (index_snapshot_end m ∷ []) begun
      ∙ ap (λ r. r.0) last in
    rw arrived at_end

pub send_snapshot-whole :
    (share : Bytes) (ignore : IgnoreFunc) (enc : Encoding) (id : Bytes) (s : ShareStore)
    → (send_snapshot share ignore enc id s).1 ≡ answered
    → (bs : List (List FileInfo)) × (concat bs ≡ advertised ignore s)
      × ((send_snapshot share ignore enc id s).0
          ≡ whole_frames share
              (record {
                share_id = share;
                snapshot_id = id;
                epoch = s.epoch;
                high_seq = high_seq s;
              })
              bs)
unfolding send_snapshot
send_snapshot-whole share ignore enc id s h =
    let rows = advertised ignore s in
    let len = snapshot_batch_len enc in
    let cut = cut_batches (length rows) len 0 rows in
    elim (Bool-cases cut.1) [
      | inl e ↦ (cut.0, concat-cut_batches (length rows) len 0 rows e, rw e refl)
      | inr e ↦ ground (arith, h, e)
    ]

-- A snapshot that the sender writes whole, of messages that are valid, under an id that the
-- receiver has staged nothing for, replaces the receiver's mirror by exactly the rows that the
-- sender advertises, and its cursor by the sender's epoch and highest sequence number. This holds
-- from every earlier state of the receiver and for every size of the encoded rows.
pub snapshot_mirrors :
    (share : Bytes) (ignore : IgnoreFunc) (enc : Encoding) (id : Bytes) (s : ShareStore)
    (w : PeerIndex)
    → find w.staging id ≡ none
    → (send_snapshot share ignore enc id s).1 ≡ answered
    → All IsValid (send_snapshot share ignore enc id s).0
    → let v = receive_all (send_snapshot share ignore enc id s).0 w in
      (v.mirror ≡ index_by_path (advertised ignore s))
      × (v.cursor.epoch ≡ s.epoch)
      × (v.cursor.applied_seq ≡ high_seq s)
unfolding index_by_path
snapshot_mirrors share ignore enc id s w fresh whole valid =
    let (bs, all_rows, frames) = send_snapshot-whole share ignore enc id s whole in
    let b : IndexSnapshotBegin = record {
      share_id = share;
      snapshot_id = id;
      epoch = s.epoch;
      high_seq = high_seq s;
    } in
    let (mirror, epoch, seq) =
      whole_frames-mirror share b bs w fresh (subst (All IsValid) frames valid) in
    rw frames (mirror ∙ ap (index_onto []) all_rows, epoch, seq)
