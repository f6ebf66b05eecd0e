-- ===== src/Index/Staging.antt =====
-- The batches of a snapshot in the staging table of the receiver.

use syncat.Prelude.{
  ◌==◌, if◌then◌else◌, Bool-cases, length, All, Bytes, bytes_eq_refl, Dict, find, find-insert, ℕ,
  ◌+◌, ◌≡◌, refl, sym, ap, ◌∙◌, inl, inr, true, Option, none, some, List, [], ◌∷◌, arith, bytes_key,
}
use syncat.Reconcile.{FileInfo}
use syncat.Reconcile.Pass.{index_onto}
use syncat.Wire.{IndexSnapshotBegin, Message, index_snapshot_batch}
use syncat.Index.Batches.{concat}
use syncat.Index.Answer.{snapshot_batch_frames}
use syncat.Index.Receive.{
  staged, only_rows, keep_only, stage_snapshot_batch, on_snapshot_batch, handle, receive,
  receive_all, PeerIndex,
}
use syncat.Index.Frames.{IsValid, receive-valid, index_onto-append}

-- `n` batches of the snapshot `b` have been staged, and hold `rows`.
pub record IsStaging (b : IndexSnapshotBegin) (n : ℕ) (rows : Dict Bytes FileInfo) (w : PeerIndex)
    : Type 0 where
  pub current : w.snapshot ≡ some b
  pub next : w.cursor.snapshot_batch ≡ n
  pub content : staged (find w.staging b.snapshot_id) ≡ rows

find-only_rows : (id : Bytes) (o : Option (Dict Bytes FileInfo)) → find (only_rows id o) id ≡ o
unfolding find
find-only_rows id none = refl
find-only_rows id (some rows) = ground (arith, bytes_eq_refl id)

find-kept :
    (n : ℕ) (id : Bytes) (staging : Dict Bytes (Dict Bytes FileInfo))
    → find (if n == 0 then keep_only id staging else staging) id ≡ find staging id
find-kept n id staging = elim (Bool-cases (n == 0)) [
  | inl e ↦ rw e (find-only_rows id (find staging id))
  | inr e ↦ rw e refl
]

pub staged-stage_snapshot_batch :
    (id : Bytes) (n : ℕ) (files : List FileInfo) (w : PeerIndex)
    → staged (find (stage_snapshot_batch id n files w).staging id)
      ≡ index_onto (staged (find w.staging id)) files
unfolding stage_snapshot_batch
staged-stage_snapshot_batch id n files w =
    let kept = if n == 0 then keep_only id w.staging else w.staging in
    let inserted = find-insert id id (index_onto (staged (find kept id)) files) kept in
    rw (inserted, bytes_eq_refl id, find-kept n id w.staging) refl

taken_batch :
    (share : Bytes) (b : IndexSnapshotBegin) (n : ℕ) (files : List FileInfo) (w : PeerIndex)
    → w.snapshot ≡ some b
    → w.cursor.snapshot_batch ≡ n
    → (on_snapshot_batch
        (record { share_id = share; snapshot_id = b.snapshot_id; batch = n; files = files })
        w).0
      ≡ record (stage_snapshot_batch b.snapshot_id n files w) {
        cursor = record w.cursor { snapshot_batch = w.cursor.snapshot_batch + 1 };
      }
unfolding on_snapshot_batch
taken_batch share b n files w e f = ground (arith, e, f, bytes_eq_refl b.snapshot_id)

pub batch-IsStaging :
    (share : Bytes) (b : IndexSnapshotBegin) (n : ℕ) (rows : Dict Bytes FileInfo)
    (files : List FileInfo) (w : PeerIndex)
    → IsStaging b n rows w
    → IsStaging b
        (n + 1)
        (index_onto rows files)
        (on_snapshot_batch
          (record { share_id = share; snapshot_id = b.snapshot_id; batch = n; files = files })
          w).0
batch-IsStaging share b n rows files w h =
    rw (taken_batch share b n files w h.current h.next) (record {
      current = unfold stage_snapshot_batch in h.current;
      next = ap (λ k. k + 1) h.next;
      content =
          staged-stage_snapshot_batch b.snapshot_id n files w
          ∙ ap (λ m. index_onto m files) h.content;
    })

pub after_batches :
    (share : Bytes) (b : IndexSnapshotBegin) (n : ℕ) (rows : Dict Bytes FileInfo)
    (bs : List (List FileInfo)) (w : PeerIndex)
    → IsStaging b n rows w
    → All IsValid (snapshot_batch_frames share b.snapshot_id n bs)
    → IsStaging b
        (n + length bs)
        (index_onto rows (concat bs))
        (receive_all (snapshot_batch_frames share b.snapshot_id n bs) w)
unfolding snapshot_batch_frames receive_all index_onto
after_batches share b n rows [] w h v = record {
  current = h.current;
  next = omega (arith, h.next);
  content = h.content;
}
after_batches share b n rows (files ∷ bs) w h v =
    let m : Message =
      index_snapshot_batch
        (record { share_id = share; snapshot_id = b.snapshot_id; batch = n; files = files }) in
    let taken = batch-IsStaging share b n rows files w h in
    let got : receive true m w ≡ handle m w = receive-valid m w v.0 in
    let step : IsStaging b (n + 1) (index_onto rows files) (receive true m w).0 =
      rw got (unfold handle in taken) in
    let rest =
      after_batches share b (n + 1) (index_onto rows files) bs (receive true m w).0 step v.1 in
    record {
      current = rest.current;
      next = omega (arith, rest.next);
      content = rest.content ∙ sym (index_onto-append rows files (concat bs));
    }
