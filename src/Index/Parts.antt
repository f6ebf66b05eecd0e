-- ===== src/Index/Parts.antt =====
-- The front of a snapshot, as it arrives when the connection is lost on the way: the mirror stays,
-- and the cursor stands before the first row of the sender's epoch.
use syncat.Prelude.{
  Option-cases, length, take, Bytes, ℕ, zero, suc, ◌+◌, ◌≤◌, ◌≡◌, refl, sym, ap, ◌∙◌, inl, inr,
  true, List, [], ◌∷◌, ◌++◌, arith,
}
use syncat.Reconcile.{FileInfo}
use syncat.Reconcile.Pass.{IgnoreFunc}
use syncat.Wire.{
  IndexSnapshotBegin, IndexSnapshotBatch, Message, index_snapshot_begin, index_snapshot_batch,
}
use syncat.Wire.Check.{validate_message}
use syncat.Index.{high_seq, rows_of, ShareStore}
use syncat.Index.Answer.{snapshot_batch_frames}
use syncat.Index.Receive.{
  stage_snapshot_batch, on_snapshot_begin, on_snapshot_batch, handle, receive, receive_all,
  PeerIndex,
}
use syncat.Index.Frames.{IsValid, receive-valid}
use syncat.Index.Latest.{latest}
use syncat.Index.Journal.{RunsFrom-le}
use syncat.Index.Fresh.{journal_after-above}
use syncat.Index.Snapshot.{begun, named}
use syncat.Index.Kept.{IsSynced}

-- `v` has the mirror and the place in the journal that `w` has.
pub record Keeps (w v : PeerIndex) : Type 0 where
  pub mirror : v.mirror ≡ w.mirror
  pub epoch : v.cursor.epoch ≡ w.cursor.epoch
  pub applied_seq : v.cursor.applied_seq ≡ w.cursor.applied_seq

batch-Keeps : (m : IndexSnapshotBatch) (w : PeerIndex) → Keeps w (on_snapshot_batch m w).0
unfolding on_snapshot_batch stage_snapshot_batch
batch-Keeps m w = record { mirror = ground arith; epoch = ground arith; applied_seq = ground arith }

batches-Keep :
    (share id : Bytes) (n : ℕ) (bs : List (List FileInfo)) (w : PeerIndex)
    → Keeps w (receive_all (snapshot_batch_frames share id n bs) w)
unfolding snapshot_batch_frames receive_all handle receive
batches-Keep share id n [] w = record { mirror = refl; epoch = refl; applied_seq = refl }
batches-Keep share id n (b ∷ bs) w =
    let d : IndexSnapshotBatch = record {
      share_id = share;
      snapshot_id = id;
      batch = n;
      files = b;
    } in
    let m = index_snapshot_batch d in
    let here : Keeps w (receive true m w).0 = elim (Option-cases (validate_message m)) [
      | inl valid ↦ rw (receive-valid m w valid) (batch-Keeps d w)
      | inr (e, bad) ↦
          rw (bad, receive) (record { mirror = refl; epoch = refl; applied_seq = refl })
    ] in
    let later = batches-Keep share id (n + 1) bs (receive true m w).0 in
    record {
      mirror = later.mirror ∙ here.mirror;
      epoch = later.epoch ∙ here.epoch;
      applied_seq = later.applied_seq ∙ here.applied_seq;
    }

pub take-front :
    {A : Type 0} (k : ℕ) (xs ys : List A) → k ≤ length xs → take k (xs ++ ys) ≡ take k xs
take-front zero xs ys h = refl
take-front (suc k) [] ys h = absurd (omega (arith, h))
take-front (suc k) (x ∷ xs) ys h = ap (◌∷◌ x) (take-front k xs ys (omega (arith, h)))

pub take-all : {A : Type 0} (k : ℕ) (xs : List A) → length xs ≤ k → take k xs ≡ xs
take-all zero [] h = refl
take-all zero (x ∷ xs) h = absurd (omega (arith, h))
take-all (suc k) [] h = refl
take-all (suc k) (x ∷ xs) h = ap (◌∷◌ x) (take-all k xs (omega (arith, h)))

pub take-snapshot_batch_frames :
    (share id : Bytes) (k n : ℕ) (bs : List (List FileInfo))
    → take k (snapshot_batch_frames share id n bs) ≡ snapshot_batch_frames share id n (take k bs)
unfolding snapshot_batch_frames
take-snapshot_batch_frames share id zero n bs = refl
take-snapshot_batch_frames share id (suc k) n [] = refl
take-snapshot_batch_frames share id (suc k) n (b ∷ bs) =
    ap
      (◌∷◌ (
        index_snapshot_batch (record { share_id = share; snapshot_id = id; batch = n; files = b })))
      (take-snapshot_batch_frames share id k (n + 1) bs)

-- What `answerSyncRequest` begins a snapshot with, and the batches up to `bs`.
abbrev pub begin_message : Bytes → Bytes → ShareStore → IndexSnapshotBegin
begin_message share id s = record {
  share_id = share;
  snapshot_id = id;
  epoch = s.epoch;
  high_seq = high_seq s;
}

abbrev pub opening : Bytes → Bytes → ShareStore → List (List FileInfo) → List Message
opening share id s bs =
    index_snapshot_begin (begin_message share id s) ∷ snapshot_batch_frames share id 0 bs

module _ (ignore : IgnoreFunc) (share id : Bytes) (s : ShareStore) where
  -- A valid begin and some batches, with no end.
  pub unended-IsSynced :
      (bs : List (List FileInfo)) (w : PeerIndex)
      → IsSynced ignore s w
      → IsValid (index_snapshot_begin (begin_message share id s))
      → IsSynced ignore s (receive_all (opening share id s bs) w)
  unfolding receive_all handle
  unended-IsSynced bs w h v =
      let b = begin_message share id s in
      let first = (receive true (index_snapshot_begin b) w).0 in
      let got : first ≡ (on_snapshot_begin b w).0 =
        ap (λ r. r.0) (receive-valid (index_snapshot_begin b) w v) in
      let started = got ∙ begun b w (named b v) in
      let kept = batches-Keep share id 0 bs first in
      let at_zero = kept.applied_seq ∙ ap (λ u. u.cursor.applied_seq) started in
      let above =
        journal_after-above 0 h.start s.journal s.next_seq h.journal.runs h.journal.positive in
      record {
        start = h.start;
        journal = h.journal;
        known = λ _. rw (at_zero) (
          omega
              (arith, RunsFrom-le h.start s.journal s.next_seq h.journal.runs, h.journal.positive),
          λ covers p e there visible quiet. absurd (
              h.journal.rooted (omega (arith, covers, h.journal.positive)) p e there
                (ap (λ js. latest p (rows_of js)) (sym above) ∙ quiet)),
        );
      }
