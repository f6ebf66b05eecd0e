-- ===== src/Index/Dropped.antt =====
-- Frames that the receiver drops: what is left of an exchange still keeps the mirror right.
use mathlib.Core.Path.{subst}
use syncat.Prelude.{
  Option-cases, length, Bytes, ℕ, ◌+◌, ◌%◌, ◌≤◌, ◌<◌, ◌≡◌, refl, sym, ap, ◌∙◌, inl, inr, true,
  false, Option, none, some, List, [], ◌∷◌, ◌++◌, arith,
}
use syncat.Vector.{u64_mod}
use syncat.Reconcile.{FileInfo}
use syncat.Reconcile.Pass.{IgnoreFunc}
use syncat.Wire.{
  IndexDeltaBatch, IndexSnapshotBegin, IndexSnapshotBatch, IndexSnapshotEnd, index_snapshot_batch,
  index_snapshot_end, index_delta_batch,
}
use syncat.Wire.Check.{validate_message}
use syncat.Index.{journal_after, JournalRow, ShareStore}
use syncat.Index.Batches.{concat, append_nil, append_assoc}
use syncat.Index.Answer.{delta_frames, snapshot_batch_frames}
use syncat.Index.Receive.{
  apply_peer_delta, is_current, on_snapshot_batch, finish_snapshot, on_snapshot_end, on_delta_batch,
  handle, receive, receive_all, PeerIndex,
}
use syncat.Index.Frames.{receive-valid}
use syncat.Index.Journal.{RunsFrom, RunsFrom-le, RunsFrom-split}
use syncat.Index.Fresh.{journal_after-split}
use syncat.Index.Deltas.{delta_message, empty-invalid}
use syncat.Index.Kept.{IsSynced}
use syncat.Index.Exchange.{deltas-IsSynced}
use syncat.Index.Blocked.{receive-invalid}

-- A delta that begins after the next number is refused.
stale_delta :
    (m : IndexDeltaBatch) (w : PeerIndex)
    → w.cursor.applied_seq + 1 < m.from_seq
    → m.from_seq < u64_mod
    → (on_delta_batch m w).0 ≡ w
unfolding on_delta_batch apply_peer_delta
stale_delta m w late small =
    let a : (w.cursor.applied_seq + 1) % u64_mod ≡ w.cursor.applied_seq + 1 =
      omega (arith, late, small) in
    ground (arith, a, late)

behind_deltas :
    (share epoch : Bytes) (bs : List (List JournalRow)) (n end : ℕ) (w : PeerIndex)
    → w.cursor.applied_seq + 1 < n
    → RunsFrom n (concat bs) end
    → end < u64_mod
    → receive_all (delta_frames share epoch bs) w ≡ w
unfolding receive_all delta_frames handle
behind_deltas share epoch [] n end w late runs small = refl
behind_deltas share epoch ([] ∷ bs) n end w late runs small =
    let m = index_delta_batch (delta_message share epoch []) in
    ap (λ r. receive_all (delta_frames share epoch bs) r.0)
      (receive-invalid m w (empty-invalid share epoch))
    ∙ behind_deltas share epoch bs n end w late runs small
behind_deltas share epoch ((j ∷ js) ∷ bs) n end w late runs small =
    let d = delta_message share epoch (j ∷ js) in
    let m = index_delta_batch d in
    let (here, rest) = RunsFrom-split n (j ∷ js) (concat bs) end runs in
    let room = RunsFrom-le (n + 1) js (n + length (j ∷ js)) here.1 in
    let above = RunsFrom-le (n + length (j ∷ js)) (concat bs) end rest in
    let step : (receive true m w).0 ≡ w = elim (Option-cases (validate_message m)) [
      | inl valid ↦
          ap (λ r. r.0) (receive-valid m w valid)
          ∙ stale_delta d w (omega (arith, late, here.0))
              (omega (arith, here.0, room, above, small))
      | inr (e, bad) ↦ ap (λ r. r.0) (receive-invalid m w (λ valid. cc))
    ] in
    ap (receive_all (delta_frames share epoch bs)) step
    ∙ behind_deltas share epoch bs (n + length (j ∷ js)) end w (omega (arith, late, above)) rest
        small

module _ (ignore : IgnoreFunc) (share : Bytes) (s : ShareStore) (small : s.next_seq < u64_mod) where
  -- What the frames leave of `w`.
  abbrev pub Leaves : PeerIndex → PeerIndex → Type 0
  Leaves w v = IsSynced ignore s v × (v.staging ≡ w.staging) × (v.snapshot ≡ w.snapshot)

  -- Delta frames of a front of the rows after the cursor, of which some may not be valid.
  pub any_deltas-IsSynced :
      (bs : List (List JournalRow)) (left : List JournalRow) (w : PeerIndex)
      (h : IsSynced ignore s w)
      → w.cursor.epoch ≡ s.epoch
      → h.start ≤ w.cursor.applied_seq + 1
      → w.cursor.applied_seq + 1 ≤ s.next_seq
      → journal_after w.cursor.applied_seq s.journal ≡ concat bs ++ left
      → let v = receive_all (delta_frames share s.epoch bs) w in Leaves w v
  unfolding receive_all delta_frames
  any_deltas-IsSynced [] left w h same covers room front = (h, refl, refl)
  any_deltas-IsSynced ([] ∷ bs) left w h same covers room front =
      let m = index_delta_batch (delta_message share s.epoch []) in
      let dropped = ap (λ r. r.0) (receive-invalid m w (empty-invalid share s.epoch)) in
      subst (λ u. Leaves w (receive_all (delta_frames share s.epoch bs) u)) (sym dropped)
        (any_deltas-IsSynced bs left w h same covers room front)
  any_deltas-IsSynced ((j ∷ js) ∷ bs) left w h same covers room front =
      let b = j ∷ js in
      let a = w.cursor.applied_seq in
      let m = index_delta_batch (delta_message share s.epoch b) in
      let parted : journal_after a s.journal ≡ concat (b ∷ []) ++ (concat bs ++ left) =
        front
        ∙ append_assoc b (concat bs) left
        ∙ ap (λ ks. ks ++ (concat bs ++ left)) (sym (append_nil b)) in
      elim (Option-cases (validate_message m)) [
        | inl valid ↦
            let ((later, reaches), epoch, staging, _, snapshot, rest, fits) =
              deltas-IsSynced ignore share s (b ∷ []) (concat bs ++ left) w h small same covers room
                parted (valid, tt) in
            let v = (receive true m w).0 in
            let (synced, stagings, snapshots) =
              any_deltas-IsSynced bs left v later epoch reaches fits rest in
            (synced, stagings ∙ staging, snapshots ∙ snapshot)
        | inr (e, bad) ↦
            let dropped : (receive true m w).0 ≡ w =
              ap (λ r. r.0) (receive-invalid m w (λ valid. cc)) in
            let (gone, parts, run) =
              journal_after-split a h.start s.journal s.next_seq h.journal.runs covers room in
            let tail = subst (λ ks. RunsFrom (a + 1) ks s.next_seq) front run in
            let (front_run, left_run) =
              RunsFrom-split (a + 1) (b ++ concat bs) left s.next_seq tail in
            let end = a + 1 + length (b ++ concat bs) in
            let (b_run, bs_run) = RunsFrom-split (a + 1) b (concat bs) end front_run in
            let below = RunsFrom-le end left s.next_seq left_run in
            let still =
              behind_deltas share s.epoch bs (a + 1 + length b) end w (omega arith) bs_run
                (omega (arith, below, small)) in
            subst (λ u. Leaves w (receive_all (delta_frames share s.epoch bs) u)) (sym dropped)
              (subst (Leaves w) (sym still) (h, refl, refl))
      ]

module _ (share id : Bytes) where
  -- Frames of a snapshot that has not begun.
  pub unbegun_batches :
      (n : ℕ) (bs : List (List FileInfo)) (w : PeerIndex)
      → is_current w.snapshot id ≡ false
      → receive_all (snapshot_batch_frames share id n bs) w ≡ w
  unfolding receive_all snapshot_batch_frames handle on_snapshot_batch
  unbegun_batches n [] w apart = refl
  unbegun_batches n (b ∷ bs) w apart =
      let d : IndexSnapshotBatch = record {
        share_id = share;
        snapshot_id = id;
        batch = n;
        files = b;
      } in
      let m = index_snapshot_batch d in
      let step : (receive true m w).0 ≡ w = elim (Option-cases (validate_message m)) [
        | inl valid ↦ ap (λ r. r.0) (receive-valid m w valid) ∙ ground (arith, apart)
        | inr (e, bad) ↦ ap (λ r. r.0) (receive-invalid m w (λ valid. cc))
      ] in
      ap (receive_all (snapshot_batch_frames share id (n + 1) bs)) step
      ∙ unbegun_batches (n + 1) bs w apart

unbegun-finish :
    (o : Option IndexSnapshotBegin) (d : IndexSnapshotEnd) (w : PeerIndex)
    → is_current o d.snapshot_id ≡ false
    → (finish_snapshot o d w).0 ≡ w
unbegun-finish none d w apart = refl
unbegun-finish (some b) d w apart = ground (arith, apart)

pub unbegun_end :
    (d : IndexSnapshotEnd) (w : PeerIndex)
    → is_current w.snapshot d.snapshot_id ≡ false
    → (receive true (index_snapshot_end d) w).0 ≡ w
unfolding handle on_snapshot_end
unbegun_end d w apart =
    let m = index_snapshot_end d in
    elim (Option-cases (validate_message m)) [
      | inl valid ↦ ap (λ r. r.0) (receive-valid m w valid) ∙ unbegun-finish w.snapshot d w apart
      | inr (e, bad) ↦ ap (λ r. r.0) (receive-invalid m w (λ valid. cc))
    ]
