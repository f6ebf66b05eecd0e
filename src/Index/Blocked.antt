-- ===== src/Index/Blocked.antt =====
-- A snapshot that has a message which is not valid.
use mathlib.Core.Path.{subst}
use syncat.Prelude.{
  Option-cases, length, Bytes, ℕ, ◌+◌, ◌≤◌, ◌<◌, ◌≡◌, refl, sym, ap, ◌∙◌, ◌≢◌, ◌⊎◌, inl, inr, true,
  Option, none, some, List, [], ◌∷◌, ◌++◌, arith,
}
use syncat.Reconcile.{FileInfo}
use syncat.Reconcile.Pass.{IgnoreFunc}
use syncat.Wire.{
  IndexSnapshotBegin, IndexSnapshotBatch, IndexSnapshotEnd, Message, index_snapshot_begin,
  index_snapshot_batch, index_snapshot_end,
}
use syncat.Wire.Text.{first_error-none}
use syncat.Wire.Check.{validate_file_info, validate_each_file, validate_files, validate_message}
use syncat.Index.{ShareStore}
use syncat.Index.Batches.{concat}
use syncat.Index.Answer.{snapshot_batch_frames, advertised, send_snapshot, Encoding, answered}
use syncat.Index.Receive.{
  stage_snapshot_batch, on_snapshot_batch, finish_snapshot, on_snapshot_end, handle, receive,
  receive_all, PeerIndex,
}
use syncat.Index.Frames.{IsValid, receive-valid, receive_all-append}
use syncat.Index.Snapshot.{begun, named, send_snapshot-whole}
use syncat.Index.Parts.{begin_message}

-- Some message of the list is not valid.
abbrev pub SomeInvalid : List Message → Type 0
SomeInvalid [] = ⊥
SomeInvalid (m ∷ ms) = (IsValid m → ⊥) ⊎ SomeInvalid ms

pub receive-invalid : (m : Message) (w : PeerIndex) → (IsValid m → ⊥) → receive true m w ≡ (w, [])
unfolding receive
receive-invalid m w bad = elim (Option-cases (validate_message m)) [
  | inl valid ↦ absurd (bad valid)
  | inr (e, refused) ↦ rw (refused, receive) refl
]

-- A batch moves the count of batches by one if it is the next, and else not at all.
batch-count :
    (m : IndexSnapshotBatch) (w : PeerIndex)
    → let v = (on_snapshot_batch m w).0 in
      (v.mirror ≡ w.mirror)
      × (v.snapshot ≡ w.snapshot)
      × ((v.cursor.snapshot_batch ≡ w.cursor.snapshot_batch)
          ⊎ ((m.batch ≡ w.cursor.snapshot_batch)
              × (v.cursor.snapshot_batch ≡ w.cursor.snapshot_batch + 1)))
unfolding on_snapshot_batch stage_snapshot_batch
batch-count m w = (ground arith, ground arith, ground arith)

received_batch :
    (m : IndexSnapshotBatch) (w : PeerIndex)
    → let v = (receive true (index_snapshot_batch m) w).0 in
      (v.mirror ≡ w.mirror)
      × (v.snapshot ≡ w.snapshot)
      × ((v.cursor.snapshot_batch ≡ w.cursor.snapshot_batch)
          ⊎ ((m.batch ≡ w.cursor.snapshot_batch)
              × (v.cursor.snapshot_batch ≡ w.cursor.snapshot_batch + 1)
              × IsValid (index_snapshot_batch m)))
unfolding handle
received_batch m w =
    let n = index_snapshot_batch m in
    elim (Option-cases (validate_message n)) [
      | inl valid ↦
          let (mirror, snapshot, count) = batch-count m w in
          rw (receive-valid n w valid) (
            mirror,
            snapshot,
            elim count [ inl same ↦ inl same | inr (next, more) ↦ inr (next, more, valid) ],
          )
      | inr (e, bad) ↦ rw (receive-invalid n w (λ valid. cc)) (refl, refl, inl refl)
    ]

-- The count of batches falls behind where one is refused, and does not catch up.
pub counted_batches :
    (share id : Bytes) (n : ℕ) (bs : List (List FileInfo)) (w : PeerIndex)
    → w.cursor.snapshot_batch ≤ n
    → let v = receive_all (snapshot_batch_frames share id n bs) w in
      (v.mirror ≡ w.mirror)
      × (v.snapshot ≡ w.snapshot)
      × (v.cursor.snapshot_batch ≤ n + length bs)
      × (SomeInvalid (snapshot_batch_frames share id n bs) ⊎ (w.cursor.snapshot_batch < n)
          → v.cursor.snapshot_batch < n + length bs)
unfolding receive_all snapshot_batch_frames
counted_batches share id n [] w behind = (
  refl,
  refl,
  omega (arith, behind),
  λ bad. elim bad [ inl none_bad ↦ absurd none_bad | inr less ↦ omega (arith, less) ],
)
counted_batches share id n (b ∷ bs) w behind =
    let m : IndexSnapshotBatch = record {
      share_id = share;
      snapshot_id = id;
      batch = n;
      files = b;
    } in
    let u = (receive true (index_snapshot_batch m) w).0 in
    let (mirror, snapshot, count) = received_batch m w in
    let most : u.cursor.snapshot_batch ≤ n + 1 = grind (arith, count, behind) in
    let (mirrors, snapshots, bound, strict) = counted_batches share id (n + 1) bs u most in
    (
      mirrors ∙ mirror,
      snapshots ∙ snapshot,
      omega (arith, bound),
      λ bad.
          let late : SomeInvalid (snapshot_batch_frames share id (n + 1) bs)
              ⊎ (u.cursor.snapshot_batch < n + 1) =
            elim bad [
              | inr less ↦ inr (elim count [
                | inl same ↦ omega (arith, same, less)
                | inr (next, _, _) ↦ absurd (omega (arith, next, less))
              ])
              | inl (inr later) ↦ inl later
              | inl (inl here) ↦ inr (elim count [
                | inl same ↦ omega (arith, same, behind)
                | inr (_, _, valid) ↦ absurd (here valid)
              ])
            ] in
          omega (arith, strict late),
    )

-- Some row is one that `ValidateMessage` refuses.
abbrev pub AnyBad : List FileInfo → Type 0
AnyBad [] = ⊥
AnyBad (f ∷ fs) = (validate_file_info f ≢ none) ⊎ AnyBad fs

AnyBad-append : (xs ys : List FileInfo) → AnyBad (xs ++ ys) → AnyBad xs ⊎ AnyBad ys
AnyBad-append [] ys h = inr h
AnyBad-append (x ∷ xs) ys (inl bad) = inl (inl bad)
AnyBad-append (x ∷ xs) ys (inr later) = elim (AnyBad-append xs ys later) [
  | inl l ↦ inl (inr l)
  | inr r ↦ inr r
]

validate_each_file-bad : (fs : List FileInfo) → AnyBad fs → validate_each_file fs ≢ none
unfolding validate_each_file
validate_each_file-bad [] bad v = bad
validate_each_file-bad (f ∷ fs) bad v =
    let (here, rest) = first_error-none (validate_file_info f) (validate_each_file fs) v in
    elim bad [ inl b ↦ b here | inr later ↦ validate_each_file-bad fs later rest ]

bad_batch : (m : IndexSnapshotBatch) → AnyBad m.files → IsValid (index_snapshot_batch m) → ⊥
unfolding validate_message validate_files
bad_batch m bad v =
    let (_, below) = first_error-none _ _ v in
    let (_, files) = first_error-none _ (validate_files m.files) below in
    let (_, each) = first_error-none _ (validate_each_file m.files) files in
    validate_each_file-bad m.files bad each

SomeInvalid-bad :
    (share id : Bytes) (n : ℕ) (bs : List (List FileInfo))
    → AnyBad (concat bs)
    → SomeInvalid (snapshot_batch_frames share id n bs)
unfolding snapshot_batch_frames
SomeInvalid-bad share id n [] bad = bad
SomeInvalid-bad share id n (b ∷ bs) bad = elim (AnyBad-append b (concat bs) bad) [
  | inl here ↦
      inl (bad_batch (record { share_id = share; snapshot_id = id; batch = n; files = b }) here)
  | inr later ↦ inr (SomeInvalid-bad share id (n + 1) bs later)
]

unfinished :
    (o : Option IndexSnapshotBegin) (m : IndexSnapshotEnd) (w : PeerIndex)
    → w.cursor.snapshot_batch ≢ m.batch_count
    → (finish_snapshot o m w).0.mirror ≡ w.mirror
unfinished none m w short = refl
unfinished (some b) m w short = ground (arith, short)

unended :
    (m : IndexSnapshotEnd) (w : PeerIndex)
    → w.cursor.snapshot_batch ≢ m.batch_count
    → (receive true (index_snapshot_end m) w).0.mirror ≡ w.mirror
unfolding handle on_snapshot_end
unended m w short =
    let n = index_snapshot_end m in
    elim (Option-cases (validate_message n)) [
      | inl valid ↦ ap (λ r. r.0.mirror) (receive-valid n w valid) ∙ unfinished w.snapshot m w short
      | inr (e, bad) ↦ ap (λ r. r.0.mirror) (receive-invalid n w (λ valid. cc))
    ]

-- One row that `ValidateMessage` refuses, such as a path with a colon, keeps the whole share back: a
-- receiver that takes in every frame of the snapshot has the mirror that it had before.
pub bad_row_blocks :
    (share : Bytes) (ignore : IgnoreFunc) (enc : Encoding) (id : Bytes) (s : ShareStore)
    (w : PeerIndex)
    → (send_snapshot share ignore enc id s).1 ≡ answered
    → IsValid (index_snapshot_begin (begin_message share id s))
    → AnyBad (advertised ignore s)
    → (receive_all (send_snapshot share ignore enc id s).0 w).mirror ≡ w.mirror
unfolding receive_all handle
bad_row_blocks share ignore enc id s w done valid bad =
    let (bs, all_rows, frames) = send_snapshot-whole share ignore enc id s done in
    let b = begin_message share id s in
    let m : IndexSnapshotEnd = record {
      share_id = share;
      snapshot_id = id;
      batch_count = length bs;
    } in
    let batches = snapshot_batch_frames share id 0 bs in
    let first = (receive true (index_snapshot_begin b) w).0 in
    let started : first ≡ _ =
      ap (λ r. r.0) (receive-valid (index_snapshot_begin b) w valid) ∙ begun b w (named b valid) in
    let count : first.cursor.snapshot_batch ≡ 0 = ap (λ u. u.cursor.snapshot_batch) started in
    let v = receive_all batches first in
    let (mirror, _, _, strict) = counted_batches share id 0 bs first (omega (arith, count)) in
    let less = strict (inl (SomeInvalid-bad share id 0 bs (subst AnyBad (sym all_rows) bad))) in
    ap (λ ms. (receive_all ms w).mirror) frames
    ∙ ap (λ u. u.mirror) (receive_all-append batches (index_snapshot_end m ∷ []) first)
    ∙ unended m v (λ e. omega (arith, e, less))
    ∙ mirror
    ∙ ap (λ u. u.mirror) started
