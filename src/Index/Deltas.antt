-- ===== src/Index/Deltas.antt =====
-- Delta batches that follow on the receiver's cursor: their rows are written over the mirror, and
-- the cursor moves to the last of them.
use mathlib.Core.Path.{subst}
use syncat.Prelude.{
  length, All, Bytes, bytes_eq_iff, ℕ, suc, ◌+◌, ◌-◌, ◌%◌, ◌≤◌, ◌<◌, ◌≡◌, refl, sym, ap, ◌∙◌, true,
  some, List, [], ◌∷◌, arith,
}
use syncat.Vector.{u64_mod}
use syncat.Reconcile.{FileInfo}
use syncat.Reconcile.Pass.{index_onto}
use syncat.Wire.{IndexDeltaBatch, index_delta_batch}
use syncat.Wire.Delta.{accepted_delta_counts}
use syncat.Index.{rows_of, JournalRow}
use syncat.Index.Batches.{concat}
use syncat.Index.Answer.{last_seq, first_seq, entries_of, delta_frames}
use syncat.Index.Receive.{
  apply_peer_delta, files_of, counts_on, apply_delta, on_delta_batch, handle, receive, receive_all,
  PeerIndex,
}
use syncat.Index.Frames.{IsValid, receive-valid, index_onto-append}
use syncat.Index.Journal.{RunsFrom, rows_of-append, RunsFrom-length, RunsFrom-le, RunsFrom-split}

files_of-entries_of : (js : List JournalRow) → files_of (entries_of js) ≡ rows_of js
files_of-entries_of [] = refl
files_of-entries_of (j ∷ js) = ap (◌∷◌ j.row) (files_of-entries_of js)

length-rows_of : (js : List JournalRow) → length (rows_of js) ≡ length js
length-rows_of [] = refl
length-rows_of (j ∷ js) = ap suc (length-rows_of js)

counts_on-entries_of :
    (n : ℕ) (js : List JournalRow) (end : ℕ)
    → RunsFrom n js end
    → end < u64_mod
    → counts_on n (entries_of js) ≡ true
unfolding counts_on
counts_on-entries_of n [] end runs small = refl
counts_on-entries_of n (j ∷ js) end runs small =
    let below = RunsFrom-le (n + 1) js end runs.1 in
    let next : (n + 1) % u64_mod ≡ n + 1 = omega (arith, below, small) in
    let rest = counts_on-entries_of (n + 1) js end runs.1 small in
    rw (next) (ground (arith, runs.0, rest))

pub last_seq-run :
    (seq n : ℕ) (j : JournalRow) (js : List JournalRow) (end : ℕ)
    → RunsFrom n (j ∷ js) end
    → last_seq seq (j ∷ js) + 1 ≡ end
last_seq-run seq n j [] end runs = omega (arith, runs.0, runs.1)
last_seq-run seq n j (k ∷ js) end runs = last_seq-run j.seq (n + 1) k js end runs.1

-- The message that `sendJournalDeltas` builds of the rows.
abbrev pub delta_message : Bytes → Bytes → List JournalRow → IndexDeltaBatch
delta_message share epoch js = record {
  share_id = share;
  epoch = epoch;
  from_seq = first_seq js;
  to_seq = last_seq 0 js;
  entries = entries_of js;
}

abbrev pub advance : List FileInfo → ℕ → PeerIndex → PeerIndex
advance rows seq w = record w {
  mirror = index_onto w.mirror rows;
  cursor = record w.cursor { applied_seq = seq };
}

taken-apply_peer_delta :
    (epoch : Bytes) (from to : ℕ) (rows : List FileInfo) (w : PeerIndex)
    → w.cursor.epoch ≡ epoch
    → from ≡ w.cursor.applied_seq + 1
    → from + length rows ≡ to + 1
    → 1 ≤ length rows
    → to + 1 < u64_mod
    → apply_peer_delta epoch from to rows w ≡ some (advance rows to w)
unfolding apply_peer_delta
taken-apply_peer_delta epoch from to rows w same next count some_row small =
    let a : (w.cursor.applied_seq + 1) % u64_mod ≡ from = omega arith in
    let b : (to + (u64_mod - from) + 1) % u64_mod ≡ length rows = omega arith in
    ground (arith, a, b, bytes_eq_iff w.cursor.epoch epoch)

-- Entries that count on leave the outcome to `ApplyPeerDelta`.
pub on_delta_batch-counted :
    (m : IndexDeltaBatch) (w : PeerIndex)
    → counts_on m.from_seq m.entries ≡ true
    → on_delta_batch m w
      ≡ apply_delta (apply_peer_delta m.epoch m.from_seq m.to_seq (files_of m.entries) w) m w
unfolding on_delta_batch
on_delta_batch-counted m w counts = rw counts refl

taken-delta :
    (share epoch : Bytes) (n : ℕ) (j : JournalRow) (js : List JournalRow) (end : ℕ) (w : PeerIndex)
    → w.cursor.epoch ≡ epoch
    → n ≡ w.cursor.applied_seq + 1
    → RunsFrom n (j ∷ js) end
    → end < u64_mod
    → (on_delta_batch (delta_message share epoch (j ∷ js)) w).0
      ≡ advance (rows_of (j ∷ js)) (last_seq 0 (j ∷ js)) w
taken-delta share epoch n j js end w same next runs small =
    let rows = rows_of (j ∷ js) in
    let last = last_seq-run 0 n j js end runs in
    let long = RunsFrom-length n (j ∷ js) end runs in
    let many : length (rows_of (j ∷ js)) ≡ length (j ∷ js) = length-rows_of (j ∷ js) in
    let taken =
      taken-apply_peer_delta epoch j.seq (last_seq 0 (j ∷ js)) rows w same
        (omega (arith, runs.0, next)) (omega (arith, runs.0, many, long, last))
        (omega (arith, many)) (omega (arith, last, small)) in
    let counts : counts_on j.seq (entries_of (j ∷ js)) ≡ true =
      counts_on-entries_of j.seq (j ∷ js) end
        (refl, subst (λ k. RunsFrom (k + 1) js end) (sym runs.0) runs.1) small in
    let m = delta_message share epoch (j ∷ js) in
    ap (λ r. r.0) (on_delta_batch-counted m w counts)
    ∙ ap (λ rs. (apply_delta (apply_peer_delta epoch j.seq m.to_seq rs w) m w).0)
        (files_of-entries_of (j ∷ js))
    ∙ ap (λ o. (apply_delta o m w).0) taken

-- A message without rows is not valid.
pub empty-invalid :
    (share epoch : Bytes) → IsValid (index_delta_batch (delta_message share epoch [])) → ⊥
empty-invalid share epoch v =
    let (many, _, _, _) = accepted_delta_counts (delta_message share epoch []) (omega arith) v in
    omega (arith, many)

-- Batches that follow on the cursor, all valid, take it from row to row to their end.
pub after_deltas_lem :
    (share epoch : Bytes) (bs : List (List JournalRow)) (n end : ℕ) (w : PeerIndex)
    → w.cursor.epoch ≡ epoch
    → n ≡ w.cursor.applied_seq + 1
    → RunsFrom n (concat bs) end
    → end < u64_mod
    → All IsValid (delta_frames share epoch bs)
    → receive_all (delta_frames share epoch bs) w ≡ advance (rows_of (concat bs)) (end - 1) w
unfolding receive_all delta_frames index_onto
after_deltas_lem share epoch [] n end w same next runs small v =
    let e : w.cursor.applied_seq ≡ end - 1 = omega (arith, next, runs) in
    ap (λ k. record w { cursor = record w.cursor { applied_seq = k } }) e
after_deltas_lem share epoch ([] ∷ bs) n end w same next runs small v =
    absurd (empty-invalid share epoch v.0)
after_deltas_lem share epoch ((j ∷ js) ∷ bs) n end w same next runs small v =
    let b = j ∷ js in
    let seq = last_seq 0 b in
    let after = advance (rows_of b) seq w in
    let (here, rest) = RunsFrom-split n b (concat bs) end runs in
    let above = RunsFrom-le (n + length b) (concat bs) end rest in
    let last = last_seq-run 0 n j js (n + length b) here in
    let follows : n + length b ≡ seq + 1 = omega (arith, last) in
    let step : (receive true (index_delta_batch (delta_message share epoch b)) w).0 ≡ after =
      ap (λ r. r.0) (receive-valid (index_delta_batch (delta_message share epoch b)) w v.0)
      ∙ unfold handle in
        taken-delta share epoch n j js (n + length b) w same next here
          (omega (arith, above, small)) in
    let ih = after_deltas_lem share epoch bs (n + length b) end after same follows rest small v.1 in
    ap (receive_all (delta_frames share epoch bs)) step
    ∙ ih
    ∙ ap (λ m. record w { mirror = m; cursor = record w.cursor { applied_seq = end - 1 } })
        (sym (index_onto-append w.mirror (rows_of b) (rows_of (concat bs)))
          ∙ ap (index_onto w.mirror) (sym (rows_of-append b (concat bs))))
