-- ===== src/Index/Rounds.antt =====
-- The loops of `answerSyncRequest` end, and when it answers by deltas the journal reaches back to the
-- peer's cursor.

use syncat.Prelude.{
  ltb, ◌==◌, if◌then◌else◌, Bool-cases, length, take, drop, length-append, All, Bytes, bytes_eq_iff,
  ℕ, zero, suc, ◌+◌, ◌-◌, ◌≤◌, ◌<◌, ◌≡◌, refl, sym, ap, ◌∙◌, ◌⊎◌, inl, inr, Bool, true, false, not,
  List, [], ◌∷◌, arith,
}
use syncat.Reconcile.{FileInfo}
use syncat.Reconcile.Pass.{IgnoreFunc}
use syncat.Wire.{IndexSyncRequest, Message}
use syncat.Index.{
  high_seq, oldest_journal_seq, journal_after, journal_since, journal_has_ignored, JournalRow,
  ShareStore,
}
use syncat.Index.Batches.{
  target_index_batch_size, batch_array_header_slack, batch_len-some, cut_batches, take-drop,
  length-drop, take-All, cut_batches-whole,
}
use syncat.Index.Answer.{
  can_answer_with_deltas, last_seq, first_seq, journal_page_size, delta_batch_len,
  snapshot_batch_len, delta_frames, advertised, after_frames, after_deltas, send_journal_deltas,
  send_snapshot, answer_sync_request, Encoding, DeltaOutcome, AnswerOutcome, delivered, has_ignored,
  delta_too_big, out_of_rounds, answered,
}
use syncat.Index.Journal.{RunsFrom, RunsFrom-le, IsJournal}
use syncat.Index.Fresh.{length-journal_after}
use syncat.Index.Sent.{page_step}

-- The number of the oldest row is where the rows begin.
oldest-run :
    (n : ℕ) (j : JournalRow) (js : List JournalRow) (end : ℕ)
    → RunsFrom n (j ∷ js) end
    → oldest_journal_seq (j ∷ js) ≡ n
unfolding oldest_journal_seq
oldest-run n j [] end runs = runs.0
oldest-run n j (k ∷ js) end runs = omega (arith, runs.0, oldest-run (n + 1) k js end runs.1)

oldest_journal_seq-run :
    (n a : ℕ) (js : List JournalRow) (end : ℕ)
    → RunsFrom n js end
    → 1 ≤ oldest_journal_seq js
    → oldest_journal_seq js ≤ a + 1
    → n ≤ a + 1
oldest_journal_seq-run n a [] end runs some_row h =
    absurd (unfold oldest_journal_seq in omega (arith, some_row))
oldest_journal_seq-run n a (j ∷ js) end runs some_row h =
    omega (arith, h, oldest-run n j js end runs)

-- A request is answered by deltas only if the epoch is the share's and the journal holds all rows
-- after the peer's cursor.
pub can_answer-covers :
    (req : IndexSyncRequest) (n : ℕ) (s : ShareStore)
    → IsJournal n s
    → can_answer_with_deltas req s.epoch (high_seq s) (oldest_journal_seq s.journal) ≡ true
    → (req.epoch ≡ s.epoch) × (n ≤ req.applied_seq + 1) × (req.applied_seq + 1 ≤ s.next_seq)
unfolding can_answer_with_deltas
can_answer-covers req n s h can =
    let kept = RunsFrom-le n s.journal s.next_seq h.runs in
    let same = bytes_eq_iff req.epoch s.epoch in
    let one = h.positive in
    let oldest = oldest_journal_seq s.journal in
    let reach = oldest_journal_seq-run n req.applied_seq s.journal s.next_seq h.runs in
    let most : req.applied_seq + 1 ≤ s.next_seq = ground (arith, can, kept, one) in
    (
      ground (arith, can, same),
      elim (Bool-cases (req.applied_seq == s.next_seq - 1)) [
        | inl e ↦ ground (arith, e, kept, one)
        | inr e ↦ reach (ground (arith, can, e)) (ground (arith, can, e))
      ],
      most,
    )

-- How one round ends, by the tests that it makes.
round-outcome :
    (P : DeltaOutcome → Type 0) (empty ignored fits short : Bool) (sent : List Message)
    (more : List Message × DeltaOutcome)
    → P delivered
    → P has_ignored
    → (fits ≡ false → P delta_too_big)
    → (empty ≡ false → P more.1)
    → P
        (if empty
          then ([], delivered)
          else if ignored
          then ([], has_ignored)
          else if not fits
          then (sent, delta_too_big)
          else if short
          then (sent, delivered)
          else after_frames sent more).1
round-outcome P true ignored fits short sent more done refused big later = done
round-outcome P false true fits short sent more done refused big later = refused
round-outcome P false false false short sent more done refused big later = big refl
round-outcome P false false true true sent more done refused big later = done
round-outcome P false false true false sent more done refused big later = later refl

abbrev pub IsBelow : ℕ → JournalRow → Type 0
IsBelow end j = j.seq < end

RunsFrom-IsBelow :
    (n : ℕ) (js : List JournalRow) (end : ℕ) → RunsFrom n js end → All (IsBelow end) js
RunsFrom-IsBelow n [] end runs = tt
RunsFrom-IsBelow n (j ∷ js) end runs = (
  omega (arith, runs.0, RunsFrom-le (n + 1) js end runs.1),
  RunsFrom-IsBelow (n + 1) js end runs.1,
)

journal_after-All :
    (P : JournalRow → Type 0) (a : ℕ) (js : List JournalRow) → All P js → All P (journal_after a js)
unfolding journal_after
journal_after-All P a [] h = tt
journal_after-All P a (j ∷ js) h = elim (Bool-cases (ltb a j.seq)) [
  | inl e ↦ rw e (h.0, journal_after-All P a js h.1)
  | inr e ↦ rw e (journal_after-All P a js h.1)
]

last_seq-below :
    (end seq : ℕ) (js : List JournalRow) → seq < end → All (IsBelow end) js → last_seq seq js < end
last_seq-below end seq [] h each = h
last_seq-below end seq (j ∷ js) h each = last_seq-below end j.seq js each.0 each.1

module _ (share : Bytes) (ignore : IgnoreFunc) (enc : Encoding) (s : ShareStore) (n page : ℕ) where
  -- With more rounds than there are rows left in the journal, the loop ends as one of its rounds.
  pub send_journal_deltas-outcome :
      (P_row : JournalRow → Type 0) (P : DeltaOutcome → Type 0) (rounds a : ℕ)
      → P delivered
      → P has_ignored
      → ((rows : List JournalRow)
          → All (IsBelow s.next_seq) rows
          → All P_row rows
          → (cut_batches (length rows) (λ m. delta_batch_len enc) 0 rows).1 ≡ false
          → P delta_too_big)
      → All P_row s.journal
      → RunsFrom n s.journal s.next_seq
      → n ≤ a + 1
      → a + 1 ≤ s.next_seq
      → 1 ≤ page
      → length (journal_after a s.journal) < rounds
      → P (send_journal_deltas share ignore enc rounds page s a).1
  unfolding send_journal_deltas journal_since
  send_journal_deltas-outcome P_row P zero a done refused big each runs from to some_page few =
      absurd (omega (arith, few))
  send_journal_deltas-outcome P_row P (suc rounds) a done refused big each runs from to some_page
        few =
      let tail = journal_after a s.journal in
      let rows = take page tail in
      let after = last_seq a rows in
      let (grown, room, later) = page_step s n page a runs from to in
      let cut = cut_batches (length rows) (λ (m : ℕ). delta_batch_len enc) 0 rows in
      let more = send_journal_deltas share ignore enc rounds page s after in
      let shorter = length-drop page tail in
      let total : length rows + length (drop page tail) ≡ length tail =
        sym (length-append rows (drop page tail)) ∙ ap length (take-drop page tail) in
      let left = ap length later in
      round-outcome P (length rows == 0) (journal_has_ignored ignore rows) cut.1
        (ltb (length rows) page) (delta_frames share s.epoch cut.0) more done refused
        (big rows
          (take-All (IsBelow s.next_seq) page tail (
            journal_after-All (IsBelow s.next_seq) a s.journal
              (RunsFrom-IsBelow n s.journal s.next_seq runs)))
          (take-All P_row page tail (journal_after-All P_row a s.journal each)))
        (λ some_row.
          send_journal_deltas-outcome P_row P rounds after done refused big each runs
            (omega (arith, from, grown)) room some_page
            (ground (arith, few, shorter, left, some_page, some_row, total)))

-- Each row of the share fits into a frame of its own: into a snapshot batch under any number that a
-- batch of its snapshot may have, and into a delta batch with numbers of its journal.
abbrev pub FitsBatch : IgnoreFunc → Encoding → ShareStore → FileInfo → Type 0
FitsBatch ignore enc s f =
    (batch : ℕ)
    → batch < length (advertised ignore s)
    → enc.snapshot_envelope batch + batch_array_header_slack + enc.file_size f
      ≤ target_index_batch_size

abbrev pub FitsDelta : Encoding → ShareStore → JournalRow → Type 0
FitsDelta enc s j =
    (from to : ℕ)
    → from < s.next_seq
    → to < s.next_seq
    → enc.delta_envelope from to + batch_array_header_slack + enc.entry_size j
      ≤ target_index_batch_size

pub record Fits (ignore : IgnoreFunc) (enc : Encoding) (s : ShareStore) : Type 0 where
  pub files : All (FitsBatch ignore enc s) (advertised ignore s)
  pub entries : All (FitsDelta enc s) s.journal

All-both :
    (P Q : JournalRow → Type 0) (js : List JournalRow)
    → All P js
    → All Q js
    → All (λ j. P j × Q j) js
All-both P Q [] p q = tt
All-both P Q (j ∷ js) p q = ((p.0, q.0), All-both P Q js p.1 q.1)

All-left : (P Q : JournalRow → Type 0) (js : List JournalRow) → All (λ j. P j × Q j) js → All P js
All-left P Q [] h = tt
All-left P Q (j ∷ js) h = (h.0.0, All-left P Q js h.1)

-- The two outcomes of the delta loop that lead to a whole answer.
abbrev Settled : DeltaOutcome → Type 0
Settled o = (o ≡ delivered) ⊎ (o ≡ has_ignored)

after_deltas-answered :
    (a : List Message × DeltaOutcome) (snapshot : List Message × AnswerOutcome)
    → Settled a.1
    → snapshot.1 ≡ answered
    → (after_deltas a snapshot).1 ≡ answered
after_deltas-answered (sent, delivered) snapshot h e = refl
after_deltas-answered (sent, has_ignored) snapshot h e = e
after_deltas-answered (sent, delta_too_big) snapshot h e = ground (arith, h)
after_deltas-answered (sent, out_of_rounds) snapshot h e = ground (arith, h)

delta_cut-whole :
    (enc : Encoding) (s : ShareStore) (rows : List JournalRow)
    → All (IsBelow s.next_seq) rows
    → All (FitsDelta enc s) rows
    → (cut_batches (length rows) (λ m. delta_batch_len enc) 0 rows).1 ≡ true
unfolding delta_batch_len
delta_cut-whole enc s rows below each =
    cut_batches-whole (λ j. IsBelow s.next_seq j × FitsDelta enc s j) (length rows) (length rows)
      (λ (m : ℕ). delta_batch_len enc) 0 rows (omega arith) (omega arith)
      (All-both (IsBelow s.next_seq) (FitsDelta enc s) rows below each)
      (λ m j js room both.
        let page = j ∷ js in
        let to =
          last_seq-below s.next_seq j.seq js both.0.0
            (All-left (IsBelow s.next_seq) (FitsDelta enc s) js both.1) in
        batch_len-some enc.entry_size (enc.delta_envelope (first_seq page) (last_seq 0 page)) j js
          (both.0.1 (first_seq page) (last_seq 0 page) both.0.0 to))

send_snapshot-answered :
    (share : Bytes) (ignore : IgnoreFunc) (enc : Encoding) (id : Bytes) (s : ShareStore)
    → Fits ignore enc s
    → (send_snapshot share ignore enc id s).1 ≡ answered
unfolding send_snapshot snapshot_batch_len
send_snapshot-answered share ignore enc id s fits =
    let rows = advertised ignore s in
    let full =
      cut_batches-whole (FitsBatch ignore enc s) (length rows) (length rows)
        (snapshot_batch_len enc) 0 rows (omega arith) (omega arith) fits.files
        (λ m f fs room each.
          batch_len-some enc.file_size (enc.snapshot_envelope m) f fs (each.0 m room)) in
    rw full refl

-- Where each row that the share has in its snapshot and in its journal fits into a frame of its own, a
-- request for a share that is served is answered in full: neither loop fails or runs for ever, and
-- the rounds of the model are enough.
pub answer_sync_request-answers :
    (share : Bytes) (ignore : IgnoreFunc) (enc : Encoding) (id : Bytes) (req : IndexSyncRequest)
    (n : ℕ) (s : ShareStore)
    → IsJournal n s
    → Fits ignore enc s
    → (answer_sync_request share ignore enc true id req s).1 ≡ answered
unfolding answer_sync_request
answer_sync_request-answers share ignore enc id req n s h fits =
    let snapshot = send_snapshot-answered share ignore enc id s fits in
    let can = can_answer_with_deltas req s.epoch (high_seq s) (oldest_journal_seq s.journal) in
    elim (Bool-cases can) [
      | inl e ↦
          let (same, from, to) = can_answer-covers req n s h e in
          rw (e) (
            after_deltas-answered
              (send_journal_deltas share ignore enc (length s.journal + 1) journal_page_size s
                req.applied_seq)
              (send_snapshot share ignore enc id s)
              (send_journal_deltas-outcome share ignore enc s n journal_page_size (FitsDelta enc s)
                Settled (length s.journal + 1) req.applied_seq (inl refl) (inr refl)
                (λ rows below each big. ground (arith, big, delta_cut-whole enc s rows below each))
                fits.entries h.runs from to (omega arith)
                (omega (arith, length-journal_after req.applied_seq s.journal)))
              snapshot)
      | inr e ↦ rw e snapshot
    ]
