-- ===== src/Index/Answer.antt =====
-- What a node writes when a peer asks for its index: `answerSyncRequest`, `canAnswerWithDeltas` and
-- `sendJournalDeltas` of internal/sync/session.go. The frames are those that reach the connection if
-- no write fails; the id of a snapshot is random, and an argument.
use syncat.Prelude.{
  ltb, leb, ◌==◌, if◌then◌else◌, length, Bytes, bytes_eq, ℕ, zero, suc, ◌+◌, Bool, true, false,
  ◌&&◌, ◌||◌, not, List, [], ◌∷◌, ◌++◌,
}
use syncat.Reconcile.{FileInfo}
use syncat.Reconcile.Pass.{IgnoreFunc}
use syncat.Wire.{
  IndexDeltaEntry, IndexSyncRequest, Message, index_snapshot_begin, index_snapshot_batch,
  index_snapshot_end, index_delta_batch,
}
use syncat.Index.{
  high_seq, oldest_journal_seq, journal_since, list_share, filter_ignored_rows, journal_has_ignored,
  JournalRow, ShareStore,
}
use syncat.Index.Batches.{batch_len, cut_batches}

-- The sizes that CBOR gives to the messages without entries and to one entry.
pub record Encoding : Type 0 where
  pub snapshot_envelope : ℕ → ℕ
  pub delta_envelope : ℕ → ℕ → ℕ
  pub file_size : FileInfo → ℕ
  pub entry_size : JournalRow → ℕ

unfoldable pub can_answer_with_deltas : IndexSyncRequest → Bytes → ℕ → ℕ → Bool
can_answer_with_deltas req epoch high oldest =
    if not (bytes_eq req.epoch epoch) || ltb high req.applied_seq
    then false
    else if req.applied_seq == high
    then true
    else ltb 0 oldest && leb oldest (req.applied_seq + 1)

-- The number of the last row.
abbrev pub last_seq : ℕ → List JournalRow → ℕ
last_seq seq [] = seq
last_seq seq (j ∷ js) = last_seq j.seq js

abbrev pub first_seq : List JournalRow → ℕ
first_seq [] = 0
first_seq (j ∷ js) = j.seq

abbrev pub entries_of : List JournalRow → List IndexDeltaEntry
entries_of [] = []
entries_of (j ∷ js) = record { seq = j.seq; file = j.row } ∷ entries_of js

-- How `sendJournalDeltas` ends. `out_of_rounds` is no outcome of the code.
pub data DeltaOutcome : Type 0 where
  delivered has_ignored delta_too_big out_of_rounds : DeltaOutcome

-- How `answerSyncRequest` ends.
pub data AnswerOutcome : Type 0 where
  answered not_served entry_too_big no_end : AnswerOutcome

abbrev pub journal_page_size : ℕ
journal_page_size = 20000

module _ (enc : Encoding) where
  unfoldable pub delta_batch_len : List JournalRow → ℕ
  unfolding batch_len
  delta_batch_len page =
      batch_len enc.entry_size (enc.delta_envelope (first_seq page) (last_seq 0 page)) page

  unfoldable pub snapshot_batch_len : ℕ → List FileInfo → ℕ
  unfolding batch_len
  snapshot_batch_len n rows = batch_len enc.file_size (enc.snapshot_envelope n) rows

module _ (share : Bytes) where
  unfoldable pub delta_frames : Bytes → List (List JournalRow) → List Message
  delta_frames epoch [] = []
  delta_frames epoch (b ∷ bs) =
      index_delta_batch (record {
        share_id = share;
        epoch = epoch;
        from_seq = first_seq b;
        to_seq = last_seq 0 b;
        entries = entries_of b;
      })
      ∷ delta_frames epoch bs

  unfoldable pub snapshot_batch_frames : Bytes → ℕ → List (List FileInfo) → List Message
  snapshot_batch_frames id n [] = []
  snapshot_batch_frames id n (b ∷ bs) =
      index_snapshot_batch (record { share_id = share; snapshot_id = id; batch = n; files = b })
      ∷ snapshot_batch_frames id (n + 1) bs

-- What a snapshot tells of: no parked row, and none that the rules in force ignore.
abbrev pub advertised : IgnoreFunc → ShareStore → List FileInfo
advertised ignore s = filter_ignored_rows ignore (list_share s.files)

abbrev pub after_frames : List Message → List Message × DeltaOutcome → List Message × DeltaOutcome
after_frames frames (more, outcome) = (frames ++ more, outcome)

abbrev pub after_deltas :
    List Message × DeltaOutcome → List Message × AnswerOutcome → List Message × AnswerOutcome
after_deltas (frames, delivered) snapshot = (frames, answered)
after_deltas (frames, delta_too_big) snapshot = (frames, entry_too_big)
after_deltas (frames, out_of_rounds) snapshot = (frames, no_end)
after_deltas (frames, has_ignored) (more, outcome) = (frames ++ more, outcome)

module _ (share : Bytes) (ignore : IgnoreFunc) (enc : Encoding) where
  -- A page of the journal a round.
  unfoldable pub send_journal_deltas : ℕ → ℕ → ShareStore → ℕ → List Message × DeltaOutcome
  unfolding journal_since cut_batches delta_batch_len delta_frames journal_has_ignored
  send_journal_deltas zero page_size s applied = ([], out_of_rounds)
  send_journal_deltas (suc rounds) page_size s applied =
      let rows = journal_since applied page_size s.journal in
      let cut = cut_batches (length rows) (λ n. delta_batch_len enc) 0 rows in
      let frames = delta_frames share s.epoch cut.0 in
      let more = send_journal_deltas rounds page_size s (last_seq applied rows) in
      if length rows == 0
      then ([], delivered)
      else if journal_has_ignored ignore rows
      then ([], has_ignored)
      else if not cut.1
      then (frames, delta_too_big)
      else if ltb (length rows) page_size
      then (frames, delivered)
      else after_frames frames more

  unfoldable pub send_snapshot : Bytes → ShareStore → List Message × AnswerOutcome
  unfolding cut_batches snapshot_batch_len snapshot_batch_frames
  send_snapshot id s =
      let rows = advertised ignore s in
      let cut = cut_batches (length rows) (snapshot_batch_len enc) 0 rows in
      let begin =
        index_snapshot_begin
          (record { share_id = share; snapshot_id = id; epoch = s.epoch; high_seq = high_seq s }) in
      let end =
        index_snapshot_end
          (record { share_id = share; snapshot_id = id; batch_count = length cut.0 }) in
      let batches = snapshot_batch_frames share id 0 cut.0 in
      if cut.1 then (begin ∷ batches ++ end ∷ [], answered) else (begin ∷ batches, entry_too_big)

  -- `serves` is `servesOutboundShare` when the request is answered.
  unfoldable pub answer_sync_request :
      Bool → Bytes → IndexSyncRequest → ShareStore → List Message × AnswerOutcome
  unfolding can_answer_with_deltas oldest_journal_seq send_journal_deltas send_snapshot
  answer_sync_request serves id req s =
      if not serves
      then ([], not_served)
      else if can_answer_with_deltas req s.epoch (high_seq s) (oldest_journal_seq s.journal)
      then after_deltas
          (send_journal_deltas (length s.journal + 1) journal_page_size s req.applied_seq)
          (send_snapshot id s)
      else send_snapshot id s
