-- ===== src/Index/Answered.antt =====
-- One whole exchange: the request for the receiver's cursor, and what its answer does, in full or
-- cut off.
use mathlib.Core.Path.{subst}
use syncat.Prelude.{
  leb, Bool-cases, length, take, drop, All, Bytes, find, ℕ, zero, suc, ◌+◌, ◌-◌, ◌≤◌, ◌<◌, ◌≡◌,
  refl, sym, ap, ◌∙◌, ◌⊎◌, inl, inr, true, false, none, List, [], ◌∷◌, ◌++◌, arith, bytes_key,
}
use syncat.Vector.{u64_mod}
use syncat.Reconcile.Pass.{IgnoreFunc}
use syncat.Wire.{Message, index_delta_batch}
use syncat.Index.{high_seq, oldest_journal_seq, journal_after, JournalRow, ShareStore}
use syncat.Index.Batches.{concat, take-drop, append_assoc, concat-append}
use syncat.Index.Answer.{
  can_answer_with_deltas, journal_page_size, delta_frames, after_deltas, send_journal_deltas,
  send_snapshot, answer_sync_request, Encoding, DeltaOutcome, AnswerOutcome, delivered, has_ignored,
  delta_too_big, out_of_rounds, answered,
}
use syncat.Index.Receive.{request_of, is_current, receive_all, PeerIndex}
use syncat.Index.Deltas.{delta_message}
use syncat.Index.Frames.{IsValid, receive_all-append, All-append}
use syncat.Index.Sent.{send_journal_deltas-IsSent, IsSent}
use syncat.Index.Rounds.{can_answer-covers}
use syncat.Index.Kept.{IsSynced}
use syncat.Index.Exchange.{deltas-IsSynced}
use syncat.Index.Parts.{take-front, take-all}
use syncat.Index.Dropped.{Leaves, any_deltas-IsSynced}
use syncat.Index.Cut.{entire-IsSynced, snapshot-IsSynced, IsCurrent}

take-delta_frames :
    (share epoch : Bytes) (k : ℕ) (bs : List (List JournalRow))
    → take k (delta_frames share epoch bs) ≡ delta_frames share epoch (take k bs)
unfolding delta_frames
take-delta_frames share epoch zero bs = refl
take-delta_frames share epoch (suc k) [] = refl
take-delta_frames share epoch (suc k) (b ∷ bs) =
    ap (◌∷◌ (index_delta_batch (delta_message share epoch b))) (take-delta_frames share epoch k bs)

take-beyond :
    {A : Type 0} (k : ℕ) (xs ys : List A)
    → length xs ≤ k
    → take k (xs ++ ys) ≡ xs ++ take (k - length xs) ys
take-beyond zero [] ys h = refl
take-beyond zero (x ∷ xs) ys h = absurd (omega (arith, h))
take-beyond (suc k) [] ys h = let same : suc k ≡ suc k - 0 = omega arith in ap (λ n. take n ys) same
take-beyond (suc k) (x ∷ xs) ys h =
    let same : k - length xs ≡ suc k - suc (length xs) = omega arith in
    ap (◌∷◌ x) (take-beyond k xs ys (omega (arith, h)) ∙ ap (λ n. xs ++ take n ys) same)

module _ (ignore : IgnoreFunc) (share id : Bytes) (enc : Encoding) (s : ShareStore) (w : PeerIndex)
    (h : IsSynced ignore s w) (small : s.next_seq < u64_mod)
    (fresh : find w.staging id ≡ none) where
  -- The tail of the journal that the cursor asks for.
  abbrev asked : List JournalRow
  asked = journal_after w.cursor.applied_seq s.journal

  deltas_cut :
      (k : ℕ) (a : List Message × DeltaOutcome)
      → (w.cursor.epoch ≡ s.epoch)
      → h.start ≤ w.cursor.applied_seq + 1
      → w.cursor.applied_seq + 1 ≤ s.next_seq
      → IsSent share s.epoch asked a
      → Leaves ignore share s small w (receive_all (take k a.0) w)
  deltas_cut k a same covers room sent =
      let cut = ap (take k) sent.frames ∙ take-delta_frames share s.epoch k sent.batches in
      let front : asked
          ≡ concat (take k sent.batches) ++ (concat (drop k sent.batches) ++ sent.rest) =
        sent.split
        ∙ ap (λ bs. concat bs ++ sent.rest) (sym (take-drop k sent.batches))
        ∙ ap (λ js. js ++ sent.rest) (concat-append (take k sent.batches) (drop k sent.batches))
        ∙ append_assoc (concat (take k sent.batches)) (concat (drop k sent.batches)) sent.rest in
      subst (λ ms. Leaves ignore share s small w (receive_all ms w)) (sym cut)
        (any_deltas-IsSynced ignore share s small (take k sent.batches)
          (concat (drop k sent.batches) ++ sent.rest) w h same covers room front)

  -- All the deltas: what `deltas-IsSynced` says of them.
  deltas_taken :
      (a : List Message × DeltaOutcome)
      → (w.cursor.epoch ≡ s.epoch)
      → h.start ≤ w.cursor.applied_seq + 1
      → w.cursor.applied_seq + 1 ≤ s.next_seq
      → IsSent share s.epoch asked a
      → All IsValid a.0
      → let v = receive_all a.0 w in
        IsSynced ignore s v × (v.staging ≡ w.staging) × (a.1 ≡ delivered → IsCurrent s v)
  deltas_taken a same covers room sent valid =
      let ((synced, _), epoch, staging, done, _, _, _) =
        deltas-IsSynced ignore share s sent.batches sent.rest w h small same covers room sent.split
          (subst (All IsValid) sent.frames valid) in
      rw (sent.frames) (
        synced,
        staging,
        λ delivers. record { epoch = epoch; applied_seq = done (sent.whole delivers) },
      )

  after_deltas_cut :
      is_current w.snapshot id ≡ false
      → (k : ℕ) (a : List Message × DeltaOutcome) → (w.cursor.epoch ≡ s.epoch)
      → h.start ≤ w.cursor.applied_seq + 1
      → w.cursor.applied_seq + 1 ≤ s.next_seq
      → IsSent share s.epoch asked a
      → IsSynced ignore s
          (receive_all (take k (after_deltas a (send_snapshot share ignore enc id s)).0) w)
  after_deltas_cut apart k (frames, delivered) same covers room sent =
      (deltas_cut k (frames, delivered) same covers room sent).0
  after_deltas_cut apart k (frames, delta_too_big) same covers room sent =
      (deltas_cut k (frames, delta_too_big) same covers room sent).0
  after_deltas_cut apart k (frames, out_of_rounds) same covers room sent =
      (deltas_cut k (frames, out_of_rounds) same covers room sent).0
  after_deltas_cut apart k (frames, has_ignored) same covers room sent =
      let snapshot = (send_snapshot share ignore enc id s).0 in
      elim (Bool-cases (leb k (length frames))) [
        | inl short ↦
            let cut = take-front k frames snapshot (ground (arith, short)) in
            subst (λ ms. IsSynced ignore s (receive_all ms w)) (sym cut)
              (deltas_cut k (frames, has_ignored) same covers room sent).0
        | inr long ↦
            let cut = take-beyond k frames snapshot (ground (arith, long)) in
            let all = take-all (length frames) frames (omega arith) in
            let (synced, staging, current) =
              subst (λ ms. Leaves ignore share s small w (receive_all ms w)) all
                (deltas_cut (length frames) (frames, has_ignored) same covers room sent) in
            let rest = take (k - length frames) snapshot in
            subst (λ ms. IsSynced ignore s (receive_all ms w)) (sym cut)
              (subst (IsSynced ignore s) (sym (receive_all-append frames rest w)) (
                snapshot-IsSynced ignore share id enc s (k - length frames) (receive_all frames w)
                  (ap (λ t. find t id) staging ∙ fresh) (ap (λ o. is_current o id) current ∙ apart)
                  synced))
      ]

  -- A whole answer by deltas, with the snapshot that may follow.
  after_deltas_whole :
      (a : List Message × DeltaOutcome)
      → (w.cursor.epoch ≡ s.epoch)
      → h.start ≤ w.cursor.applied_seq + 1
      → w.cursor.applied_seq + 1 ≤ s.next_seq
      → IsSent share s.epoch asked a
      → (after_deltas a (send_snapshot share ignore enc id s)).1 ≡ answered
      → All IsValid (after_deltas a (send_snapshot share ignore enc id s)).0
      → let v = receive_all (after_deltas a (send_snapshot share ignore enc id s)).0 w in
        IsSynced ignore s v × IsCurrent s v
  after_deltas_whole (frames, delivered) same covers room sent done valid =
      let (synced, _, current) = deltas_taken (frames, delivered) same covers room sent valid in
      (synced, current refl)
  after_deltas_whole (frames, delta_too_big) same covers room sent done valid = cc
  after_deltas_whole (frames, out_of_rounds) same covers room sent done valid = cc
  after_deltas_whole (frames, has_ignored) same covers room sent done valid =
      let snapshot = (send_snapshot share ignore enc id s).0 in
      let (valid_frames, valid_snapshot) = All-append IsValid frames snapshot valid in
      let (synced, staging, _) =
        deltas_taken (frames, has_ignored) same covers room sent valid_frames in
      rw (receive_all-append frames snapshot w) (
        entire-IsSynced ignore share id enc s (receive_all frames w)
          (ap (λ t. find t id) staging ∙ fresh) synced done valid_snapshot)

  -- What the answer to the receiver's request is.
  abbrev answer : List Message × AnswerOutcome
  answer = answer_sync_request share ignore enc true id (request_of share w) s

  answer-cases :
      ((a : List Message × DeltaOutcome) × (w.cursor.epoch ≡ s.epoch)
        × (h.start ≤ w.cursor.applied_seq + 1)
        × (w.cursor.applied_seq + 1 ≤ s.next_seq)
        × IsSent share s.epoch asked a
        × (answer ≡ after_deltas a (send_snapshot share ignore enc id s)))
      ⊎ (answer ≡ send_snapshot share ignore enc id s)
  unfolding answer_sync_request
  answer-cases =
      let req = request_of share w in
      let can = can_answer_with_deltas req s.epoch (high_seq s) (oldest_journal_seq s.journal) in
      let a =
        send_journal_deltas share ignore enc (length s.journal + 1) journal_page_size s
          w.cursor.applied_seq in
      elim (Bool-cases can) [
        | inl e ↦
            let (same, from, to) = can_answer-covers req h.start s h.journal e in
            inl (
              a,
              same,
              from,
              to,
              send_journal_deltas-IsSent share ignore enc s h.start journal_page_size
                  (length s.journal + 1) w.cursor.applied_seq h.journal.runs from to (omega arith),
              rw e refl,
            )
        | inr e ↦ inr (rw e refl)
      ]

  -- The first frames of an answer, of which some may not be valid.
  pub exchange-IsSynced :
      is_current w.snapshot id ≡ false
      → (k : ℕ) → IsSynced ignore s (receive_all (take k answer.0) w)
  exchange-IsSynced apart k = elim answer-cases [
    | inl (a, same, from, to, sent, e) ↦
        let frames = ap (λ (r : List Message × AnswerOutcome). take k r.0) e in
        subst (λ ms. IsSynced ignore s (receive_all ms w)) (sym frames)
          (after_deltas_cut apart k a same from to sent)
    | inr e ↦
        let frames = ap (λ (r : List Message × AnswerOutcome). take k r.0) e in
        subst (λ ms. IsSynced ignore s (receive_all ms w)) (sym frames)
          (snapshot-IsSynced ignore share id enc s k w fresh apart h)
  ]

  -- A whole answer.
  pub exchange-IsCurrent :
      answer.1 ≡ answered
      → All IsValid answer.0
      → IsSynced ignore s (receive_all answer.0 w) × IsCurrent s (receive_all answer.0 w)
  exchange-IsCurrent done valid = elim answer-cases [
    | inl (a, same, from, to, sent, e) ↦ rw (e) (
        after_deltas_whole a same from to sent (subst (λ r. r.1 ≡ answered) e done)
          (subst (λ r. All IsValid r.0) e valid))
    | inr e ↦ rw (e) (
        entire-IsSynced ignore share id enc s w fresh h (subst (λ r. r.1 ≡ answered) e done)
          (subst (λ r. All IsValid r.0) e valid))
  ]
