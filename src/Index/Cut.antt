-- ===== src/Index/Cut.antt =====
-- A snapshot of which the receiver takes the first frames before the connection is lost, and drops
-- those that are not valid.
use mathlib.Core.Path.{subst}
use syncat.Prelude.{
  leb, Bool-cases, Option-cases, length, take, length-append, All, Bytes, find, ℕ, zero, suc, ◌≤◌,
  ◌≡◌, refl, sym, ap, ◌∙◌, ◌≢◌, ◌⊎◌, inl, inr, true, false, Option, none, some, List, [], ◌∷◌, ◌++◌,
  arith, bytes_key,
}
use syncat.Reconcile.{FileInfo}
use syncat.Reconcile.Pass.{IgnoreFunc}
use syncat.Wire.{
  IndexSnapshotBegin, IndexSnapshotEnd, Message, index_snapshot_begin, index_snapshot_end,
}
use syncat.Wire.Check.{validate_message}
use syncat.Index.{high_seq, journal_after, ShareStore}
use syncat.Index.Batches.{cut_batches}
use syncat.Index.Blocked.{SomeInvalid, receive-invalid, counted_batches}
use syncat.Index.Dropped.{unbegun_batches, unbegun_end}
use syncat.Index.Answer.{
  snapshot_batch_len, snapshot_batch_frames, advertised, send_snapshot, Encoding, answered,
}
use syncat.Index.Receive.{
  is_current, finish_snapshot, on_snapshot_end, handle, receive, receive_all, PeerIndex,
}
use syncat.Index.Frames.{IsValid, receive-valid, receive_all-append}
use syncat.Index.Journal.{RunsFrom-le}
use syncat.Index.Fresh.{Tells}
use syncat.Index.Snapshot.{begun, named, snapshot_mirrors}
use syncat.Index.Kept.{IsSynced}
use syncat.Index.Exchange.{advertised-Tells}
use syncat.Index.Parts.{
  take-front, take-all, take-snapshot_batch_frames, begin_message, unended-IsSynced, Keeps, opening,
}

-- The receiver's cursor stands at the sender's newest row.
pub record IsCurrent (s : ShareStore) (w : PeerIndex) : Type 0 where
  pub epoch : w.cursor.epoch ≡ s.epoch
  pub applied_seq : w.cursor.applied_seq ≡ high_seq s

abbrev end_of : Bytes → Bytes → List (List FileInfo) → IndexSnapshotEnd
end_of share id bs = record { share_id = share; snapshot_id = id; batch_count = length bs }

abbrev end_message : Bytes → Bytes → List (List FileInfo) → Message
end_message share id bs = index_snapshot_end (end_of share id bs)

AllOrSome : (ms : List Message) → All IsValid ms ⊎ SomeInvalid ms
AllOrSome [] = inl tt
AllOrSome (m ∷ ms) = elim (Option-cases (validate_message m)) [
  | inr (e, bad) ↦ inr (inl (λ valid. cc))
  | inl valid ↦ elim (AllOrSome ms) [ inl rest ↦ inl (valid, rest) | inr bad ↦ inr (inr bad) ]
]

All-snoc :
    (ms : List Message) (m : Message) → All IsValid ms → IsValid m → All IsValid (ms ++ m ∷ [])
All-snoc [] m h v = (v, tt)
All-snoc (x ∷ ms) m h v = (h.0, All-snoc ms m h.1 v)

Keeps-IsSynced :
    (ignore : IgnoreFunc) (s : ShareStore) (u v : PeerIndex)
    → Keeps u v
    → IsSynced ignore s u
    → IsSynced ignore s v
Keeps-IsSynced ignore s u v k h = record {
  start = h.start;
  journal = h.journal;
  known = λ same.
      let (room, tells) = h.known (sym k.epoch ∙ same) in
      rw (k.applied_seq, k.mirror) (room, tells);
}

finish-Keeps :
    (o : Option IndexSnapshotBegin) (d : IndexSnapshotEnd) (u : PeerIndex)
    → u.cursor.snapshot_batch ≢ d.batch_count
    → Keeps u (finish_snapshot o d u).0
finish-Keeps none d u short = record { mirror = refl; epoch = refl; applied_seq = refl }
finish-Keeps (some b) d u short = record {
  mirror = ground (arith, short);
  epoch = ground (arith, short);
  applied_seq = ground (arith, short);
}

-- The end of a snapshot of which a batch was dropped.
late_end :
    (share id : Bytes) (s : ShareStore) (bs : List (List FileInfo)) (w : PeerIndex)
    → IsValid (index_snapshot_begin (begin_message share id s))
    → SomeInvalid (snapshot_batch_frames share id 0 bs)
    → let u = receive_all (opening share id s bs) w in
      Keeps u (receive true (end_message share id bs) u).0
unfolding receive_all handle on_snapshot_end
late_end share id s bs w begins bad =
    let b = begin_message share id s in
    let first = (receive true (index_snapshot_begin b) w).0 in
    let started : first ≡ _ =
      ap (λ r. r.0) (receive-valid (index_snapshot_begin b) w begins)
      ∙ begun b w (named b begins) in
    let count : first.cursor.snapshot_batch ≡ 0 = ap (λ v. v.cursor.snapshot_batch) started in
    let (_, _, _, strict) = counted_batches share id 0 bs first (omega (arith, count)) in
    let less = strict (inl bad) in
    let u = receive_all (opening share id s bs) w in
    let end = end_message share id bs in
    elim (Option-cases (validate_message end)) [
      | inl valid ↦
          rw (receive-valid end u valid)
            (finish-Keeps u.snapshot (end_of share id bs) u (λ e. omega (arith, e, less)))
      | inr (e, refused) ↦
          rw (receive-invalid end u (λ valid. cc))
            (record { mirror = refl; epoch = refl; applied_seq = refl })
    ]

-- A snapshot is an opening and an end, or breaks off before its end.
send_snapshot-shape :
    (share : Bytes) (ignore : IgnoreFunc) (enc : Encoding) (id : Bytes) (s : ShareStore)
    → ((bs : List (List FileInfo)) × ((send_snapshot share ignore enc id s).0
          ≡ opening share id s bs))
      ⊎ ((bs : List (List FileInfo)) × ((send_snapshot share ignore enc id s).0
            ≡ opening share id s bs ++ end_message share id bs ∷ [])
          × ((send_snapshot share ignore enc id s).1 ≡ answered))
unfolding send_snapshot
send_snapshot-shape share ignore enc id s =
    let rows = advertised ignore s in
    let cut = cut_batches (length rows) (snapshot_batch_len enc) 0 rows in
    elim (Bool-cases cut.1) [
      | inl e ↦ inr (cut.0, rw e refl, rw e refl)
      | inr e ↦ inl (cut.0, rw e refl)
    ]

module _ (ignore : IgnoreFunc) (share id : Bytes) (enc : Encoding) (s : ShareStore) where
  -- A begin, valid or not, and some batches.
  opening-IsSynced :
      (bs : List (List FileInfo)) (w : PeerIndex)
      → IsSynced ignore s w
      → is_current w.snapshot id ≡ false
      → IsSynced ignore s (receive_all (opening share id s bs) w)
  unfolding receive_all
  opening-IsSynced bs w h apart =
      let b = index_snapshot_begin (begin_message share id s) in
      elim (Option-cases (validate_message b)) [
        | inl valid ↦ unended-IsSynced ignore share id s bs w h valid
        | inr (e, bad) ↦
            let dropped : (receive true b w).0 ≡ w =
              ap (λ r. r.0) (receive-invalid b w (λ valid. cc)) in
            subst (λ u. IsSynced ignore s (receive_all (snapshot_batch_frames share id 0 bs) u))
              (sym dropped)
              (subst (IsSynced ignore s) (sym (unbegun_batches share id 0 bs w apart)) h)
      ]

  front-IsSynced :
      (k : ℕ) (bs : List (List FileInfo)) (w : PeerIndex)
      → IsSynced ignore s w
      → is_current w.snapshot id ≡ false
      → IsSynced ignore s (receive_all (take k (opening share id s bs)) w)
  unfolding receive_all
  front-IsSynced zero bs w h apart = h
  front-IsSynced (suc k) bs w h apart =
      let b = index_snapshot_begin (begin_message share id s) in
      let same = ap (◌∷◌ b) (sym (take-snapshot_batch_frames share id k 0 bs)) in
      subst (λ ms. IsSynced ignore s (receive_all ms w)) same
        (opening-IsSynced (take k bs) w h apart)

  -- A snapshot that arrives whole.
  pub entire-IsSynced :
      (w : PeerIndex)
      → find w.staging id ≡ none
      → IsSynced ignore s w
      → (send_snapshot share ignore enc id s).1 ≡ answered
      → All IsValid (send_snapshot share ignore enc id s).0
      → let v = receive_all (send_snapshot share ignore enc id s).0 w in
        IsSynced ignore s v × IsCurrent s v
  entire-IsSynced w fresh h done valid =
      let (mirror, epoch, seq) = snapshot_mirrors share ignore enc id s w fresh done valid in
      let v = receive_all (send_snapshot share ignore enc id s).0 w in
      let one = h.journal.positive in
      let some_row = RunsFrom-le h.start s.journal s.next_seq h.journal.runs in
      (
        record {
          start = h.start;
          journal = h.journal;
          known = λ _. (
            omega (arith, seq, one, some_row),
            λ _.
                subst (Tells ignore s.files (journal_after v.cursor.applied_seq s.journal))
                  (sym mirror)
                  (advertised-Tells ignore h.start s (journal_after v.cursor.applied_seq s.journal)
                    h.journal),
          );
        },
        record { epoch = epoch; applied_seq = seq },
      )

  -- A snapshot that arrives whole, of frames that may not be valid.
  closed-IsSynced :
      (bs : List (List FileInfo)) (w : PeerIndex)
      → find w.staging id ≡ none
      → is_current w.snapshot id ≡ false
      → IsSynced ignore s w
      → let end = end_message share id bs in
        (send_snapshot share ignore enc id s).0 ≡ opening share id s bs ++ end ∷ []
        → (send_snapshot share ignore enc id s).1 ≡ answered
        → IsSynced ignore s (receive_all (opening share id s bs ++ end ∷ []) w)
  unfolding receive_all
  closed-IsSynced bs w fresh apart h same done =
      let b = index_snapshot_begin (begin_message share id s) in
      let end = end_message share id bs in
      let batches = snapshot_batch_frames share id 0 bs in
      let u = receive_all (opening share id s bs) w in
      let synced = opening-IsSynced bs w h apart in
      subst (IsSynced ignore s) (sym (receive_all-append (opening share id s bs) (end ∷ []) w))
        (elim (Option-cases (validate_message b)) [
          | inr (e, bad) ↦
              let dropped : (receive true b w).0 ≡ w =
                ap (λ r. r.0) (receive-invalid b w (λ valid. cc)) in
              let unbegun : u ≡ w =
                ap (receive_all batches) dropped ∙ unbegun_batches share id 0 bs w apart in
              let d = end_of share id bs in
              subst (IsSynced ignore s)
                (sym (ap (λ v. (receive true end v).0) unbegun ∙ unbegun_end d w apart)) h
          | inl begins ↦ elim (AllOrSome batches) [
            | inr bad ↦
                (Keeps-IsSynced ignore s u (receive true end u).0
                  (late_end share id s bs w begins bad) synced)
            | inl good ↦ elim (Option-cases (validate_message end)) [
              | inr (e, bad) ↦
                  subst (IsSynced ignore s)
                    (sym (ap (λ r. r.0) (receive-invalid end u (λ valid. cc)))) synced
              | inl ends ↦
                  let all_valid = All-snoc (opening share id s bs) end (begins, good) ends in
                  subst (IsSynced ignore s)
                    (receive_all-append (opening share id s bs) (end ∷ []) w)
                    (subst (λ ms. IsSynced ignore s (receive_all ms w)) same
                      (entire-IsSynced w fresh h done (subst (All IsValid) (sym same) all_valid)).0)
            ]
          ]
        ])

  -- The first frames of a snapshot, of which some may not be valid.
  pub snapshot-IsSynced :
      (k : ℕ) (w : PeerIndex)
      → find w.staging id ≡ none
      → is_current w.snapshot id ≡ false
      → IsSynced ignore s w
      → IsSynced ignore s (receive_all (take k (send_snapshot share ignore enc id s).0) w)
  snapshot-IsSynced k w fresh apart h =
      let frames = (send_snapshot share ignore enc id s).0 in
      elim (send_snapshot-shape share ignore enc id s) [
        | inl (bs, same) ↦
            subst (λ ms. IsSynced ignore s (receive_all (take k ms) w)) (sym same)
              (front-IsSynced k bs w h apart)
        | inr (bs, same, done) ↦
            let end = end_message share id bs in
            elim (Bool-cases (leb k (length (opening share id s bs)))) [
              | inl short ↦
                  let cut =
                    ap (take k) same
                    ∙ take-front k (opening share id s bs) (end ∷ []) (ground (arith, short)) in
                  subst (λ ms. IsSynced ignore s (receive_all ms w)) (sym cut)
                    (front-IsSynced k bs w h apart)
              | inr long ↦
                  let long_enough : length frames ≤ k = ground (
                    arith,
                    long,
                    ap length same,
                    length-append (opening share id s bs) (end ∷ []),
                  ) in
                  let all = take-all k frames long_enough in
                  subst (λ ms. IsSynced ignore s (receive_all ms w)) (sym (all ∙ same))
                    (closed-IsSynced bs w fresh apart h same done)
            ]
      ]
