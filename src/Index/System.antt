-- ===== src/Index/System.antt =====
-- A share and one peer that mirrors it: the steps of both, with exchanges that a lost connection may
-- cut off at any frame, and what holds after every run of them.
use syncat.Prelude.{
  Bool-cases, Option-cases, take, All, Bytes, bytes_eq, bytes_eq_iff, find, ℤ, ℕ, ◌<◌, ◌≡◌, sym, ap,
  ◌∙◌, ◌≢◌, inl, inr, true, false, none, some, List, [], ◌∷◌, arith, bytes_key,
}
use syncat.Vector.{u64_mod}
use syncat.Reconcile.{FileInfo}
use syncat.Reconcile.Pass.{IgnoreFunc}
use syncat.Wire.{IndexUpdate, index_update}
use syncat.Wire.Check.{validate_message}
use syncat.Index.{
  new_share, put_file_and_journal, apply_scan_result, prune_journal, FileEntry, ShareStore,
  ScanResult,
}
use syncat.Index.Answer.{answer_sync_request, Encoding}
use syncat.Index.Receive.{
  new_peer_index, request_of, is_current, handle_index_update, handle, receive, receive_all,
  PeerIndex,
}
use syncat.Index.Latest.{latest, find-index_onto}
use syncat.Index.Journal.{NotAfter, new_share-IsJournal}
use syncat.Index.Fresh.{IsVisible}
use syncat.Index.Kept.{put-IsSynced, prune-IsSynced, scan-IsSynced, IsSynced}
use syncat.Index.Answered.{exchange-IsSynced}

-- The row is the index's own row of its path.
abbrev pub IsPresent : ShareStore → FileInfo → Type 0
IsPresent s r = (e : FileEntry) × (find s.files r.rel_path ≡ some e) × (e.info ≡ r)

latest-present :
    (s : ShareStore) (p : Bytes) (rows : List FileInfo) (r : FileInfo)
    → All (IsPresent s) rows
    → latest p rows ≡ some r
    → (e : FileEntry) × (find s.files p ≡ some e) × (e.info ≡ r)
latest-present s p [] r present last = cc
latest-present s p (x ∷ rows) r present last = elim (Option-cases (latest p rows)) [
  | inr (y, there) ↦ latest-present s p rows r present.1 (there ∙ ground (arith, there, last))
  | inl none_later ↦ elim (Bool-cases (bytes_eq x.rel_path p)) [
    | inr other ↦ ground (arith, none_later, other, last)
    | inl same ↦
        let (e, found, info) = present.0 in
        let at_p = (bytes_eq_iff x.rel_path p).0 same in
        let is_r : x ≡ r = ground (arith, none_later, same, last) in
        (e, ap (find s.files) (sym at_p) ∙ found, info ∙ is_r)
  ]
]

update-IsSynced :
    (ignore : IgnoreFunc) (m : IndexUpdate) (s : ShareStore) (w : PeerIndex)
    → All (IsPresent s) m.files
    → IsSynced ignore s w
    → IsSynced ignore s (receive true (index_update m) w).0
unfolding receive handle handle_index_update
update-IsSynced ignore m s w present h = elim (Option-cases (validate_message (index_update m))) [
  | inr (e, bad) ↦ rw (bad, receive) h
  | inl valid ↦
      rw (valid, receive)
        (record {
          start = h.start;
          journal = h.journal;
          known = λ same.
              let (room, tells) = h.known same in
              (
                room,
                λ covers p e there visible quiet.
                    find-index_onto p m.files w.mirror ∙ elim (Option-cases (latest p m.files)) [
                      | inl unsaid ↦ rw unsaid (tells covers p e there visible quiet)
                      | inr (r, said) ↦
                          let (f, found, info) = latest-present s p m.files r present said in
                          let is_e : some f ≡ some e = sym found ∙ there in
                          rw said (ground (arith, is_e, info))
                    ],
              );
        })
]

module _ (ignore : IgnoreFunc) (share : Bytes) where
  -- An exchange answers the request for the cursor that the receiver has stored, under a new id. Of the
  -- first `k` frames of the answer the receiver drops those that are not valid.
  pub data Step : ShareStore → PeerIndex → ShareStore → PeerIndex → Type 0 where
    puts :
        {s : ShareStore} {w : PeerIndex} (now : ℤ) (row : FileInfo)
        → NotAfter now s.journal
        → Step s w (put_file_and_journal now row s) w
    scans :
        {s : ShareStore} {w : PeerIndex} (now : ℤ) (r : ScanResult)
        → NotAfter now s.journal
        → Step s w (apply_scan_result now r s) w
    prunes :
        {s : ShareStore} {w : PeerIndex} (before : ℤ)
        → Step s w (record s { journal = prune_journal before s.journal }) w
    -- The share is deleted and shared again, under another epoch.
    renews :
        {s : ShareStore} {w : PeerIndex} (epoch : Bytes)
        → w.cursor.epoch ≢ epoch
        → Step s w (new_share epoch) w
    -- An index update that a pass of the share sends after changing rows, taken in while the rows are
    -- still those of the index.
    updates :
        {s : ShareStore} {w : PeerIndex} (m : IndexUpdate)
        → All (IsPresent s) m.files
        → Step s w s (receive true (index_update m) w).0
    -- The session ends, and what it held in memory is gone.
    reconnects : {s : ShareStore} {w : PeerIndex} → Step s w s (record w { snapshot = none })
    exchanges :
        {s : ShareStore} {w : PeerIndex} (enc : Encoding) (id : Bytes) (k : ℕ)
        → s.next_seq < u64_mod
        → find w.staging id ≡ none
        → is_current w.snapshot id ≡ false
        → Step s w s (
            receive_all
              (take k (answer_sync_request share ignore enc true id (request_of share w) s).0)
              w)

  pub data Run : ShareStore → PeerIndex → Type 0 where
    starts : (epoch : Bytes) → Run (new_share epoch) new_peer_index
    continues : {s t : ShareStore} {v w : PeerIndex} → Run s v → Step s v t w → Run t w

  Step-IsSynced :
      {s t : ShareStore} {v w : PeerIndex}
      → Step s v t w
      → IsSynced ignore s v
      → IsSynced ignore t w
  Step-IsSynced (puts {s} {w} now row late) h = put-IsSynced ignore now row s w late h
  Step-IsSynced (scans {s} {w} now r late) h = scan-IsSynced ignore now r s w late h
  Step-IsSynced (prunes {s} {w} before) h = prune-IsSynced ignore before s w h
  Step-IsSynced (renews epoch other) h = record {
    start = 1;
    journal = new_share-IsJournal epoch;
    known = λ same. absurd (other same);
  }
  Step-IsSynced (updates {s} {w} m present) h = update-IsSynced ignore m s w present h
  Step-IsSynced reconnects h = record { start = h.start; journal = h.journal; known = h.known }
  Step-IsSynced (exchanges {s} {w} enc id k small fresh apart) h =
      exchange-IsSynced ignore share id enc s w h small fresh apart k

  -- In every run, while the receiver's cursor is in the share's epoch, it does not run ahead of the
  -- share, and the mirror is right about every visible row that is not journalled after it, as long
  -- as the journal still reaches back to it.
  pub Run-IsSynced : {s : ShareStore} {w : PeerIndex} → Run s w → IsSynced ignore s w
  Run-IsSynced (starts epoch) = record {
    start = 1;
    journal = new_share-IsJournal epoch;
    known = λ _. (omega arith, λ covers p e there. unfold find in cc);
  }
  Run-IsSynced (continues r step) = Step-IsSynced step (Run-IsSynced r)

  -- The mirror has every visible row, as it is in the index.
  abbrev pub Knows : ShareStore → PeerIndex → Type 0
  Knows s w =
      (p : Bytes) (e : FileEntry)
      → find s.files p ≡ some e
      → IsVisible ignore e
      → find w.mirror p ≡ some e.info
