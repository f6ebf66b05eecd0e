-- ===== src/Index/Kept.antt =====
-- A peer whose cursor stands in the sender's epoch knows every visible row that is not journalled
-- after the cursor, provided that the journal still reaches back to it. The sender's own operations
-- keep this.
use mathlib.Core.Path.{subst}
use syncat.Prelude.{
  ltb, Bool-cases, length, Bytes, bytes_eq, Dict, find-insert, ℤ, ℕ, ◌+◌, ◌≤◌, ◌≡◌, refl, sym, ap,
  ◌∙◌, inl, inr, true, false, none, some, List, [], ◌∷◌, ◌++◌, arith, bytes_key,
}
use syncat.Reconcile.{FileInfo}
use syncat.Reconcile.Pass.{IgnoreFunc}
use syncat.Index.{
  put_file_and_journal, put_all, park, park_all, apply_scan_result, prune_journal, journal_after,
  rows_of, FileEntry, JournalRow, ShareStore, ScanResult,
}
use syncat.Index.Receive.{PeerIndex}
use syncat.Index.Latest.{latest}
use syncat.Index.Journal.{
  RunsFrom, NotAfter, RunsFrom-split, latest-put, put_file_and_journal-IsJournal, IsJournal,
}
use syncat.Index.Parked.{find-unpark, park-journal, park-IsJournal}
use syncat.Index.Changes.{NotAfter-put, prune_journal-IsJournal}
use syncat.Index.Fresh.{journal_after-append, journal_after-below, IsVisible, Tells}

-- What a peer's mirror owes to the sender's index while their epochs agree.
abbrev pub IsKnown : IgnoreFunc → ℕ → ShareStore → PeerIndex → Type 0
IsKnown ignore start s w =
    (w.cursor.applied_seq + 1 ≤ s.next_seq)
    × (start ≤ w.cursor.applied_seq + 1
        → Tells ignore s.files (journal_after w.cursor.applied_seq s.journal) w.mirror)

pub record IsSynced (ignore : IgnoreFunc) (s : ShareStore) (w : PeerIndex) : Type 0 where
  pub start : ℕ
  pub journal : IsJournal start s
  pub known : w.cursor.epoch ≡ s.epoch → IsKnown ignore start s w

module _ (ignore : IgnoreFunc) where
  put-Tells :
      (now : ℤ) (row : FileInfo) (s : ShareStore) (a : ℕ) (mirror : Dict Bytes FileInfo)
      → a + 1 ≤ s.next_seq
      → Tells ignore s.files (journal_after a s.journal) mirror
      → let t = put_file_and_journal now row s in
        Tells ignore t.files (journal_after a t.journal) mirror
  unfolding put_file_and_journal journal_after
  put-Tells now row s a mirror room tells p e there visible quiet =
      let k : JournalRow = record { seq = s.next_seq; row = row; created_at = now } in
      let entry : FileEntry = record { info = row; ignored = false } in
      let new : ltb a s.next_seq ≡ true = ground (arith, room) in
      let rows : journal_after a (s.journal ++ k ∷ []) ≡ journal_after a s.journal ++ k ∷ [] =
        journal_after-append a s.journal (k ∷ [])
        ∙ ap (λ js. journal_after a s.journal ++ js) (rw new refl) in
      let last = latest-put p k (journal_after a s.journal) in
      let quiet_rows : latest p (rows_of (journal_after a s.journal ++ k ∷ [])) ≡ none =
        ap (λ js. latest p (rows_of js)) (sym rows) ∙ quiet in
      let found = find-insert row.rel_path p entry s.files in
      elim (Bool-cases (bytes_eq row.rel_path p)) [
        | inl same ↦ ground (arith, last, same, quiet_rows)
        | inr other ↦
            tells p e (ground (arith, found, other, there)) visible
              (ground (arith, last, other, quiet_rows))
      ]

  pub put-IsSynced :
      (now : ℤ) (row : FileInfo) (s : ShareStore) (w : PeerIndex)
      → NotAfter now s.journal
      → IsSynced ignore s w
      → IsSynced ignore (put_file_and_journal now row s) w
  put-IsSynced now row s w late h = record {
    start = h.start;
    journal = put_file_and_journal-IsJournal h.start now row s late h.journal;
    known = λ same.
        let (room, tells) = h.known (unfold put_file_and_journal in same) in
        (
          unfold put_file_and_journal in omega (arith, room),
          λ covers. put-Tells now row s w.cursor.applied_seq w.mirror room (tells covers),
        );
  }

  pub park-IsSynced :
      (q : Bytes) (s : ShareStore) (w : PeerIndex)
      → IsSynced ignore s w
      → IsSynced ignore (park q s) w
  park-IsSynced q s w h =
      let (journal, next, epoch) = park-journal q s in
      record {
        start = h.start;
        journal = park-IsJournal h.start q s h.journal;
        known = λ same.
            let (room, tells) = h.known (same ∙ epoch) in
            (
              rw next room,
              λ covers p f there visible quiet.
                  let (e, was, info, unparked) = find-unpark q p s f there in
                  let is_e = unparked visible.0 in
                  tells covers p e was (subst (IsVisible ignore) (sym is_e) visible) (
                    ap (λ js. latest p (rows_of (journal_after w.cursor.applied_seq js)))
                      (sym journal)
                    ∙ quiet)
                  ∙ ap some (sym info),
            );
      }

  pub prune-IsSynced :
      (before : ℤ) (s : ShareStore) (w : PeerIndex)
      → IsSynced ignore s w
      → IsSynced ignore (record s { journal = prune_journal before s.journal }) w
  prune-IsSynced before s w h =
      let (gone, e, kept) = prune_journal-IsJournal h.start before s h.journal in
      let rest = prune_journal before s.journal in
      let a = w.cursor.applied_seq in
      record {
        start = h.start + length gone;
        journal = kept;
        known = λ same.
            let (room, tells) = h.known same in
            (
              room,
              λ covers.
                  let runs =
                    RunsFrom-split h.start gone rest s.next_seq
                      (subst (λ js. RunsFrom h.start js s.next_seq) e h.journal.runs) in
                  let none_gone : journal_after a gone ≡ [] =
                    journal_after-below a h.start gone (h.start + length gone) runs.0 covers in
                  let same_rows : journal_after a s.journal ≡ journal_after a rest =
                    ap (journal_after a) e ∙ journal_after-append a gone rest ∙ rw none_gone refl in
                  subst (λ js. Tells ignore s.files js w.mirror) same_rows
                    (tells (omega (arith, covers))),
            );
      }

  put_all-IsSynced :
      (now : ℤ) (rows : List FileInfo) (s : ShareStore) (w : PeerIndex)
      → NotAfter now s.journal
      → IsSynced ignore s w
      → NotAfter now (put_all now rows s).journal × IsSynced ignore (put_all now rows s) w
  unfolding put_all
  put_all-IsSynced now [] s w late h = (late, h)
  put_all-IsSynced now (row ∷ rows) s w late h =
      put_all-IsSynced now rows (put_file_and_journal now row s) w (NotAfter-put now row s late)
        (put-IsSynced now row s w late h)

  park_all-IsSynced :
      (ps : List Bytes) (s : ShareStore) (w : PeerIndex)
      → IsSynced ignore s w
      → IsSynced ignore (park_all ps s) w
  unfolding park_all
  park_all-IsSynced [] s w h = h
  park_all-IsSynced (p ∷ ps) s w h = park_all-IsSynced ps (park p s) w (park-IsSynced p s w h)

  pub scan-IsSynced :
      (now : ℤ) (r : ScanResult) (s : ShareStore) (w : PeerIndex)
      → NotAfter now s.journal
      → IsSynced ignore s w
      → IsSynced ignore (apply_scan_result now r s) w
  unfolding apply_scan_result
  scan-IsSynced now r s w late h =
      let (late1, h1) = put_all-IsSynced now r.added s w late h in
      let s1 = put_all now r.added s in
      let (late2, h2) = put_all-IsSynced now r.content_changed s1 w late1 h1 in
      let s2 = put_all now r.content_changed s1 in
      let (late3, h3) = put_all-IsSynced now r.metadata_only s2 w late2 h2 in
      let s3 = put_all now r.metadata_only s2 in
      let (_, h4) = put_all-IsSynced now r.deleted s3 w late3 h3 in
      park_all-IsSynced r.ignored (put_all now r.deleted s3) w h4
