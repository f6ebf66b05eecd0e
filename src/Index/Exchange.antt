-- ===== src/Index/Exchange.antt =====
-- What the frames of an answer, or the first few of them, do to a receiver whose mirror is known to
-- the sender's index.
use mathlib.Core.Path.{subst}
use syncat.Prelude.{
  if◌then◌else◌, Bool-cases, Option-cases, length, All, Bytes, bytes_eq, bytes_lt, bytes_eq_iff,
  Dict, find, has, IsMap, ℕ, ◌+◌, ◌-◌, ◌≤◌, ◌<◌, ◌≡◌, refl, sym, ap, ◌∙◌, ◌⊎◌, inl, inr, true,
  false, Option, none, some, List, [], ◌∷◌, ◌++◌, arith, bytes_key,
}
use syncat.Vector.{u64_mod}
use syncat.Reconcile.{FileInfo}
use syncat.Reconcile.Pass.{index_onto, index_by_path, IgnoreFunc, is_ignored}
use syncat.Index.{
  high_seq, journal_after, insert_by_path, list_share, is_dir, filter_ignored_rows, rows_of,
  FileEntry, JournalRow, ShareStore,
}
use syncat.Index.Batches.{concat}
use syncat.Index.Answer.{last_seq, delta_frames, advertised}
use syncat.Index.Receive.{receive_all, PeerIndex}
use syncat.Index.Frames.{IsValid}
use syncat.Index.Latest.{or_else, latest, find-index_onto}
use syncat.Index.Journal.{RunsFrom, IsKeyed, RunsFrom-le, RunsFrom-split, IsJournal}
use syncat.Index.Fresh.{journal_after-split, IsVisible, Tells, Tells-advance}
use syncat.Index.Deltas.{advance, after_deltas_lem}
use syncat.Index.Sent.{last_seq-page, next_page}
use syncat.Index.Kept.{IsSynced}

or_else-none : (o : Option FileInfo) → or_else o none ≡ o
or_else-none none = refl
or_else-none (some x) = refl

module _ (ignore : IgnoreFunc) (p : Bytes) where
  -- What the rows that the ignore rules leave say of `p`.
  abbrev shown : List FileInfo → Option FileInfo
  shown rows = latest p (filter_ignored_rows ignore rows)

  shown-cons :
      (x : FileInfo) (rows more : List FileInfo)
      → shown rows ≡ shown more
      → shown (x ∷ rows) ≡ shown (x ∷ more)
  unfolding filter_ignored_rows
  shown-cons x rows more same = elim (Bool-cases (is_ignored ignore x.rel_path (is_dir x))) [
    | inl filtered ↦ rw (filtered) same
    | inr kept ↦
        rw (kept) (ap (λ o. or_else o (if bytes_eq x.rel_path p then some x else none)) same)
  ]

  -- A row that is filtered out, or is of another path.
  abbrev IsSilent : FileInfo → Type 0
  IsSilent r = (is_ignored ignore r.rel_path (is_dir r) ≡ true) ⊎ (bytes_eq r.rel_path p ≡ false)

  shown-IsSilent :
      (r : FileInfo) (rows : List FileInfo) → IsSilent r → shown (r ∷ rows) ≡ shown rows
  unfolding filter_ignored_rows
  shown-IsSilent r rows (inl filtered) = rw filtered refl
  shown-IsSilent r rows (inr off) = elim (Bool-cases (is_ignored ignore r.rel_path (is_dir r))) [
    | inl filtered ↦ rw filtered refl
    | inr kept ↦ rw (kept, off) (or_else-none (shown rows))
  ]

  shown-insert_by_path-IsSilent :
      (r : FileInfo) (rows : List FileInfo)
      → IsSilent r
      → shown (insert_by_path r rows) ≡ shown rows
  unfolding insert_by_path
  shown-insert_by_path-IsSilent r [] silent = shown-IsSilent r [] silent
  shown-insert_by_path-IsSilent r (x ∷ rows) silent =
      elim (Bool-cases (bytes_lt x.rel_path r.rel_path)) [
        | inl before ↦ rw (before) (
            shown-cons x (insert_by_path r rows) rows (shown-insert_by_path-IsSilent r rows silent))
        | inr after ↦ rw (after) (shown-IsSilent r (x ∷ rows) silent)
      ]

  shown-none :
      (x : FileInfo) (rows : List FileInfo)
      → shown (x ∷ rows) ≡ none
      → IsSilent x × (shown rows ≡ none)
  unfolding filter_ignored_rows
  shown-none x rows h = elim (Bool-cases (is_ignored ignore x.rel_path (is_dir x))) [
    | inl filtered ↦ (inl filtered, ground (arith, h, filtered))
    | inr kept ↦ elim (Option-cases (shown rows)) [
      | inr (y, there) ↦ ground (arith, h, kept, there)
      | inl nothing_there ↦ (inr (ground (arith, h, kept, nothing_there)), nothing_there)
    ]
  ]

  shown-insert_by_path :
      (r : FileInfo) (rows : List FileInfo)
      → is_ignored ignore r.rel_path (is_dir r) ≡ false
      → bytes_eq r.rel_path p ≡ true
      → shown rows ≡ none
      → shown (insert_by_path r rows) ≡ some r
  unfolding insert_by_path filter_ignored_rows
  shown-insert_by_path r [] kept here clear = rw (kept, here) refl
  shown-insert_by_path r (x ∷ rows) kept here clear =
      let (silent, later) = shown-none x rows clear in
      elim (Bool-cases (bytes_lt x.rel_path r.rel_path)) [
        | inl before ↦ rw (before) (
            shown-IsSilent x (insert_by_path r rows) silent
            ∙ shown-insert_by_path r rows kept here later)
        | inr after ↦
            rw (after, kept)
              (ap (λ o. or_else o (if bytes_eq r.rel_path p then some r else none)) clear
                ∙ rw here refl)
      ]

  -- A visible row is advertised.
  latest-unlisted :
      (files : Dict Bytes FileEntry)
      → IsKeyed files
      → has files p ≡ false
      → latest p (filter_ignored_rows ignore (list_share files)) ≡ none
  unfolding has list_share filter_ignored_rows
  latest-unlisted [] keyed h = refl
  latest-unlisted ((q, e) ∷ files) keyed h =
      let off : bytes_eq e.info.rel_path p ≡ false = ground (arith, h, keyed.0) in
      let ih = latest-unlisted files keyed.1 (ground (arith, h)) in
      elim (Bool-cases e.ignored) [
        | inl parked ↦ rw parked ih
        | inr listed ↦
            rw (listed) (shown-insert_by_path-IsSilent e.info (list_share files) (inr off) ∙ ih)
      ]

  latest-advertised :
      (e : FileEntry) (files : Dict Bytes FileEntry)
      → IsMap files
      → IsKeyed files
      → find files p ≡ some e
      → IsVisible ignore e
      → latest p (filter_ignored_rows ignore (list_share files)) ≡ some e.info
  unfolding find list_share
  latest-advertised e [] keys keyed there visible = cc
  latest-advertised e ((q, f) ∷ files) keys keyed there visible = elim (Bool-cases (bytes_eq q p)) [
    | inl same ↦
        let is_e : f ≡ e = ground (arith, there, same) in
        let open_f : IsVisible ignore f = subst (IsVisible ignore) (sym is_e) visible in
        let here : bytes_eq f.info.rel_path p ≡ true = ground (arith, same, keyed.0) in
        let gone : has files p ≡ false = ground (arith, same, keys.0, bytes_eq_iff q p) in
        let left = latest-unlisted files keyed.1 gone in
        rw (open_f.0) (
          shown-insert_by_path f.info (list_share files) open_f.1 here left
          ∙ ap some (ap (λ g. g.info) is_e))
    | inr off ↦
        let ih = latest-advertised e files keys.1 keyed.1 (ground (arith, there, off)) visible in
        let off_path : bytes_eq f.info.rel_path p ≡ false = ground (arith, off, keyed.0) in
        elim (Bool-cases f.ignored) [
          | inl parked ↦ rw parked ih
          | inr listed ↦
              rw (listed)
                (shown-insert_by_path-IsSilent f.info (list_share files) (inr off_path) ∙ ih)
        ]
  ]

-- A mirror of a snapshot is right about every visible path.
pub advertised-Tells :
    (ignore : IgnoreFunc) (n : ℕ) (s : ShareStore) (rows : List JournalRow)
    → IsJournal n s
    → Tells ignore s.files rows (index_by_path (advertised ignore s))
unfolding index_by_path find
advertised-Tells ignore n s rows h p e there visible quiet =
    let last = latest-advertised ignore p e s.files h.keys h.keyed there visible in
    find-index_onto p (advertised ignore s) [] ∙ rw last refl

module _ (ignore : IgnoreFunc) (share : Bytes) (s : ShareStore) where
  -- Delta frames of a front of the rows after the cursor.
  pub deltas-IsSynced :
      (bs : List (List JournalRow)) (left : List JournalRow) (w : PeerIndex)
      (h : IsSynced ignore s w)
      → s.next_seq < u64_mod
      → w.cursor.epoch ≡ s.epoch
      → h.start ≤ w.cursor.applied_seq + 1
      → w.cursor.applied_seq + 1 ≤ s.next_seq
      → journal_after w.cursor.applied_seq s.journal ≡ concat bs ++ left
      → All IsValid (delta_frames share s.epoch bs)
      → let v = receive_all (delta_frames share s.epoch bs) w in
        ((h' : IsSynced ignore s v) × (h'.start ≤ v.cursor.applied_seq + 1))
        × (v.cursor.epoch ≡ s.epoch)
        × (v.staging ≡ w.staging)
        × (left ≡ [] → v.cursor.applied_seq ≡ high_seq s)
        × (v.snapshot ≡ w.snapshot)
        × (journal_after v.cursor.applied_seq s.journal ≡ left)
        × (v.cursor.applied_seq + 1 ≤ s.next_seq)
  deltas-IsSynced bs left w h small same covers room front valid =
      let a = w.cursor.applied_seq in
      let end = a + 1 + length (concat bs) in
      let (gone, parts, run) =
        journal_after-split a h.start s.journal s.next_seq h.journal.runs covers room in
      let tail = subst (λ js. RunsFrom (a + 1) js s.next_seq) front run in
      let entire : s.journal ≡ gone ++ (concat bs ++ left) = parts ∙ ap (λ js. gone ++ js) front in
      let (page_run, rest_run) = RunsFrom-split (a + 1) (concat bs) left s.next_seq tail in
      let below = RunsFrom-le end left s.next_seq rest_run in
      let last = last_seq-page a (concat bs) end page_run in
      let (grown, _, later) =
        next_page a h.start s.journal gone (concat bs) left s.next_seq h.journal.runs entire tail in
      let moved : last_seq a (concat bs) ≡ end - 1 = omega (arith, last) in
      let taken =
        after_deltas_lem share s.epoch bs (a + 1) end w same refl page_run
          (omega (arith, below, small)) valid in
      let (_, tells) = h.known same in
      let told =
        Tells-advance ignore h.start s gone (concat bs) left w.mirror h.journal entire
          (subst (λ js. Tells ignore s.files js w.mirror) front (tells covers)) in
      let synced : IsSynced ignore s (advance (rows_of (concat bs)) (end - 1) w) = record {
        start = h.start;
        journal = h.journal;
        known = λ _. (
          omega (arith, below),
          λ _.
              subst (λ js. Tells ignore s.files js (index_onto w.mirror (rows_of (concat bs))))
                (sym later ∙ ap (λ k. journal_after k s.journal) moved) told,
        );
      } in
      rw (taken) (
        (synced, omega (arith, covers)),
        same,
        refl,
        λ none_left.
            let done : end ≡ s.next_seq =
              subst (λ js. RunsFrom end js s.next_seq) none_left rest_run in
            omega (arith, done),
        refl,
        ap (λ k. journal_after k s.journal) (sym moved) ∙ later,
        omega (arith, below),
      )
