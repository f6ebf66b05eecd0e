-- ===== src/Index/Changes.antt =====
-- What the store's operations do to the journal's agreement with the rows: parking, the result of a
-- scan, and pruning.
use mathlib.Core.Path.{subst}
use syncat.Prelude.{
  Bool-cases, length, Bytes, ℤ, int_lt, int_lt_irrefl, int_lt_mono, ℕ, ◌+◌, ◌≡◌, refl, sym, ap, ◌∙◌,
  inl, inr, false, some, List, [], ◌∷◌, ◌++◌, arith,
}
use syncat.Reconcile.{FileInfo}
use syncat.Index.Latest.{latest, latest-append}
use syncat.Index.Journal.{
  RunsFrom, NotAfter, NotBefore, Chronological, IsRooted, rows_of-append, RunsFrom-split,
  put_file_and_journal-IsJournal, IsJournal,
}
use syncat.Index.{
  put_file_and_journal, put_all, apply_scan_result, prune_journal, rows_of, JournalRow, ShareStore,
  ScanResult,
}
use syncat.Index.Parked.{park_all-IsJournal}

pub NotAfter-put :
    (now : ℤ) (row : FileInfo) (s : ShareStore)
    → NotAfter now s.journal
    → NotAfter now (put_file_and_journal now row s).journal
unfolding put_file_and_journal
NotAfter-put now row s h = go s.journal h
  where
    go :
        (js : List JournalRow)
        → NotAfter now js
        → NotAfter now (js ++ record { seq = s.next_seq; row = row; created_at = now } ∷ [])
    go [] h = (int_lt_irrefl now, tt)
    go (j ∷ js) h = (h.0, go js h.1)

pub put_all-IsJournal :
    (n : ℕ) (now : ℤ) (rows : List FileInfo) (s : ShareStore)
    → NotAfter now s.journal
    → IsJournal n s
    → NotAfter now (put_all now rows s).journal × IsJournal n (put_all now rows s)
unfolding put_all
put_all-IsJournal n now [] s late h = (late, h)
put_all-IsJournal n now (row ∷ rows) s late h =
    put_all-IsJournal n now rows (put_file_and_journal now row s) (NotAfter-put now row s late)
      (put_file_and_journal-IsJournal n now row s late h)

-- A scan's result, written at a time that the journal has not passed, keeps the journal's
-- numbering, its order in time and its agreement with the rows.
pub apply_scan_result-IsJournal :
    (n : ℕ) (now : ℤ) (r : ScanResult) (s : ShareStore)
    → NotAfter now s.journal
    → IsJournal n s
    → IsJournal n (apply_scan_result now r s)
unfolding apply_scan_result
apply_scan_result-IsJournal n now r s late h =
    let (late1, h1) = put_all-IsJournal n now r.added s late h in
    let s1 = put_all now r.added s in
    let (late2, h2) = put_all-IsJournal n now r.content_changed s1 late1 h1 in
    let s2 = put_all now r.content_changed s1 in
    let (late3, h3) = put_all-IsJournal n now r.metadata_only s2 late2 h2 in
    let s3 = put_all now r.metadata_only s2 in
    let (_, h4) = put_all-IsJournal n now r.deleted s3 late3 h3 in
    park_all-IsJournal n r.ignored (put_all now r.deleted s3) h4

NotBefore-kept :
    (before : ℤ) (j : JournalRow) (js : List JournalRow)
    → int_lt j.created_at before ≡ false
    → NotBefore j.created_at js
    → prune_journal before js ≡ js
unfolding prune_journal
NotBefore-kept before j [] h later = refl
NotBefore-kept before j (k ∷ js) h later =
    let kept = int_lt_mono before j.created_at k.created_at h later.0 in
    rw (kept) (ap (◌∷◌ k) (NotBefore-kept before j js h later.1))

-- In a journal whose times do not fall, pruning takes rows off its front.
pub prune_journal-suffix :
    (before : ℤ) (js : List JournalRow)
    → Chronological js
    → (gone : List JournalRow) × (js ≡ gone ++ prune_journal before js)
unfolding prune_journal
prune_journal-suffix before [] h = ([], refl)
prune_journal-suffix before (j ∷ js) h = elim (Bool-cases (int_lt j.created_at before)) [
  | inl old ↦
      let (gone, e) = prune_journal-suffix before js h.1 in (j ∷ gone, rw old (ap (◌∷◌ j) e))
  | inr kept ↦ ([], rw kept (ap (◌∷◌ j) (sym (NotBefore-kept before j js kept h.0))))
]

Chronological-suffix : (js ks : List JournalRow) → Chronological (js ++ ks) → Chronological ks
Chronological-suffix [] ks h = h
Chronological-suffix (j ∷ js) ks h = Chronological-suffix js ks h.1

latest-suffix :
    (p : Bytes) (js ks : List JournalRow) (r : FileInfo)
    → latest p (rows_of ks) ≡ some r
    → latest p (rows_of (js ++ ks)) ≡ some r
latest-suffix p js ks r e =
    rw (rows_of-append js ks, latest-append p (rows_of js) (rows_of ks), e) refl

suffix-IsRooted :
    (n : ℕ) (s : ShareStore) (gone rest : List JournalRow)
    → s.journal ≡ gone ++ rest
    → IsJournal n s
    → n + length gone ≡ 1
    → IsRooted s.files rest
suffix-IsRooted n s [] rest e h one p f there = rw (sym e) (h.rooted (omega (arith, one)) p f there)
suffix-IsRooted n s (g ∷ gone) rest e h one p f there = absurd (omega (arith, one, h.positive))

-- A journal that has lost rows at its front begins that much later.
pub suffix-IsJournal :
    (n : ℕ) (s : ShareStore) (gone rest : List JournalRow)
    → s.journal ≡ gone ++ rest
    → IsJournal n s
    → IsJournal (n + length gone) (record s { journal = rest })
suffix-IsJournal n s gone rest e h = record {
  keys = h.keys;
  keyed = h.keyed;
  positive = omega (arith, h.positive);
  runs =
      (RunsFrom-split n gone rest s.next_seq (subst (λ js. RunsFrom n js s.next_seq) e h.runs)).1;
  chronological = Chronological-suffix gone rest (subst Chronological e h.chronological);
  recorded = λ p r there.
      h.recorded p r (ap (λ js. latest p (rows_of js)) e ∙ latest-suffix p gone rest r there);
  rooted = suffix-IsRooted n s gone rest e h;
}

-- Pruning a journal takes rows off its front and leaves it in order.
pub prune_journal-IsJournal :
    (n : ℕ) (before : ℤ) (s : ShareStore)
    → IsJournal n s
    → (gone : List JournalRow) × (s.journal ≡ gone ++ prune_journal before s.journal)
      × IsJournal (n + length gone) (record s { journal = prune_journal before s.journal })
prune_journal-IsJournal n before s h =
    let (gone, e) = prune_journal-suffix before s.journal h.chronological in
    (gone, e, suffix-IsJournal n s gone (prune_journal before s.journal) e h)
