-- ===== src/Index/Journal.antt =====
-- The journal of a share: its rows are numbered without a gap up to the newest, its times do not
-- fall, and its last row of a path is what `files` holds of it. Every operation on the store keeps
-- this, while the clock does not go back.
use mathlib.Core.Path.{subst}
use syncat.Prelude.{
  if◌then◌else◌, Bool-cases, length, Bytes, bytes_eq, bytes_eq_iff, Dict, find, insert, IsMap,
  find-insert, insert-IsMap, ℤ, int_lt, ℕ, suc, ◌+◌, ◌≤◌, ◌≡◌, refl, ap, ◌≢◌, inl, inr, false, none,
  some, List, [], ◌∷◌, ◌++◌, arith, bytes_key,
}
use syncat.Reconcile.{FileInfo}
use syncat.Index.Latest.{latest, latest-append}
use syncat.Index.{new_share, put_file_and_journal, rows_of, FileEntry, JournalRow, ShareStore}

-- `n, n + 1, …` up to below `end`.
abbrev pub RunsFrom : ℕ → List JournalRow → ℕ → Type 0
RunsFrom n [] end = n ≡ end
RunsFrom n (j ∷ js) end = (j.seq ≡ n) × RunsFrom (n + 1) js end

abbrev pub NotAfter : ℤ → List JournalRow → Type 0
NotAfter time [] = Unit
NotAfter time (j ∷ js) = (int_lt time j.created_at ≡ false) × NotAfter time js

abbrev pub NotBefore : ℤ → List JournalRow → Type 0
NotBefore time [] = Unit
NotBefore time (j ∷ js) = (int_lt j.created_at time ≡ false) × NotBefore time js

abbrev pub Chronological : List JournalRow → Type 0
Chronological [] = Unit
Chronological (j ∷ js) = NotBefore j.created_at js × Chronological js

-- What `files` holds of a path is its last row in the journal.
abbrev pub IsRecorded : Dict Bytes FileEntry → List JournalRow → Type 0
IsRecorded files js =
    (p : Bytes) (r : FileInfo)
    → latest p (rows_of js) ≡ some r
    → (e : FileEntry) × (find files p ≡ some e) × (e.info ≡ r)

-- Every row stands under its own path.
abbrev pub IsKeyed : Dict Bytes FileEntry → Type 0
IsKeyed [] = Unit
IsKeyed ((p, e) ∷ files) = (e.info.rel_path ≡ p) × IsKeyed files

-- Every row of `files` has one in the journal.
abbrev pub IsRooted : Dict Bytes FileEntry → List JournalRow → Type 0
IsRooted files js =
    (p : Bytes) (e : FileEntry) → find files p ≡ some e → latest p (rows_of js) ≢ none

-- The journal holds the rows from number `start` on; while that is 1 it has a row of every path.
pub record IsJournal (start : ℕ) (s : ShareStore) : Type 0 where
  pub keys : IsMap s.files
  pub keyed : IsKeyed s.files
  pub positive : 1 ≤ start
  pub runs : RunsFrom start s.journal s.next_seq
  pub chronological : Chronological s.journal
  pub recorded : IsRecorded s.files s.journal
  pub rooted : start ≡ 1 → IsRooted s.files s.journal

pub rows_of-append : (js ks : List JournalRow) → rows_of (js ++ ks) ≡ rows_of js ++ rows_of ks
rows_of-append [] ks = refl
rows_of-append (j ∷ js) ks = ap (◌∷◌ j.row) (rows_of-append js ks)

pub RunsFrom-length :
    (n : ℕ) (js : List JournalRow) (end : ℕ) → RunsFrom n js end → n + length js ≡ end
RunsFrom-length n [] end h = omega (arith, h)
RunsFrom-length n (j ∷ js) end h = omega (arith, RunsFrom-length (n + 1) js end h.1)

pub RunsFrom-le : (n : ℕ) (js : List JournalRow) (end : ℕ) → RunsFrom n js end → n ≤ end
RunsFrom-le n js end h = omega (arith, RunsFrom-length n js end h)

pub RunsFrom-start :
    (n m : ℕ) (js : List JournalRow) (end : ℕ) → RunsFrom n js end → RunsFrom m js end → n ≡ m
RunsFrom-start n m js end h k =
    omega (arith, RunsFrom-length n js end h, RunsFrom-length m js end k)

pub RunsFrom-split :
    (n : ℕ) (js ks : List JournalRow) (end : ℕ)
    → RunsFrom n (js ++ ks) end
    → RunsFrom n js (n + length js) × RunsFrom (n + length js) ks end
RunsFrom-split n [] ks end h =
    let e : n ≡ n + 0 = omega arith in (e, subst (λ k. RunsFrom k ks end) e h)
RunsFrom-split n (j ∷ js) ks end h =
    let (l, r) = RunsFrom-split (n + 1) js ks end h.1 in
    let e : n + 1 + length js ≡ n + suc (length js) = omega arith in
    ((h.0, subst (RunsFrom (n + 1) js) e l), subst (λ k. RunsFrom k ks end) e r)

RunsFrom-append :
    (n : ℕ) (js : List JournalRow) (end : ℕ) (k : JournalRow)
    → RunsFrom n js end
    → k.seq ≡ end
    → RunsFrom n (js ++ k ∷ []) (end + 1)
RunsFrom-append n [] end k h e = ground (arith, h, e)
RunsFrom-append n (j ∷ js) end k h e = (h.0, RunsFrom-append (n + 1) js end k h.1 e)

NotBefore-append :
    (time : ℤ) (js : List JournalRow) (k : JournalRow)
    → NotBefore time js
    → int_lt k.created_at time ≡ false
    → NotBefore time (js ++ k ∷ [])
NotBefore-append time [] k h e = (e, tt)
NotBefore-append time (j ∷ js) k h e = (h.0, NotBefore-append time js k h.1 e)

Chronological-append :
    (js : List JournalRow) (k : JournalRow)
    → Chronological js
    → NotAfter k.created_at js
    → Chronological (js ++ k ∷ [])
Chronological-append [] k h e = (tt, tt)
Chronological-append (j ∷ js) k h e =
    (NotBefore-append j.created_at js k h.0 e.0, Chronological-append js k h.1 e.1)

pub insert-IsKeyed :
    (p : Bytes) (e : FileEntry) (files : Dict Bytes FileEntry)
    → e.info.rel_path ≡ p
    → IsKeyed files
    → IsKeyed (insert p e files)
unfolding insert
insert-IsKeyed p e [] k h = (k, tt)
insert-IsKeyed p e ((q, f) ∷ files) k h = elim (Bool-cases (bytes_eq q p)) [
  | inl same ↦ rw same (k, h.1)
  | inr other ↦ rw other (h.0, insert-IsKeyed p e files k h.1)
]

pub find-IsKeyed :
    (p : Bytes) (e : FileEntry) (files : Dict Bytes FileEntry)
    → IsKeyed files
    → find files p ≡ some e
    → e.info.rel_path ≡ p
unfolding find
find-IsKeyed p e [] h there = cc
find-IsKeyed p e ((q, f) ∷ files) h there = elim (Bool-cases (bytes_eq q p)) [
  | inl same ↦ ground (arith, there, same, h.0, bytes_eq_iff q p)
  | inr other ↦ find-IsKeyed p e files h.1 (ground (arith, there, other))
]

pub new_share-IsJournal : (epoch : Bytes) → IsJournal 1 (new_share epoch)
new_share-IsJournal epoch = record {
  keys = tt;
  keyed = tt;
  positive = omega arith;
  runs = refl;
  chronological = tt;
  recorded = λ p r h. cc;
  rooted = λ e p r h. unfold find in cc;
}

-- The row of `p` once the journal has gained `k`.
pub latest-put :
    (p : Bytes) (k : JournalRow) (js : List JournalRow)
    → latest p (rows_of (js ++ k ∷ []))
      ≡ (if bytes_eq k.row.rel_path p then some k.row else latest p (rows_of js))
latest-put p k js =
    rw (rows_of-append js (k ∷ []), latest-append p (rows_of js) (k.row ∷ []))
      (elim (Bool-cases (bytes_eq k.row.rel_path p)) [ inl e ↦ rw e refl | inr e ↦ rw e refl ])

put-IsRecorded :
    (k : JournalRow) (files : Dict Bytes FileEntry) (js : List JournalRow)
    → IsRecorded files js
    → IsRecorded
        (insert k.row.rel_path (record { info = k.row; ignored = false }) files)
        (js ++ k ∷ [])
put-IsRecorded k files js h p r e =
    let entry : FileEntry = record { info = k.row; ignored = false } in
    let found = find-insert k.row.rel_path p entry files in
    let last = latest-put p k js in
    elim (Bool-cases (bytes_eq k.row.rel_path p)) [
      | inl same ↦ (entry, ground (arith, found, same), ground (arith, last, same, e))
      | inr other ↦
          let (was, had, info) = h p r (ground (arith, last, other, e)) in
          (was, ground (arith, found, other, had), info)
    ]

put-IsRooted :
    (k : JournalRow) (files : Dict Bytes FileEntry) (js : List JournalRow)
    → IsRooted files js
    → IsRooted
        (insert k.row.rel_path (record { info = k.row; ignored = false }) files)
        (js ++ k ∷ [])
put-IsRooted k files js h p e there none_there =
    let entry : FileEntry = record { info = k.row; ignored = false } in
    let found = find-insert k.row.rel_path p entry files in
    let last = latest-put p k js in
    elim (Bool-cases (bytes_eq k.row.rel_path p)) [
      | inl same ↦ ground (arith, last, same, none_there)
      | inr other ↦
          h p e (ground (arith, found, other, there)) (ground (arith, last, other, none_there))
    ]

pub put_file_and_journal-IsJournal :
    (n : ℕ) (now : ℤ) (row : FileInfo) (s : ShareStore)
    → NotAfter now s.journal
    → IsJournal n s
    → IsJournal n (put_file_and_journal now row s)
unfolding put_file_and_journal
put_file_and_journal-IsJournal n now row s late h =
    let k : JournalRow = record { seq = s.next_seq; row = row; created_at = now } in
    let entry : FileEntry = record { info = row; ignored = false } in
    record {
      keys = insert-IsMap row.rel_path entry s.files h.keys;
      keyed = insert-IsKeyed row.rel_path entry s.files refl h.keyed;
      positive = h.positive;
      runs = RunsFrom-append n s.journal s.next_seq k h.runs refl;
      chronological = Chronological-append s.journal k h.chronological late;
      recorded = put-IsRecorded k s.files s.journal h.recorded;
      rooted = λ one. put-IsRooted k s.files s.journal (h.rooted one);
    }
