-- ===== src/Index/Fresh.antt =====
-- The rows of a journal after a number, and what they say of a mirror that stands at that number.
use mathlib.Core.Path.{subst}
use syncat.Prelude.{
  ltb, Bool-cases, Option-cases, length, Bytes, Dict, find, ℕ, ◌+◌, ◌≤◌, ◌<◌, ◌≡◌, refl, sym, ap,
  ◌∙◌, inl, inr, true, false, none, some, List, [], ◌∷◌, ◌++◌, arith, bytes_key,
}
use syncat.Reconcile.{FileInfo}
use syncat.Reconcile.Pass.{index_onto, IgnoreFunc, is_ignored}
use syncat.Index.{journal_after, is_dir, rows_of, FileEntry, JournalRow, ShareStore}
use syncat.Index.Latest.{or_else, latest, latest-append, find-index_onto}
use syncat.Index.Journal.{RunsFrom, rows_of-append, RunsFrom-le, IsJournal}

pub journal_after-append :
    (a : ℕ) (js ks : List JournalRow)
    → journal_after a (js ++ ks) ≡ journal_after a js ++ journal_after a ks
unfolding journal_after
journal_after-append a [] ks = refl
journal_after-append a (j ∷ js) ks = elim (Bool-cases (ltb a j.seq)) [
  | inl e ↦ rw e (ap (◌∷◌ j) (journal_after-append a js ks))
  | inr e ↦ rw e (journal_after-append a js ks)
]

pub length-journal_after : (a : ℕ) (js : List JournalRow) → length (journal_after a js) ≤ length js
unfolding journal_after
length-journal_after a [] = omega arith
length-journal_after a (j ∷ js) = ground (arith, length-journal_after a js)

-- Rows that begin above the number all come after it.
pub journal_after-above :
    (a n : ℕ) (js : List JournalRow) (end : ℕ) → RunsFrom n js end → a < n → journal_after a js ≡ js
unfolding journal_after
journal_after-above a n [] end runs h = refl
journal_after-above a n (j ∷ js) end runs h =
    let rest = journal_after-above a (n + 1) js end runs.1 (omega (arith, h)) in
    let e : ltb a j.seq ≡ true = ground (arith, h, runs.0) in rw e (ap (◌∷◌ j) rest)

-- Rows that end at the number or before all come before it.
pub journal_after-below :
    (a n : ℕ) (js : List JournalRow) (end : ℕ)
    → RunsFrom n js end
    → end ≤ a + 1
    → journal_after a js ≡ []
unfolding journal_after
journal_after-below a n [] end runs h = refl
journal_after-below a n (j ∷ js) end runs h =
    let rest = journal_after-below a (n + 1) js end runs.1 h in
    let below = RunsFrom-le (n + 1) js end runs.1 in
    let e : ltb a j.seq ≡ false = ground (arith, h, runs.0, below) in rw e rest

-- Where the journal reaches back to the number, the rows after it are its end, without a gap.
pub journal_after-split :
    (a n : ℕ) (js : List JournalRow) (end : ℕ)
    → RunsFrom n js end
    → n ≤ a + 1
    → a + 1 ≤ end
    → (gone : List JournalRow) × (js ≡ gone ++ journal_after a js)
      × RunsFrom (a + 1) (journal_after a js) end
unfolding journal_after
journal_after-split a n [] end runs from to = ([], refl, omega (arith, runs, from, to))
journal_after-split a n (j ∷ js) end runs from to = elim (Bool-cases (ltb a j.seq)) [
  | inl e ↦
      let start : n ≡ a + 1 = ground (arith, e, runs.0, from) in
      let later = journal_after-above a (n + 1) js end runs.1 (omega (arith, start)) in
      ([], rw (e, later) refl, rw (e, later) (subst (λ k. RunsFrom k (j ∷ js) end) start runs))
  | inr e ↦
      let (gone, same, rest) =
        journal_after-split a (n + 1) js end runs.1 (ground (arith, e, runs.0)) to in
      (j ∷ gone, rw e (ap (◌∷◌ j) same), rw e rest)
]

-- A row that a snapshot tells of.
abbrev pub IsVisible : IgnoreFunc → FileEntry → Type 0
IsVisible ignore e =
    (e.ignored ≡ false) × (is_ignored ignore e.info.rel_path (is_dir e.info) ≡ false)

-- The mirror is right about every visible path that the rows say nothing of.
abbrev pub Tells :
    IgnoreFunc → Dict Bytes FileEntry → List JournalRow → Dict Bytes FileInfo → Type 0
Tells ignore files rows mirror =
    (p : Bytes) (e : FileEntry)
    → find files p ≡ some e
    → IsVisible ignore e
    → latest p (rows_of rows) ≡ none
    → find mirror p ≡ some e.info

latest-rows_of :
    (p : Bytes) (js ks : List JournalRow)
    → latest p (rows_of (js ++ ks)) ≡ or_else (latest p (rows_of ks)) (latest p (rows_of js))
latest-rows_of p js ks =
    ap (latest p) (rows_of-append js ks) ∙ latest-append p (rows_of js) (rows_of ks)

-- Rows written over the mirror settle the paths that they are about.
pub Tells-advance :
    (ignore : IgnoreFunc) (n : ℕ) (s : ShareStore) (gone rows rest : List JournalRow)
    (mirror : Dict Bytes FileInfo)
    → IsJournal n s
    → s.journal ≡ gone ++ (rows ++ rest)
    → Tells ignore s.files (rows ++ rest) mirror
    → Tells ignore s.files rest (index_onto mirror (rows_of rows))
Tells-advance ignore n s gone rows rest mirror h whole tells p e there visible quiet =
    let written = find-index_onto p (rows_of rows) mirror in
    let tail = latest-rows_of p rows rest in
    elim (Option-cases (latest p (rows_of rows))) [
      | inl none_here ↦
          written ∙ rw none_here (tells p e there visible (tail ∙ rw (quiet, none_here) refl))
      | inr (r, here) ↦
          let last : latest p (rows_of s.journal) ≡ some r =
            ap (λ js. latest p (rows_of js)) whole
            ∙ latest-rows_of p gone (rows ++ rest)
            ∙ rw (tail, quiet, here) refl in
          let (f, stored, info) = h.recorded p r last in
          let same : e ≡ f = ground (arith, there, stored) in
          written ∙ rw here (ap some (sym info ∙ ap (λ g. g.info) (sym same)))
    ]
