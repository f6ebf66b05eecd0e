-- ===== src/Index/Sent.antt =====
-- What `sendJournalDeltas` sends is the front of the journal after the peer's cursor, and all of it
-- where it says that it is done.
use mathlib.Core.Path.{subst}
use syncat.Prelude.{
  ltb, ◌==◌, if◌then◌else◌, Bool-cases, length, take, drop, Bytes, ℕ, zero, suc, ◌+◌, ◌≤◌, ◌<◌, ◌≡◌,
  refl, sym, ap, ◌∙◌, inl, inr, Bool, true, false, not, List, [], ◌∷◌, ◌++◌, arith,
}
use syncat.Reconcile.Pass.{IgnoreFunc}
use syncat.Wire.{Message, index_delta_batch}
use syncat.Index.{journal_after, journal_since, journal_has_ignored, JournalRow, ShareStore}
use syncat.Index.Batches.{
  cut_batches, concat, take-drop, append_assoc, concat-cut_batches, concat-append,
  cut_batches-prefix,
}
use syncat.Index.Answer.{
  last_seq, delta_batch_len, delta_frames, after_frames, send_journal_deltas, Encoding,
  DeltaOutcome, delivered, has_ignored, delta_too_big,
}
use syncat.Index.Journal.{RunsFrom, RunsFrom-le, RunsFrom-start, RunsFrom-split}
use syncat.Index.Deltas.{last_seq-run, delta_message}
use syncat.Index.Fresh.{
  journal_after-append, journal_after-above, journal_after-below, journal_after-split,
}

-- The frames are batches of a front of `rows`.
pub record IsSent (share epoch : Bytes) (rows : List JournalRow) (a : List Message × DeltaOutcome)
    : Type 0 where
  pub batches : List (List JournalRow)
  pub rest : List JournalRow
  pub frames : a.0 ≡ delta_frames share epoch batches
  pub split : rows ≡ concat batches ++ rest
  pub whole : a.1 ≡ delivered → rest ≡ []

pub delta_frames-append :
    (share epoch : Bytes) (bs cs : List (List JournalRow))
    → delta_frames share epoch (bs ++ cs)
      ≡ delta_frames share epoch bs ++ delta_frames share epoch cs
unfolding delta_frames
delta_frames-append share epoch [] cs = refl
delta_frames-append share epoch (b ∷ bs) cs =
    ap (◌∷◌ (index_delta_batch (delta_message share epoch b)))
      (delta_frames-append share epoch bs cs)

pub last_seq-page :
    (a : ℕ) (rows : List JournalRow) (end : ℕ)
    → RunsFrom (a + 1) rows end
    → last_seq a rows + 1 ≡ end
last_seq-page a [] end runs = runs
last_seq-page a (j ∷ js) end runs = last_seq-run a (a + 1) j js end runs

-- The rows after a page of the rows after `a`.
pub next_page :
    (a n : ℕ) (js gone rows rest : List JournalRow) (end : ℕ)
    → RunsFrom n js end
    → js ≡ gone ++ (rows ++ rest)
    → RunsFrom (a + 1) (rows ++ rest) end
    → let after = last_seq a rows in
      (a ≤ after) × (after + 1 ≤ end) × (journal_after after js ≡ rest)
next_page a n js gone rows rest end runs e tail =
    let after = last_seq a rows in
    let (page_run, rest_run) = RunsFrom-split (a + 1) rows rest end tail in
    let last = last_seq-page a rows (a + 1 + length rows) page_run in
    let room = RunsFrom-le (a + 1 + length rows) rest end rest_run in
    let (gone_run, tail_run) =
      RunsFrom-split n gone (rows ++ rest) end (subst (λ ks. RunsFrom n ks end) e runs) in
    let starts : n + length gone ≡ a + 1 =
      RunsFrom-start (n + length gone) (a + 1) (rows ++ rest) end tail_run tail in
    let no_gone =
      journal_after-below after n gone (n + length gone) gone_run (omega (arith, starts, last)) in
    let no_rows =
      journal_after-below after (a + 1) rows (a + 1 + length rows) page_run (omega (arith, last)) in
    let all_rest =
      journal_after-above after (a + 1 + length rows) rest end rest_run (omega (arith, last)) in
    (
      omega (arith, last),
      omega (arith, last, room),
      ap (journal_after after) e
          ∙ journal_after-append after gone (rows ++ rest)
          ∙ rw (no_gone, journal_after-append after rows rest, no_rows, all_rest) refl,
    )

-- A page that is short is the last.
take-short : {A : Type 0} (k : ℕ) (xs : List A) → length (take k xs) < k → take k xs ≡ xs
take-short zero xs h = absurd (omega (arith, h))
take-short (suc k) [] h = refl
take-short (suc k) (x ∷ xs) h = ap (◌∷◌ x) (take-short k xs (omega (arith, h)))

drop-short : {A : Type 0} (k : ℕ) (xs : List A) → length (take k xs) < k → drop k xs ≡ []
drop-short zero xs h = absurd (omega (arith, h))
drop-short (suc k) [] h = refl
drop-short (suc k) (x ∷ xs) h = drop-short k xs (omega (arith, h))

empty-page : {A : Type 0} (k : ℕ) (xs : List A) → 1 ≤ k → length (take k xs) ≡ 0 → xs ≡ []
empty-page zero xs one h = absurd (omega (arith, one))
empty-page (suc k) [] one h = refl
empty-page (suc k) (x ∷ xs) one h = absurd (omega (arith, h))

module _ (share epoch : Bytes) where
  -- One round, by the tests that it makes.
  round-IsSent :
      (empty ignored whole short : Bool) (bs : List (List JournalRow)) (tail left : List JournalRow)
      (more : List Message × DeltaOutcome)
      → (empty ≡ true → tail ≡ [])
      → tail ≡ concat bs ++ left
      → (whole ≡ true → short ≡ true → left ≡ [])
      → (whole ≡ true → IsSent share epoch left more)
      → IsSent share epoch tail (
          if empty
          then ([], delivered)
          else if ignored
          then ([], has_ignored)
          else if not whole
          then (delta_frames share epoch bs, delta_too_big)
          else if short
          then (delta_frames share epoch bs, delivered)
          else after_frames (delta_frames share epoch bs) more)
  unfolding delta_frames
  round-IsSent true ignored whole short bs tail left more none_there split all later = record {
    batches = [];
    rest = tail;
    frames = refl;
    split = refl;
    whole = λ e. none_there refl;
  }
  round-IsSent false true whole short bs tail left more none_there split all later = record {
    batches = [];
    rest = tail;
    frames = refl;
    split = refl;
    whole = λ e. cc;
  }
  round-IsSent false false false short bs tail left more none_there split all later = record {
    batches = bs;
    rest = left;
    frames = refl;
    split = split;
    whole = λ e. cc;
  }
  round-IsSent false false true true bs tail left more none_there split all later = record {
    batches = bs;
    rest = left;
    frames = refl;
    split = split;
    whole = λ e. all refl refl;
  }
  round-IsSent false false true false bs tail left more none_there split all later =
      let sent = later refl in
      record {
        batches = bs ++ sent.batches;
        rest = sent.rest;
        frames =
            ap (λ ms. delta_frames share epoch bs ++ ms) sent.frames
            ∙ sym (delta_frames-append share epoch bs sent.batches);
        split =
            split
            ∙ ap (λ js. concat bs ++ js) sent.split
            ∙ sym (append_assoc (concat bs) (concat sent.batches) sent.rest)
            ∙ ap (λ js. js ++ sent.rest) (sym (concat-append bs sent.batches));
        whole = sent.whole;
      }

module _ (s : ShareStore) (n page : ℕ) where
  -- The rows after a page of the journal.
  pub page_step :
      (a : ℕ)
      → RunsFrom n s.journal s.next_seq
      → n ≤ a + 1
      → a + 1 ≤ s.next_seq
      → let tail = journal_after a s.journal in
        let after = last_seq a (take page tail) in
        (a ≤ after) × (after + 1 ≤ s.next_seq) × (journal_after after s.journal ≡ drop page tail)
  page_step a runs from to =
      let tail = journal_after a s.journal in
      let (gone, same, run) = journal_after-split a n s.journal s.next_seq runs from to in
      let both = take-drop page tail in
      next_page a n s.journal gone (take page tail) (drop page tail) s.next_seq runs
        (same ∙ ap (λ ks. gone ++ ks) (sym both))
        (subst (λ ks. RunsFrom (a + 1) ks s.next_seq) (sym both) run)

module _ (share : Bytes) (ignore : IgnoreFunc) (enc : Encoding) (s : ShareStore) (n page : ℕ) where
  pub send_journal_deltas-IsSent :
      (rounds a : ℕ)
      → RunsFrom n s.journal s.next_seq
      → n ≤ a + 1
      → a + 1 ≤ s.next_seq
      → 1 ≤ page
      → IsSent share s.epoch
          (journal_after a s.journal)
          (send_journal_deltas share ignore enc rounds page s a)
  unfolding send_journal_deltas journal_since delta_frames
  send_journal_deltas-IsSent zero a runs from to some_page = record {
    batches = [];
    rest = journal_after a s.journal;
    frames = refl;
    split = refl;
    whole = λ e. cc;
  }
  send_journal_deltas-IsSent (suc rounds) a runs from to some_page =
      let tail = journal_after a s.journal in
      let rows = take page tail in
      let cut = cut_batches (length rows) (λ (m : ℕ). delta_batch_len enc) 0 rows in
      let after = last_seq a rows in
      let both = take-drop page tail in
      let (grown, room, later) = page_step s n page a runs from to in
      let ih =
        send_journal_deltas-IsSent rounds after runs (omega (arith, from, grown)) room some_page in
      let len = λ (m : ℕ). delta_batch_len enc in
      let (unsent, front) = cut_batches-prefix (length rows) len 0 rows in
      let sent_all = concat-cut_batches (length rows) len 0 rows in
      elim (Bool-cases cut.1) [
        | inl whole ↦
            round-IsSent share s.epoch (length rows == 0) (journal_has_ignored ignore rows) cut.1
              (ltb (length rows) page) cut.0 tail (drop page tail)
              (send_journal_deltas share ignore enc rounds page s after)
              (λ e. empty-page page tail some_page (ground (arith, e)))
              (sym both ∙ ap (λ js. js ++ drop page tail) (sym (sent_all whole)))
              (λ w short. drop-short page tail (ground (arith, short)))
              (λ w.
                subst
                  (λ js.
                    IsSent share s.epoch js
                      (send_journal_deltas share ignore enc rounds page s after))
                  later ih)
        | inr part ↦
            round-IsSent share s.epoch (length rows == 0) (journal_has_ignored ignore rows) cut.1
              (ltb (length rows) page) cut.0 tail (unsent ++ drop page tail)
              (send_journal_deltas share ignore enc rounds page s after)
              (λ e. empty-page page tail some_page (ground (arith, e)))
              (sym both
                ∙ ap (λ js. js ++ drop page tail) front
                ∙ append_assoc (concat cut.0) unsent (drop page tail))
              (λ w short. ground (arith, w, part)) (λ w. ground (arith, w, part))
      ]
