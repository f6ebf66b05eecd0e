-- ===== src/Wire/Delta.antt =====
-- The sequence numbers of a delta that `ValidateMessage` accepts.
use syncat.Prelude.{
  ◌==◌, length, ℕ, suc, ◌+◌, ◌%◌, ◌≤◌, ◌<◌, ◌≡◌, false, not, none, List, [], ◌∷◌, arith,
}
use syncat.Vector.{u64_mod}
use syncat.Wire.{
  IndexDeltaEntry, IndexDeltaBatch, bad_delta_range, non_contiguous_delta, index_delta_batch,
}
use syncat.Wire.Text.{first_error, refuse_if, first_error-none, refuse_if-none}
use syncat.Wire.Check.{
  validate_file_info, validate_entries, bad_range, validate_delta_batch, validate_message,
}

-- `next, next + 1, …`, as many as there are entries.
abbrev pub CountsFrom : ℕ → List IndexDeltaEntry → Type 0
CountsFrom next [] = Unit
CountsFrom next (e ∷ es) = (e.seq ≡ next) × CountsFrom (suc next) es

validate_entries-step :
    (seq : ℕ) (e : IndexDeltaEntry) (es : List IndexDeltaEntry)
    → validate_entries seq (e ∷ es) ≡ none
    → (e.seq ≡ seq) × (validate_entries ((seq + 1) % u64_mod) es ≡ none)
unfolding validate_entries
validate_entries-step seq e es v =
    let later = validate_entries ((seq + 1) % u64_mod) es in
    let (here, below) =
      first_error-none (refuse_if (not (e.seq == seq)) non_contiguous_delta)
        (first_error (validate_file_info e.file) later) v in
    let (file, rest) = first_error-none (validate_file_info e.file) later below in
    let same = refuse_if-none (not (e.seq == seq)) non_contiguous_delta here in
    (ground (arith, same), rest)

good_range :
    (m : IndexDeltaBatch)
    → m.to_seq < u64_mod
    → bad_range m ≡ false
    → (1 ≤ length m.entries) × (1 ≤ m.from_seq) × (m.from_seq + length m.entries ≡ suc m.to_seq)
good_range m h good = (ground (arith, good), ground (arith, good), ground (arith, h, good))

validate_entries-CountsFrom :
    (seq : ℕ) (es : List IndexDeltaEntry)
    → seq + length es ≤ u64_mod
    → validate_entries seq es ≡ none
    → CountsFrom seq es
validate_entries-CountsFrom seq [] h v = tt
validate_entries-CountsFrom seq (e ∷ []) h v = ((validate_entries-step seq e [] v).0, tt)
validate_entries-CountsFrom seq (e ∷ f ∷ es) h v =
    let (here, rest) = validate_entries-step seq e (f ∷ es) v in
    let small : (seq + 1) % u64_mod ≡ suc seq = omega arith in
    (here, validate_entries-CountsFrom (suc seq) (f ∷ es) (omega arith) (rw small at rest))

-- A delta batch that `ValidateMessage` accepts, with sequence numbers that fit a uint64, is not
-- empty and does not begin at 0; its entries count from `FromSeq`, one by one, up to `ToSeq`.
pub accepted_delta_counts :
    (m : IndexDeltaBatch)
    → m.to_seq < u64_mod
    → validate_message (index_delta_batch m) ≡ none
    → (1 ≤ length m.entries)
      × (1 ≤ m.from_seq)
      × (m.from_seq + length m.entries ≡ suc m.to_seq)
      × CountsFrom m.from_seq m.entries
unfolding validate_message validate_delta_batch
accepted_delta_counts m h v =
    let (id, below) = first_error-none _ _ v in
    let (epoch, ranged) = first_error-none _ _ below in
    let (range, entries) = first_error-none _ _ ranged in
    let good : bad_range m ≡ false = refuse_if-none (bad_range m) bad_delta_range range in
    let (some_entry, from, last) = good_range m h good in
    (some_entry, from, last, validate_entries-CountsFrom m.from_seq m.entries (omega arith) entries)
