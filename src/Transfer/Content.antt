-- ===== src/Transfer/Content.antt =====
-- A pull takes the chunks of its transfer in the order of their offsets, and nothing else.
use mathlib.Core.Path.{subst}
use syncat.Prelude.{
  if◌then◌else◌, length, length-append, Bytes, bytes_eq_iff, ℤ, int_lt, int_eq_iff, pos, ℕ, zero,
  suc, ◌+◌, ◌≡◌, refl, sym, ap, ◌∙◌, ◌≢◌, ◌⊎◌, inl, inr, Bool, true, false, not, List, [], ◌∷◌,
  ◌++◌, arith,
}
use syncat.Vector.{equal}
use syncat.Wire.{FileRequest, FileChunkHeader}
use syncat.Transfer.Pull.{
  is_expected, written, write_fails, at_eof, pull_loop, pull_file, WriteOutcome, PullEvent, Pull,
  wrote, wrote_only, arrives, peer_fails, closes, stalls, cancels, pulled, bad_chunk, dst_failed,
}
use syncat.Index.Batches.{append_assoc}

-- The chunk answers the request, at the offset `total`.
pub record Expected (req : FileRequest) (h : FileChunkHeader) (total : ℕ) : Type 0 where
  pub transfer_id : h.transfer_id ≡ req.transfer_id
  pub share_id : h.share_id ≡ req.share_id
  pub rel_path : h.rel_path ≡ req.rel_path
  pub version : equal h.version req.version ≡ true
  pub offset : h.offset ≡ pos total

-- The events begin with chunks of the file from offset `total` on, up to its end, and `bytes` is
-- what they hold.
pub data Arrived (req : FileRequest) : ℕ → List PullEvent → Bytes → Type 0 where
  last_chunk :
      {total : ℕ} {h : FileChunkHeader} {bytes : Bytes} {w : WriteOutcome} {events : List PullEvent}
      → Expected req h total
      → h.eof ≡ true
      → write_fails bytes w ≡ false
      → Arrived req total (arrives h bytes w ∷ events) bytes
  next_chunk :
      {total : ℕ} {h : FileChunkHeader} {bytes more : Bytes} {w : WriteOutcome}
      {events : List PullEvent}
      → Expected req h total
      → h.eof ≡ false
      → write_fails bytes w ≡ false
      → Arrived req (total + length bytes) events more
      → Arrived req total (arrives h bytes w ∷ events) (bytes ++ more)

is_expected-Expected :
    (req : FileRequest) (h : FileChunkHeader) (total : ℕ)
    → is_expected req h total ≡ true
    → Expected req h total
unfolding is_expected
is_expected-Expected req h total e = record {
  transfer_id = ground (arith, e, bytes_eq_iff h.transfer_id req.transfer_id);
  share_id = ground (arith, e, bytes_eq_iff h.share_id req.share_id);
  rel_path = ground (arith, e, bytes_eq_iff h.rel_path req.rel_path);
  version = ground (arith, e);
  offset = ground (arith, e, int_eq_iff h.offset (pos total));
}

pub Expected-is_expected :
    (req : FileRequest) (h : FileChunkHeader) (total : ℕ)
    → Expected req h total
    → is_expected req h total ≡ true
unfolding is_expected
Expected-is_expected req h total x = ground (
  arith,
  x.version,
  bytes_eq_iff h.transfer_id req.transfer_id,
  x.transfer_id,
  bytes_eq_iff h.share_id req.share_id,
  x.share_id,
  bytes_eq_iff h.rel_path req.rel_path,
  x.rel_path,
  int_eq_iff h.offset (pos total),
  x.offset,
)

written_whole :
    (bytes : Bytes) (w : WriteOutcome) → write_fails bytes w ≡ false → written bytes w ≡ bytes
written_whole bytes wrote h = refl
written_whole [] (wrote_only zero) h = refl
written_whole [] (wrote_only (suc n)) h = refl
written_whole (b ∷ bytes) (wrote_only n) h = ground (arith, h)

-- The file has the size that was announced, if one was.
abbrev pub HasSize : ℤ → Bytes → Type 0
HasSize size content = int_lt size (pos 0) ≡ false → pos (length content) ≡ size

-- Which branch of the loop a pull that ends well takes.
abbrev pub Branch : Bool → Pull → Pull → Pull → Type 0
Branch eof_here at_end rest r =
    ((eof_here ≡ true) × (at_end.outcome ≡ pulled) × (r ≡ at_end))
    ⊎ ((eof_here ≡ false) × (rest.outcome ≡ pulled) × (r ≡ rest))

pub step-pulled :
    (expected fails eof_here : Bool) (bad broken at_end rest : Pull)
    → bad.outcome ≢ pulled
    → broken.outcome ≢ pulled
    → let r =
        (if not expected
          then bad
          else if fails
          then broken
          else if eof_here
          then at_end
          else rest) in
      r.outcome ≡ pulled → (expected ≡ true) × (fails ≡ false) × Branch eof_here at_end rest r
step-pulled false fails eof_here bad broken at_end rest b c done = absurd (b done)
step-pulled true true eof_here bad broken at_end rest b c done = absurd (c done)
step-pulled true false true bad broken at_end rest b c done = (refl, refl, inl (refl, done, refl))
step-pulled true false false bad broken at_end rest b c done = (refl, refl, inr (refl, done, refl))

module _ (req : FileRequest) (size : ℤ) where
  pub at_eof-pulled :
      (content : Bytes) (total : ℕ)
      → total ≡ length content
      → (at_eof req size content total).outcome ≡ pulled
      → HasSize size content
  at_eof-pulled content total long done some_size =
      ground (arith, done, some_size, int_eq_iff (pos total) size, long)

  pub pull_step :
      (h : FileChunkHeader) (bytes : Bytes) (w : WriteOutcome) (events : List PullEvent)
      (content : Bytes) (total : ℕ)
      → let more = content ++ written bytes w in
        let count = total + length (written bytes w) in
        pull_loop req size (arrives h bytes w ∷ events) content total ≡ (
          if not (is_expected req h total)
          then record { content = content; total = total; outcome = bad_chunk }
          else if write_fails bytes w
          then record { content = more; total = count; outcome = dst_failed }
          else if h.eof
          then at_eof req size more count
          else pull_loop req size events more count)
  unfolding pull_loop
  pull_step h bytes w events content total = refl

  pub pulled-Arrived :
      (events : List PullEvent) (content : Bytes) (total : ℕ)
      → total ≡ length content
      → (pull_loop req size events content total).outcome ≡ pulled
      → (bytes : Bytes) × Arrived req total events bytes
        × ((pull_loop req size events content total).content ≡ content ++ bytes)
        × HasSize size (content ++ bytes)
  unfolding pull_loop
  pulled-Arrived [] content total long done = cc
  pulled-Arrived (peer_fails code ∷ events) content total long done = cc
  pulled-Arrived (closes ∷ events) content total long done = cc
  pulled-Arrived (stalls ∷ events) content total long done = cc
  pulled-Arrived (cancels ∷ events) content total long done = cc
  pulled-Arrived (arrives h bytes w ∷ events) content total long done =
      let more = content ++ written bytes w in
      let count = total + length (written bytes w) in
      let rest = pull_loop req size events more count in
      let grown = length-append content (written bytes w) in
      let longer : count ≡ length more = omega (arith, grown, long) in
      let (expected, fine, branch) =
        step-pulled (is_expected req h total) (write_fails bytes w) h.eof
          (record { content = content; total = total; outcome = bad_chunk })
          (record { content = more; total = count; outcome = dst_failed })
          (at_eof req size more count) rest (λ e. cc) (λ e. cc) done in
      let whole = written_whole bytes w fine in
      let x = is_expected-Expected req h total expected in
      elim branch [
        | inl (here, good, same) ↦ (
          bytes,
          last_chunk x here fine,
          ap (λ (r : Pull). r.content) same ∙ ap (λ b. content ++ b) whole,
          subst (λ b. HasSize size (content ++ b)) whole (at_eof-pulled more count longer good),
        )
        | inr (later, good, same) ↦
            let (left, arrived, gathered, sized) = pulled-Arrived events more count longer good in
            let joined : more ++ left ≡ content ++ (bytes ++ left) =
              append_assoc content (written bytes w) left
              ∙ ap (λ b. content ++ (b ++ left)) whole in
            (
              bytes ++ left,
              next_chunk x later fine (
                  subst (λ n. Arrived req n events left) (ap (λ b. total + length b) whole)
                    arrived),
              ap (λ (r : Pull). r.content) same ∙ gathered ∙ joined,
              subst (HasSize size) joined sized,
            )
      ]

  -- A pull returns without an error only if chunks of the file that it asked for have arrived in
  -- the order of their offsets, without a gap, up to the one that is marked as the end, each written
  -- in full; then the destination holds exactly their bytes, as many as were announced.
  pub pulled_content :
      (events : List PullEvent)
      → (pull_file req size events).outcome ≡ pulled
      → Arrived req 0 events (pull_file req size events).content
        × HasSize size (pull_file req size events).content
  unfolding pull_file
  pulled_content events done =
      let (bytes, arrived, gathered, sized) = pulled-Arrived events [] 0 refl done in
      (
        subst (Arrived req 0 events) (sym gathered) arrived,
        subst (HasSize size) (sym gathered) sized,
      )
