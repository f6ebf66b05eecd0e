-- ===== src/Index/Refused.antt =====
-- What the receiver refuses: a delta that does not follow on its cursor.
use syncat.Prelude.{
  Bool-cases, Option-cases, length, bytes_eq_iff, ℕ, suc, ◌+◌, ◌-◌, ◌%◌, ◌≤◌, ◌<◌, ◌≡◌, refl, ap,
  ◌∙◌, ◌↔◌, inl, inr, true, false, some, List, [], ◌∷◌, arith,
}
use syncat.Vector.{u64_mod}
use syncat.Reconcile.Pass.{index_onto}
use syncat.Wire.{IndexDeltaEntry, IndexDeltaBatch}
use syncat.Index.Receive.{
  apply_peer_delta, files_of, counts_on, resync_request, ack, refuse_delta, apply_delta,
  on_delta_batch, PeerIndex, writes, reconciles,
}
use syncat.Index.Deltas.{on_delta_batch-counted}

-- The entries have the numbers `n`, `n + 1`, ….
abbrev pub CountsOn : ℕ → List IndexDeltaEntry → Type 0
CountsOn n [] = Unit
CountsOn n (e ∷ es) = (e.seq ≡ n) × CountsOn (n + 1) es

counts_on-CountsOn :
    (n : ℕ) (es : List IndexDeltaEntry)
    → n + length es < u64_mod
    → (counts_on n es ≡ true) ↔ CountsOn n es
unfolding counts_on
counts_on-CountsOn n [] small = (λ _. tt, λ _. refl)
counts_on-CountsOn n (e ∷ es) small =
    let next : (n + 1) % u64_mod ≡ n + 1 = omega (arith, small) in
    let (sound, complete) = counts_on-CountsOn (n + 1) es (omega (arith, small)) in
    (
      λ h.
          let later : counts_on ((n + 1) % u64_mod) es ≡ true = ground (arith, h) in
          (ground (arith, h), sound (rw next at later)),
      λ h. ground (arith, h.0, next, complete h.1),
    )

-- The delta follows on the cursor: it is of the cursor's epoch, begins at the next number, and its
-- entries count on, one for each number up to the last.
pub record Follows (m : IndexDeltaBatch) (w : PeerIndex) : Type 0 where
  pub epoch : w.cursor.epoch ≡ m.epoch
  pub next : m.from_seq ≡ w.cursor.applied_seq + 1
  pub counted : CountsOn m.from_seq m.entries
  pub count : m.from_seq + length m.entries ≡ m.to_seq + 1

length-files_of : (es : List IndexDeltaEntry) → length (files_of es) ≡ length es
length-files_of [] = refl
length-files_of (e ∷ es) = ap suc (length-files_of es)

Follows-applies :
    (m : IndexDeltaBatch) (w : PeerIndex)
    → Follows m w
    → 1 ≤ length m.entries
    → m.to_seq + 1 < u64_mod
    → apply_peer_delta m.epoch m.from_seq m.to_seq (files_of m.entries) w
      ≡ some (record w {
        mirror = index_onto w.mirror (files_of m.entries);
        cursor = record w.cursor { applied_seq = m.to_seq };
      })
unfolding apply_peer_delta
Follows-applies m w h some_row small =
    let many = length-files_of m.entries in
    let a : (w.cursor.applied_seq + 1) % u64_mod ≡ m.from_seq =
      omega (arith, h.next, h.count, some_row, small) in
    let b : (m.to_seq + (u64_mod - m.from_seq) + 1) % u64_mod ≡ length (files_of m.entries) =
      omega (arith, h.count, some_row, small, many) in
    ground (arith, a, b, bytes_eq_iff w.cursor.epoch m.epoch, h.epoch)

applies_Follows :
    (m : IndexDeltaBatch) (w v : PeerIndex)
    → m.from_seq ≤ m.to_seq
    → m.to_seq + 1 < u64_mod
    → w.cursor.applied_seq + 1 < u64_mod
    → apply_peer_delta m.epoch m.from_seq m.to_seq (files_of m.entries) w ≡ some v
    → (w.cursor.epoch ≡ m.epoch)
      × (m.from_seq ≡ w.cursor.applied_seq + 1)
      × (m.from_seq + length m.entries ≡ m.to_seq + 1)
unfolding apply_peer_delta
applies_Follows m w v ordered small room taken =
    let many = length-files_of m.entries in
    let a : (w.cursor.applied_seq + 1) % u64_mod ≡ w.cursor.applied_seq + 1 = omega (arith, room) in
    let b : (m.to_seq + (u64_mod - m.from_seq) + 1) % u64_mod ≡ m.to_seq + 1 - m.from_seq =
      omega (arith, ordered, small) in
    (
      ground (arith, taken, bytes_eq_iff w.cursor.epoch m.epoch),
      ground (arith, taken, a),
      ground (arith, taken, a, b, many, ordered),
    )

on_delta_batch-uncounted :
    (m : IndexDeltaBatch) (w : PeerIndex)
    → counts_on m.from_seq m.entries ≡ false
    → on_delta_batch m w ≡ refuse_delta m w
unfolding on_delta_batch
on_delta_batch-uncounted m w counts = rw counts refl

delta_refused :
    (m : IndexDeltaBatch) (w : PeerIndex)
    → m.from_seq ≤ m.to_seq
    → m.to_seq + 1 < u64_mod
    → w.cursor.applied_seq + 1 < u64_mod
    → (Follows m w → ⊥)
    → on_delta_batch m w ≡ refuse_delta m w
delta_refused m w ordered small room unfit = elim (Bool-cases (counts_on m.from_seq m.entries)) [
  | inr uncounted ↦ on_delta_batch-uncounted m w uncounted
  | inl counted ↦
      let o = apply_peer_delta m.epoch m.from_seq m.to_seq (files_of m.entries) w in
      elim (Option-cases o) [
        | inl e ↦ on_delta_batch-counted m w counted ∙ ap (λ r. apply_delta r m w) e
        | inr (v, e) ↦
            let (epoch, next, count) = applies_Follows m w v ordered small room e in
            let below : m.from_seq + length m.entries < u64_mod = omega (arith, count, small) in
            let counts = (counts_on-CountsOn m.from_seq m.entries below).0 counted in
            absurd (unfit (record { epoch = epoch; next = next; counted = counts; count = count }))
      ]
]

-- A delta with rows, of numbers that stay below the largest of a uint64, that has passed the checks on
-- the message and on the share, is taken exactly if it is of the cursor's epoch and its entries are
-- those with the numbers after the cursor: then its rows are written over the mirror, the cursor moves
-- to its last number and it is acknowledged. Every other one that has passed those checks changes
-- nothing and has the receiver ask again from the cursor that it has.
pub delta_taken_or_refused :
    (m : IndexDeltaBatch) (w : PeerIndex)
    → 1 ≤ length m.entries
    → m.from_seq ≤ m.to_seq
    → m.to_seq + 1 < u64_mod
    → w.cursor.applied_seq + 1 < u64_mod
    → (Follows m w
        → on_delta_batch m w ≡ (
          record w {
            mirror = index_onto w.mirror (files_of m.entries);
            cursor = record w.cursor { applied_seq = m.to_seq };
          },
          writes (ack m.share_id m.epoch m.to_seq []) ∷ reconciles ∷ [],
        ))
      × ((Follows m w → ⊥) → on_delta_batch m w ≡ (w, writes (resync_request m.share_id w) ∷ []))
delta_taken_or_refused m w some_row ordered small room = (
  λ h.
      let below : m.from_seq + length m.entries < u64_mod = omega (arith, h.count, small) in
      on_delta_batch-counted m w ((counts_on-CountsOn m.from_seq m.entries below).1 h.counted)
      ∙ ap (λ o. apply_delta o m w) (Follows-applies m w h some_row small),
  λ unfit. delta_refused m w ordered small room unfit,
)
