-- ===== src/Wire/Awaits.antt =====
-- A bulk frame at the head of its lane, through each kind of step.
use syncat.Prelude.{
  ltb, leb, if◌then◌else◌, Bool-cases, Option-cases, length, Bytes, find, has, delete, ℕ, suc, ◌+◌,
  ◌≤◌, ◌≡◌, refl, sym, ap, ◌∙◌, inl, inr, Bool, true, false, ◌||◌, not, List, [], ◌∷◌, ◌++◌, arith,
  bytes_key,
}
use syncat.Wire.Stream.{
  urgent_queue_depth, ctrl_queue_depth, max_control_burst, is_urgent, is_bulk, start_from, fail,
  is_running, enqueue, enqueue_latest, write_frame, poll_urgent, take_data, check_burst,
  take_urgent, take_ctrl, take_latest, Queued, StreamWriterState, StreamWriter, writer_new,
  writer_running, writer_closed, waiting, exited, data_queue_depth,
}
use syncat.Wire.Sent.{non_urgent, IsPast}

abbrev pub AllUrgent : List Queued → Type 0
AllUrgent [] = Unit
AllUrgent (x ∷ xs) = (is_urgent x.typ ≡ true) × AllUrgent xs

-- The frame was written, or the writer is gone, or the frame still heads the bulk lane, behind a
-- burst of at most `bound` at the last `select` and of one more elsewhere. Since `old` was all that
-- was sent and the burst was `found`, each frame sent that is not urgent counts in the burst.
pub data Awaits (old : List Queued) (bound found : ℕ) (q : Queued) (w : StreamWriter) : Type 0 where
  written : IsPast old q w.sent → Awaits old bound found q w
  gone : w.phase ≡ exited → Awaits old bound found q w
  behind :
      (rest between : List Queued)
      → w.data_queue ≡ q ∷ rest
      → w.sent ≡ between ++ old
      → AllUrgent w.urgent
      → non_urgent between + found ≤ w.burst
      → w.burst ≤ suc bound
      → (w.phase ≡ waiting → w.burst ≤ bound)
      → Awaits old bound found q w

AllUrgent-snoc :
    (xs : List Queued) (x : Queued)
    → AllUrgent xs
    → is_urgent x.typ ≡ true
    → AllUrgent (xs ++ x ∷ [])
AllUrgent-snoc [] x h u = (u, tt)
AllUrgent-snoc (y ∷ xs) x h u = (h.0, AllUrgent-snoc xs x h.1 u)

-- Nothing is written, and the bulk lane only grows.
pub record Keeps (w v : StreamWriter) : Type 0 where
  pub same_sent : v.sent ≡ w.sent
  pub same_phase : v.phase ≡ w.phase
  pub same_burst : v.burst ≡ w.burst
  pub more : List Queued
  pub grown : v.data_queue ≡ w.data_queue ++ more
  pub urgents : AllUrgent w.urgent → AllUrgent v.urgent

append-nil : (qs : List Queued) → qs ≡ qs ++ []
append-nil [] = refl
append-nil (q ∷ qs) = ap (◌∷◌ q) (append-nil qs)

pub Keeps-Awaits :
    (old : List Queued) (bound found : ℕ) (q : Queued) (w v : StreamWriter)
    → Keeps w v
    → Awaits old bound found q w
    → Awaits old bound found q v
Keeps-Awaits old bound found q w v k (written h) = written (rw k.same_sent h)
Keeps-Awaits old bound found q w v k (gone h) = gone (k.same_phase ∙ h)
Keeps-Awaits old bound found q w v k (behind rest between e s u count small calm) =
    behind (rest ++ k.more) between (k.grown ∙ ap (λ qs. qs ++ k.more) e) (k.same_sent ∙ s)
      (k.urgents u) (rw k.same_burst count) (rw k.same_burst small)
      (λ p. rw k.same_burst (calm (sym k.same_phase ∙ p)))

if-Keeps : (b : Bool) (w x y : StreamWriter) → Keeps w x → Keeps w y → Keeps w (if b then x else y)
if-Keeps true w x y k l = k
if-Keeps false w x y k l = l

pub still :
    (w v : StreamWriter)
    → v.sent ≡ w.sent
    → v.phase ≡ w.phase
    → v.burst ≡ w.burst
    → v.data_queue ≡ w.data_queue
    → (AllUrgent w.urgent → AllUrgent v.urgent)
    → Keeps w v
still w v s p b d u = record {
  same_sent = s;
  same_phase = p;
  same_burst = b;
  more = [];
  grown = d ∙ append-nil w.data_queue;
  urgents = u;
}

urgent-Keeps :
    (q : Queued) (w : StreamWriter) (c : Bool)
    → is_urgent q.typ ≡ c
    → Keeps w (
        if c
        then (if ltb (length w.urgent) urgent_queue_depth
            then record w { urgent = w.urgent ++ q ∷ [] }
            else fail w)
        else if ltb (length w.ctrl) ctrl_queue_depth
        then record w { ctrl = w.ctrl ++ q ∷ [] }
        else w)
urgent-Keeps q w true u =
    if-Keeps (ltb (length w.urgent) urgent_queue_depth) w _ _
      (still w _ refl refl refl refl (λ h. AllUrgent-snoc w.urgent q h u))
      (still w _ refl refl refl refl (λ h. h))
urgent-Keeps q w false u =
    if-Keeps (ltb (length w.ctrl) ctrl_queue_depth) w _ _ (still w _ refl refl refl refl (λ h. h))
      (still w w refl refl refl refl (λ h. h))

pub enqueue-Keeps : (q : Queued) (w : StreamWriter) → Keeps w (enqueue q w)
unfolding enqueue
enqueue-Keeps q w =
    let same = still w w refl refl refl refl (λ h. h) in
    if-Keeps (w.failed || not (is_running w.state)) w _ _ same (
      if-Keeps (is_bulk q.typ) w _ _
        (if-Keeps (ltb (length w.data_queue) data_queue_depth) w _ _
          (record {
            same_sent = refl;
            same_phase = refl;
            same_burst = refl;
            more = q ∷ [];
            grown = refl;
            urgents = λ h. h;
          })
          same)
        (urgent-Keeps q w (is_urgent q.typ) refl))

pub enqueue_latest-Keeps :
    (key : Bytes) (q : Queued) (w : StreamWriter) → Keeps w (enqueue_latest key q w)
unfolding enqueue_latest
enqueue_latest-Keeps key q w =
    let same = still w w refl refl refl refl (λ h. h) in
    if-Keeps _ w _ _ same (
      if-Keeps (has w.latest_frames key) w _ _ (still w _ refl refl refl refl (λ h. h)) (
        if-Keeps (ltb (length w.latest) ctrl_queue_depth) w _ _
          (still w _ refl refl refl refl (λ h. h)) same))

pub start_from-Keeps : (s : StreamWriterState) (w : StreamWriter) → Keeps w (start_from s w)
start_from-Keeps writer_new w = still w _ refl refl refl refl (λ h. h)
start_from-Keeps writer_running w = still w w refl refl refl refl (λ h. h)
start_from-Keeps writer_closed w = still w w refl refl refl refl (λ h. h)

module _ (old : List Queued) (bound found : ℕ) (q : Queued) where
  -- A frame off another lane: an urgent one, or one that counts.
  wrote-Awaits :
      (x : Queued) (rest between : List Queued) (wrote : Bool) (w : StreamWriter)
      → w.data_queue ≡ q ∷ rest
      → w.sent ≡ between ++ old
      → AllUrgent w.urgent
      → non_urgent (x ∷ between) + found ≤ w.burst
      → w.burst ≤ suc bound
      → Awaits old bound found q (write_frame wrote x w)
  unfolding write_frame
  wrote-Awaits x rest between true w e s u count small =
      behind rest (x ∷ between) e (ap (◌∷◌ x) s) u count small (λ p. cc (p))
  wrote-Awaits x rest between false w e s u count small = gone refl

  -- A step of the writer that takes a frame off a lane other than the bulk one, while `q` heads that.
  pub poll_urgent-Awaits :
      (rest between : List Queued) (wrote : Bool) (qs : List Queued) (w : StreamWriter)
      → w.data_queue ≡ q ∷ rest
      → w.sent ≡ between ++ old
      → AllUrgent qs
      → AllUrgent w.urgent
      → non_urgent between + found ≤ w.burst
      → w.burst ≤ suc bound
      → Awaits old bound found q (poll_urgent wrote qs w)
  unfolding poll_urgent
  poll_urgent-Awaits rest between wrote [] w e s v u count small =
      behind rest between e s u count small (λ p. cc (p))
  poll_urgent-Awaits rest between wrote (x ∷ qs) w e s v u count small =
      wrote-Awaits x rest between wrote (record w { urgent = qs }) e s v.1
        (ground (arith, v.0, count)) small

  pub take_data-Awaits :
      (rest between : List Queued) (wrote : Bool) (w : StreamWriter)
      → w.sent ≡ between ++ old
      → non_urgent between ≤ 9
      → Awaits old bound found q (take_data wrote (q ∷ rest) w)
  unfolding take_data write_frame
  take_data-Awaits rest between true w s few = written ([], between, ap (◌∷◌ q) s, few)
  take_data-Awaits rest between false w s few = gone refl

  pub check_burst-Awaits :
      (rest between : List Queued) (wrote : Bool) (w : StreamWriter)
      → max_control_burst ≤ bound
      → non_urgent between ≤ 9
      → w.data_queue ≡ q ∷ rest
      → w.sent ≡ between ++ old
      → AllUrgent w.urgent
      → non_urgent between + found ≤ w.burst
      → w.burst ≤ suc bound
      → Awaits old bound found q (check_burst wrote (q ∷ rest) w)
  unfolding check_burst
  check_burst-Awaits rest between wrote w wide few e s u count small =
      elim (Bool-cases (leb max_control_burst w.burst)) [
        | inl h ↦ rw (h, check_burst) (take_data-Awaits rest between wrote w s few)
        | inr h ↦
            rw (h, check_burst)
              (behind rest between e s u count small (λ p. ground (arith, h, wide)))
      ]

  pub take_urgent-Awaits :
      (rest between : List Queued) (wrote : Bool) (qs : List Queued) (w : StreamWriter)
      → w.data_queue ≡ q ∷ rest
      → w.sent ≡ between ++ old
      → AllUrgent qs
      → AllUrgent w.urgent
      → non_urgent between + found ≤ w.burst
      → w.burst ≤ bound
      → Awaits old bound found q (take_urgent wrote qs w)
  unfolding take_urgent
  take_urgent-Awaits rest between wrote [] w e s v u count small =
      behind rest between e s u count (omega (arith, small)) (λ p. small)
  take_urgent-Awaits rest between wrote (x ∷ qs) w e s v u count small =
      wrote-Awaits x rest between wrote (record w { urgent = qs }) e s v.1
        (ground (arith, v.0, count)) (omega (arith, small))

  counted :
      (x : Queued) (between : List Queued) (burst : ℕ)
      → non_urgent between + found ≤ burst
      → non_urgent (x ∷ between) + found ≤ burst + 1
  counted x between burst count = elim (Bool-cases (is_urgent x.typ)) [
    | inl h ↦ rw h (omega (arith, count))
    | inr h ↦ rw h (omega (arith, count))
  ]

  pub take_ctrl-Awaits :
      (rest between : List Queued) (wrote : Bool) (qs : List Queued) (w : StreamWriter)
      → w.data_queue ≡ q ∷ rest
      → w.sent ≡ between ++ old
      → AllUrgent w.urgent
      → non_urgent between + found ≤ w.burst
      → w.burst ≤ bound
      → Awaits old bound found q (take_ctrl wrote qs w)
  unfolding take_ctrl
  take_ctrl-Awaits rest between wrote [] w e s u count small =
      behind rest between e s u count (omega (arith, small)) (λ p. small)
  take_ctrl-Awaits rest between wrote (x ∷ qs) w e s u count small =
      wrote-Awaits x rest between wrote (record w { ctrl = qs; burst = w.burst + 1 }) e s u
        (counted x between w.burst count) (omega (arith, small))

  pub take_latest-Awaits :
      (rest between : List Queued) (wrote : Bool) (keys : List Bytes) (w : StreamWriter)
      → w.data_queue ≡ q ∷ rest
      → w.sent ≡ between ++ old
      → AllUrgent w.urgent
      → non_urgent between + found ≤ w.burst
      → w.burst ≤ bound
      → Awaits old bound found q (take_latest wrote keys w)
  unfolding take_latest
  take_latest-Awaits rest between wrote [] w e s u count small =
      behind rest between e s u count (omega (arith, small)) (λ p. small)
  take_latest-Awaits rest between wrote (key ∷ keys) w e s u count small =
      elim (Option-cases (find w.latest_frames key)) [
        | inl h ↦
            rw (h, take_latest)
              (behind rest between e s u count (omega (arith, small)) (λ p. cc (p)))
        | inr (x, h) ↦
            rw (h, take_latest)
              (wrote-Awaits x rest between wrote
                (record w {
                  latest = keys;
                  latest_frames = delete key w.latest_frames;
                  burst = w.burst + 1;
                })
                e s u (counted x between w.burst count) (omega (arith, small)))
      ]
