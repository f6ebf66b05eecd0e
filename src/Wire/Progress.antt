-- ===== src/Wire/Progress.antt =====
-- Bulk frames of the session writer are not starved by control frames.
use mathlib.Core.Path.{subst}
use syncat.Prelude.{
  if◌then◌else◌, ℕ, suc, ◌+◌, ◌≤◌, max, ◌≡◌, refl, sym, ◌∙◌, Bool, true, false, List, [], ◌∷◌, ◌++◌,
  arith,
}
use syncat.Wire.Stream.{
  max_control_burst, close, fail, take_data, check_burst, take_lane, turn, leave, move, moves,
  Queued, Phase, Lane, StreamWriter, Move, polling, checking, waiting, exited, urgent_lane,
  ctrl_lane, latest_lane, data_lane, enqueues, enqueues_latest, turns, leaves, starts, closes,
  fails,
}
use syncat.Wire.Sent.{non_urgent, IsPast, turn-IsPast}
use syncat.Wire.Awaits.{
  AllUrgent, Keeps-Awaits, still, enqueue-Keeps, enqueue_latest-Keeps, start_from-Keeps,
  poll_urgent-Awaits, take_data-Awaits, check_burst-Awaits, take_urgent-Awaits, take_ctrl-Awaits,
  take_latest-Awaits, Awaits, written, gone, behind,
}

module _ (old : List Queued) (bound found : ℕ) (q : Queued) (wide : max_control_burst ≤ bound)
    (tight : bound ≤ max_control_burst + found) where
  turn-behind :
      (rest between : List Queued) (p : Phase) (lane : Lane) (wrote : Bool) (w : StreamWriter)
      → w.phase ≡ p
      → w.data_queue ≡ q ∷ rest
      → w.sent ≡ between ++ old
      → AllUrgent w.urgent
      → non_urgent between + found ≤ w.burst
      → w.burst ≤ suc bound
      → (w.phase ≡ waiting → w.burst ≤ bound)
      → Awaits old bound found q (turn p lane wrote w)
  unfolding turn take_lane
  turn-behind rest between polling lane wrote w at e s u count small calm =
      poll_urgent-Awaits old bound found q rest between wrote w.urgent w e s u u count small
  turn-behind rest between checking lane wrote w at e s u count small calm =
      subst (λ qs. Awaits old bound found q (check_burst wrote qs w)) (sym e)
        (check_burst-Awaits old bound found q rest between wrote w wide
          (omega (arith, count, small, tight)) e s u count small)
  turn-behind rest between waiting urgent_lane wrote w at e s u count small calm =
      take_urgent-Awaits old bound found q rest between wrote w.urgent w e s u u count (calm at)
  turn-behind rest between waiting ctrl_lane wrote w at e s u count small calm =
      take_ctrl-Awaits old bound found q rest between wrote w.ctrl w e s u count (calm at)
  turn-behind rest between waiting latest_lane wrote w at e s u count small calm =
      take_latest-Awaits old bound found q rest between wrote w.latest w e s u count (calm at)
  turn-behind rest between waiting data_lane wrote w at e s u count small calm =
      subst (λ qs. Awaits old bound found q (take_data wrote qs w)) (sym e)
        (take_data-Awaits old bound found q rest between wrote w s
          (omega (arith, count, small, tight)))
  turn-behind rest between exited lane wrote w at e s u count small calm = gone at

  turn-gone :
      (p : Phase) (lane : Lane) (wrote : Bool) (w : StreamWriter)
      → w.phase ≡ p
      → p ≡ exited
      → Awaits old bound found q (turn p lane wrote w)
  unfolding turn
  turn-gone polling lane wrote w at e = cc (e)
  turn-gone checking lane wrote w at e = cc (e)
  turn-gone waiting lane wrote w at e = cc (e)
  turn-gone exited lane wrote w at e = gone at

  turn-Awaits :
      (p : Phase) (lane : Lane) (wrote : Bool) (w : StreamWriter)
      → w.phase ≡ p
      → Awaits old bound found q w
      → Awaits old bound found q (turn p lane wrote w)
  turn-Awaits p lane wrote w at (written h) = written (turn-IsPast old q p lane wrote w h)
  turn-Awaits p lane wrote w at (gone h) = turn-gone p lane wrote w at (sym at ∙ h)
  turn-Awaits p lane wrote w at (behind rest between e s u count small calm) =
      turn-behind rest between p lane wrote w at e s u count small calm

  leave-Awaits :
      (p : Phase) (stop : Bool) (w : StreamWriter)
      → Awaits old bound found q w
      → Awaits old bound found q (leave p stop w)
  leave-Awaits polling stop w a = a
  leave-Awaits checking stop w a = a
  leave-Awaits waiting true w a = gone refl
  leave-Awaits waiting false w a = a
  leave-Awaits exited stop w a = a

  move-Awaits :
      (m : Move) (w : StreamWriter)
      → Awaits old bound found q w
      → Awaits old bound found q (move m w)
  unfolding move
  move-Awaits (enqueues x) w a = Keeps-Awaits old bound found q w _ (enqueue-Keeps x w) a
  move-Awaits (enqueues_latest key x) w a =
      Keeps-Awaits old bound found q w _ (enqueue_latest-Keeps key x w) a
  move-Awaits (turns lane wrote) w a = go w.was_started
    where
      go : (c : Bool) → Awaits old bound found q (if c then turn w.phase lane wrote w else w)
      go true = turn-Awaits w.phase lane wrote w refl a
      go false = a
  move-Awaits leaves w a = leave-Awaits w.phase w.stopped w a
  move-Awaits starts w a = Keeps-Awaits old bound found q w _ (start_from-Keeps w.state w) a
  move-Awaits closes w a =
      Keeps-Awaits old bound found q w _ (still w (close w) refl refl refl refl (λ h. h)) a
  move-Awaits fails w a =
      Keeps-Awaits old bound found q w _ (still w (fail w) refl refl refl refl (λ h. h)) a

  moves-Awaits :
      (ms : List Move) (w : StreamWriter)
      → Awaits old bound found q w
      → Awaits old bound found q (moves ms w)
  unfolding moves
  moves-Awaits [] w a = a
  moves-Awaits (m ∷ ms) w a = moves-Awaits ms (move m w) (move-Awaits m w a)

-- What becomes of a bulk frame when `old` had been sent before: it is written after at most nine
-- frames that are not urgent, or the writer is gone, or it waits and at most nine have been written.
pub data Passed (old : List Queued) (q : Queued) (w : StreamWriter) : Type 0 where
  is_written : IsPast old q w.sent → Passed old q w
  is_gone : w.phase ≡ exited → Passed old q w
  waits :
      (rest between : List Queued)
      → w.data_queue ≡ q ∷ rest
      → w.sent ≡ between ++ old
      → non_urgent between ≤ 9
      → Passed old q w

Awaits-Passed :
    (old : List Queued) (bound found : ℕ) (q : Queued) (w : StreamWriter)
    → bound ≤ max_control_burst + found
    → Awaits old bound found q w
    → Passed old q w
Awaits-Passed old bound found q w tight (written h) = is_written h
Awaits-Passed old bound found q w tight (gone h) = is_gone h
Awaits-Passed old bound found q w tight (behind rest between e s u count small calm) =
    waits rest between e s (omega (arith, count, small, tight))

-- A bulk frame at the head of its lane is not starved, where the urgent lane holds only pongs and
-- errors: whatever is queued and taken next, at most nine frames that are neither reach the
-- connection before it. Either it is written after them, or it still heads its lane, or the writer is
-- gone.
pub bulk_not_starved :
    (ms : List Move) (w : StreamWriter) (q : Queued) (rest : List Queued)
    → w.data_queue ≡ q ∷ rest
    → AllUrgent w.urgent
    → Passed w.sent q (moves ms w)
bulk_not_starved ms w q rest e urgents =
    let bound = max max_control_burst w.burst in
    let tight : bound ≤ max_control_burst + w.burst = omega arith in
    Awaits-Passed w.sent bound w.burst q (moves ms w) tight (
      moves-Awaits w.sent bound w.burst q (omega arith) tight ms w
        (behind rest [] e refl urgents (omega arith) (omega arith) (λ p. omega arith)))
