-- ===== src/Wire/Fairness.antt =====
-- What the lanes of the session writer promise: bounds, and progress of bulk frames.
use syncat.Prelude.{
  leb, if◌then◌else◌, Bool-cases, Option-cases, length, length-append, Bytes, find, delete, ◌+◌,
  ◌≤◌, inl, inr, Bool, true, false, List, [], ◌∷◌, arith, bytes_key,
}
use syncat.Wire.Stream.{
  urgent_queue_depth, ctrl_queue_depth, max_control_burst, new_stream_writer, start_from, enqueue,
  enqueue_latest, write_frame, poll_urgent, take_data, check_burst, take_urgent, take_ctrl,
  take_latest, take_lane, turn, leave, move, moves, Queued, StreamWriterState, Phase, Lane,
  StreamWriter, Move, writer_new, writer_running, writer_closed, polling, checking, waiting, exited,
  urgent_lane, ctrl_lane, latest_lane, data_lane, enqueues, enqueues_latest, turns, leaves, starts,
  closes, fails, data_queue_depth,
}

-- No lane is over its depth: urgent, control, latest state, bulk.
abbrev pub IsBounded : StreamWriter → Type 0
IsBounded w =
    (length w.urgent ≤ urgent_queue_depth)
    × (length w.ctrl ≤ ctrl_queue_depth)
    × (length w.latest ≤ ctrl_queue_depth)
    × (length w.data_queue ≤ data_queue_depth)

enqueue-IsBounded : (q : Queued) (w : StreamWriter) → IsBounded w → IsBounded (enqueue q w)
unfolding enqueue
enqueue-IsBounded q w b =
    let grown_urgent = length-append w.urgent (q ∷ []) in
    let grown_ctrl = length-append w.ctrl (q ∷ []) in
    let grown_data = length-append w.data_queue (q ∷ []) in
    (
      ground (arith, b.0, grown_urgent),
      ground (arith, b.1, grown_ctrl),
      ground (arith, b.2),
      ground (arith, b.3, grown_data),
    )

enqueue_latest-IsBounded :
    (key : Bytes) (q : Queued) (w : StreamWriter) → IsBounded w → IsBounded (enqueue_latest key q w)
unfolding enqueue_latest
enqueue_latest-IsBounded key q w b =
    let grown = length-append w.latest (key ∷ []) in
    (ground (arith, b.0), ground (arith, b.1), ground (arith, b.2, grown), ground (arith, b.3))

write_frame-IsBounded :
    (wrote : Bool) (q : Queued) (w : StreamWriter) → IsBounded w → IsBounded (write_frame wrote q w)
unfolding write_frame
write_frame-IsBounded true q w b = b
write_frame-IsBounded false q w b = b

poll_urgent-IsBounded :
    (wrote : Bool) (qs : List Queued) (w : StreamWriter)
    → length qs ≤ urgent_queue_depth
    → IsBounded w
    → IsBounded (poll_urgent wrote qs w)
unfolding poll_urgent
poll_urgent-IsBounded wrote [] w few b = b
poll_urgent-IsBounded wrote (q ∷ qs) w few b =
    write_frame-IsBounded wrote q (record w { urgent = qs }) (omega (arith, few), b.1, b.2, b.3)

take_data-IsBounded :
    (wrote : Bool) (qs : List Queued) (w : StreamWriter)
    → length qs ≤ data_queue_depth
    → IsBounded w
    → IsBounded (take_data wrote qs w)
unfolding take_data
take_data-IsBounded wrote [] w few b = b
take_data-IsBounded wrote (q ∷ qs) w few b =
    write_frame-IsBounded wrote q (record w { data_queue = qs; burst = 0 })
      (b.0, b.1, b.2, omega (arith, few))

check_burst-IsBounded :
    (wrote : Bool) (qs : List Queued) (w : StreamWriter)
    → length qs ≤ data_queue_depth
    → IsBounded w
    → IsBounded (check_burst wrote qs w)
unfolding check_burst
check_burst-IsBounded wrote [] w few b = b
check_burst-IsBounded wrote (q ∷ qs) w few b = elim (Bool-cases (leb max_control_burst w.burst)) [
  | inl e ↦ rw e (take_data-IsBounded wrote (q ∷ qs) w few b)
  | inr e ↦ rw e b
]

take_urgent-IsBounded :
    (wrote : Bool) (qs : List Queued) (w : StreamWriter)
    → length qs ≤ urgent_queue_depth
    → IsBounded w
    → IsBounded (take_urgent wrote qs w)
unfolding take_urgent
take_urgent-IsBounded wrote [] w few b = b
take_urgent-IsBounded wrote (q ∷ qs) w few b =
    write_frame-IsBounded wrote q (record w { urgent = qs }) (omega (arith, few), b.1, b.2, b.3)

take_ctrl-IsBounded :
    (wrote : Bool) (qs : List Queued) (w : StreamWriter)
    → length qs ≤ ctrl_queue_depth
    → IsBounded w
    → IsBounded (take_ctrl wrote qs w)
unfolding take_ctrl
take_ctrl-IsBounded wrote [] w few b = b
take_ctrl-IsBounded wrote (q ∷ qs) w few b =
    write_frame-IsBounded wrote q (record w { ctrl = qs; burst = w.burst + 1 })
      (b.0, omega (arith, few), b.2, b.3)

take_latest-IsBounded :
    (wrote : Bool) (keys : List Bytes) (w : StreamWriter)
    → length keys ≤ ctrl_queue_depth
    → IsBounded w
    → IsBounded (take_latest wrote keys w)
unfolding take_latest
take_latest-IsBounded wrote [] w few b = b
take_latest-IsBounded wrote (key ∷ keys) w few b = elim (Option-cases (find w.latest_frames key)) [
  | inl e ↦ rw (e, take_latest) (b.0, b.1, omega (arith, few), b.3)
  | inr (q, e) ↦
      rw (e, take_latest)
        (write_frame-IsBounded wrote q
          (record w {
            latest = keys;
            latest_frames = delete key w.latest_frames;
            burst = w.burst + 1;
          })
          (b.0, b.1, omega (arith, few), b.3))
]

turn-IsBounded :
    (p : Phase) (lane : Lane) (wrote : Bool) (w : StreamWriter)
    → IsBounded w
    → IsBounded (turn p lane wrote w)
unfolding turn take_lane
turn-IsBounded polling lane wrote w b = poll_urgent-IsBounded wrote w.urgent w b.0 b
turn-IsBounded checking lane wrote w b = check_burst-IsBounded wrote w.data_queue w b.3 b
turn-IsBounded waiting urgent_lane wrote w b = take_urgent-IsBounded wrote w.urgent w b.0 b
turn-IsBounded waiting ctrl_lane wrote w b = take_ctrl-IsBounded wrote w.ctrl w b.1 b
turn-IsBounded waiting latest_lane wrote w b = take_latest-IsBounded wrote w.latest w b.2 b
turn-IsBounded waiting data_lane wrote w b = take_data-IsBounded wrote w.data_queue w b.3 b
turn-IsBounded exited lane wrote w b = b

leave-IsBounded :
    (p : Phase) (stop : Bool) (w : StreamWriter) → IsBounded w → IsBounded (leave p stop w)
leave-IsBounded polling stop w b = b
leave-IsBounded checking stop w b = b
leave-IsBounded waiting true w b = b
leave-IsBounded waiting false w b = b
leave-IsBounded exited stop w b = b

start_from-IsBounded :
    (s : StreamWriterState) (w : StreamWriter) → IsBounded w → IsBounded (start_from s w)
start_from-IsBounded writer_new w b = b
start_from-IsBounded writer_running w b = b
start_from-IsBounded writer_closed w b = b

move-IsBounded : (m : Move) (w : StreamWriter) → IsBounded w → IsBounded (move m w)
unfolding move
move-IsBounded (enqueues q) w b = enqueue-IsBounded q w b
move-IsBounded (enqueues_latest key q) w b = enqueue_latest-IsBounded key q w b
move-IsBounded (turns lane wrote) w b = go w.was_started
  where
    go : (c : Bool) → IsBounded (if c then turn w.phase lane wrote w else w)
    go true = turn-IsBounded w.phase lane wrote w b
    go false = b
move-IsBounded leaves w b = leave-IsBounded w.phase w.stopped w b
move-IsBounded starts w b = start_from-IsBounded w.state w b
move-IsBounded closes w b = b
move-IsBounded fails w b = b

moves_from-IsBounded : (ms : List Move) (w : StreamWriter) → IsBounded w → IsBounded (moves ms w)
unfolding moves
moves_from-IsBounded [] w b = b
moves_from-IsBounded (m ∷ ms) w b = moves_from-IsBounded ms (move m w) (move-IsBounded m w b)

-- Whatever is queued and written in whatever order, no lane of a new writer ever holds more than
-- its depth: 8 urgent, 64 control, 64 latest-state and 4 bulk frames.
pub moves-IsBounded : (ms : List Move) → IsBounded (moves ms new_stream_writer)
unfolding new_stream_writer
moves-IsBounded ms =
    moves_from-IsBounded ms new_stream_writer (omega arith, omega arith, omega arith, omega arith)
