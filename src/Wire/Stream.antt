-- ===== src/Wire/Stream.antt =====
-- The session writer of internal/protocol/stream.go: its lanes, and the goroutine that empties
-- them, as a state and the steps on it. A send on a channel with room is one step, and one that has
-- to wait changes nothing until there is room. The three `select` statements of `run` are three
-- phases, so frames may be queued between them. Which ready lane the last `select` takes, and
-- whether a write of the connection succeeds, are arguments. Counters, observers and deadlines are
-- left out, and so are the callbacks of a queued frame.
use syncat.Prelude.{
  ltb, leb, ◌==◌, if◌then◌else◌, length, Bytes, bytes_eq, Dict, find, has, insert, delete, ℕ, ◌+◌,
  Bool, true, false, ◌||◌, not, none, some, List, [], ◌∷◌, ◌++◌, bytes_key,
}

-- A built frame with its message type.
pub record Queued : Type 0 where
  pub typ : ℕ
  pub bytes : Bytes

pub data StreamWriterState : Type 0 where
  writer_new writer_running writer_closed : StreamWriterState

pub data Phase : Type 0 where
  polling : Phase
  checking : Phase
  waiting : Phase
  exited : Phase

pub data Lane : Type 0 where
  urgent_lane ctrl_lane latest_lane data_lane : Lane

-- `failed` tells whether a terminal error is recorded, `stopped` whether `stop` is closed; `sent` is
-- what reached the connection, the newest first.
pub record StreamWriter : Type 0 where
  pub urgent : List Queued
  pub ctrl : List Queued
  pub latest : List Bytes
  pub data_queue : List Queued
  pub latest_frames : Dict Bytes Queued
  pub state : StreamWriterState
  pub was_started : Bool
  pub failed : Bool
  pub stopped : Bool
  pub burst : ℕ
  pub phase : Phase
  pub sent : List Queued

abbrev pub urgent_queue_depth : ℕ
urgent_queue_depth = 8

abbrev pub ctrl_queue_depth : ℕ
ctrl_queue_depth = 64

abbrev pub data_queue_depth : ℕ
data_queue_depth = 4

abbrev pub max_control_burst : ℕ
max_control_burst = 8

abbrev pub msg_index_update : ℕ
msg_index_update = 6

abbrev pub msg_file_chunk : ℕ
msg_file_chunk = 8

abbrev pub msg_pong : ℕ
msg_pong = 10

abbrev pub msg_error : ℕ
msg_error = 11

abbrev pub msg_index_snapshot_begin : ℕ
msg_index_snapshot_begin = 14

abbrev pub msg_index_snapshot_batch : ℕ
msg_index_snapshot_batch = 15

abbrev pub msg_index_snapshot_end : ℕ
msg_index_snapshot_end = 16

abbrev pub msg_index_delta_batch : ℕ
msg_index_delta_batch = 17

abbrev pub is_urgent : ℕ → Bool
is_urgent typ = typ == msg_pong || typ == msg_error

abbrev pub is_bulk : ℕ → Bool
is_bulk typ =
    typ == msg_file_chunk
    || typ == msg_index_update
    || typ == msg_index_snapshot_begin
    || typ == msg_index_snapshot_batch
    || typ == msg_index_snapshot_end
    || typ == msg_index_delta_batch

unfoldable pub new_stream_writer : StreamWriter
new_stream_writer = record {
  urgent = [];
  ctrl = [];
  latest = [];
  data_queue = [];
  latest_frames = [];
  state = writer_new;
  was_started = false;
  failed = false;
  stopped = false;
  burst = 0;
  phase = polling;
  sent = [];
}

-- `Start`; on a writer that was started or closed it is an error and changes nothing.
abbrev pub start_from : StreamWriterState → StreamWriter → StreamWriter
start_from writer_new w = record w { state = writer_running; was_started = true }
start_from writer_running w = w
start_from writer_closed w = w

-- `Close` on a writer: what is queued is never written.
abbrev pub close : StreamWriter → StreamWriter
close w = record w { state = writer_closed; stopped = true }

abbrev pub fail : StreamWriter → StreamWriter
fail w = record w { failed = true; stopped = true }

abbrev pub is_running : StreamWriterState → Bool
is_running writer_running = true
is_running _ = false

-- `enqueue`
unfoldable pub enqueue : Queued → StreamWriter → StreamWriter
enqueue q w =
    if w.failed || not (is_running w.state)
    then w
    else if is_bulk q.typ
    then (if ltb (length w.data_queue) data_queue_depth
        then record w { data_queue = w.data_queue ++ q ∷ [] }
        else w)
    else if is_urgent q.typ
    then (if ltb (length w.urgent) urgent_queue_depth
        then record w { urgent = w.urgent ++ q ∷ [] }
        else fail w)
    else if ltb (length w.ctrl) ctrl_queue_depth
    then record w { ctrl = w.ctrl ++ q ∷ [] }
    else w

-- `WriteLatestMessageContext` and `enqueueLatest`
unfoldable pub enqueue_latest : Bytes → Queued → StreamWriter → StreamWriter
enqueue_latest key q w =
    if bytes_eq key [] || is_bulk q.typ || is_urgent q.typ || w.failed || not (is_running w.state)
    then w
    else if has w.latest_frames key
    then record w { latest_frames = insert key q w.latest_frames }
    else if ltb (length w.latest) ctrl_queue_depth
    then record w { latest = w.latest ++ key ∷ []; latest_frames = insert key q w.latest_frames }
    else w

-- `writeFrame`, and the goroutine's return where it fails.
unfoldable pub write_frame : Bool → Queued → StreamWriter → StreamWriter
write_frame true q w = record w { sent = q ∷ w.sent; phase = polling }
write_frame false q w = record (fail w) { phase = exited }

-- The first `select`: an urgent frame goes out before anything else.
unfoldable pub poll_urgent : Bool → List Queued → StreamWriter → StreamWriter
unfolding write_frame
poll_urgent wrote [] w = record w { phase = checking }
poll_urgent wrote (q ∷ qs) w = write_frame wrote q (record w { urgent = qs })

-- A bulk frame that is written ends the burst.
unfoldable pub take_data : Bool → List Queued → StreamWriter → StreamWriter
unfolding write_frame
take_data wrote [] w = w
take_data wrote (q ∷ qs) w = write_frame wrote q (record w { data_queue = qs; burst = 0 })

-- The second `select`: after a full burst a bulk frame goes out if there is one.
unfoldable pub check_burst : Bool → List Queued → StreamWriter → StreamWriter
unfolding take_data
check_burst wrote [] w = record w { phase = waiting }
check_burst wrote (q ∷ qs) w =
    if leb max_control_burst w.burst
    then take_data wrote (q ∷ qs) w
    else record w { phase = waiting }

unfoldable pub take_urgent : Bool → List Queued → StreamWriter → StreamWriter
unfolding write_frame
take_urgent wrote [] w = w
take_urgent wrote (q ∷ qs) w = write_frame wrote q (record w { urgent = qs })

unfoldable pub take_ctrl : Bool → List Queued → StreamWriter → StreamWriter
unfolding write_frame
take_ctrl wrote [] w = w
take_ctrl wrote (q ∷ qs) w = write_frame wrote q (record w { ctrl = qs; burst = w.burst + 1 })

-- `popLatest` and the write of what it finds.
unfoldable pub take_latest : Bool → List Bytes → StreamWriter → StreamWriter
unfolding write_frame
take_latest wrote [] w = w
take_latest wrote (key ∷ keys) w =
    let popped = record w { latest = keys; latest_frames = delete key w.latest_frames } in
    elim (find w.latest_frames key) [
      | none ↦ record popped { phase = polling }
      | some q ↦ write_frame wrote q (record popped { burst = w.burst + 1 })
    ]

-- The last `select`, on the lane it takes; a lane with nothing on it is not ready.
unfoldable pub take_lane : Lane → Bool → StreamWriter → StreamWriter
unfolding take_urgent take_ctrl take_latest take_data
take_lane urgent_lane wrote w = take_urgent wrote w.urgent w
take_lane ctrl_lane wrote w = take_ctrl wrote w.ctrl w
take_lane latest_lane wrote w = take_latest wrote w.latest w
take_lane data_lane wrote w = take_data wrote w.data_queue w

-- One step of `run`, by where it stands.
unfoldable pub turn : Phase → Lane → Bool → StreamWriter → StreamWriter
unfolding poll_urgent check_burst take_lane
turn polling lane wrote w = poll_urgent wrote w.urgent w
turn checking lane wrote w = check_burst wrote w.data_queue w
turn waiting lane wrote w = take_lane lane wrote w
turn exited lane wrote w = w

pub data Move : Type 0 where
  enqueues : Queued → Move
  enqueues_latest : Bytes → Queued → Move
  turns : Lane → Bool → Move
  -- `case <-s.stop` of the last `select`
  leaves starts closes fails : Move

abbrev pub leave : Phase → Bool → StreamWriter → StreamWriter
leave waiting true w = record w { phase = exited }
leave _ _ w = w

unfoldable pub move : Move → StreamWriter → StreamWriter
unfolding enqueue enqueue_latest turn
move (enqueues q) w = enqueue q w
move (enqueues_latest key q) w = enqueue_latest key q w
move (turns lane wrote) w = if w.was_started then turn w.phase lane wrote w else w
move leaves w = leave w.phase w.stopped w
move starts w = start_from w.state w
move closes w = close w
move fails w = fail w

unfoldable pub moves : List Move → StreamWriter → StreamWriter
unfolding move
moves [] w = w
moves (m ∷ ms) w = moves ms (move m w)
