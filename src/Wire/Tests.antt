-- ===== src/Wire/Tests.antt =====
-- The theorems on the wire at messages, frames and events that meet their hypotheses.
use syncat.Path.Split.{split, join}
use syncat.Prelude.{
  length, All, Bytes, codes, bytes_eq, has_prefix, contains_byte, has, pos, suc, ◌+◌, ◌≤◌, ◌≡◌,
  refl, ◌≢◌, ◌↔◌, Bool, true, false, Option, none, some, List, [], ◌∷◌, ◌++◌, arith, bytes_key,
}
use syncat.Reconcile.{FileInfo}
use syncat.Wire.{
  IndexDeltaBatch, IndexSnapshotBatch, IndexUpdate, not_normalized, index_update,
  index_snapshot_batch, index_delta_batch,
}
use syncat.Wire.Frame.{encode_frame, read_frame, read_frame-encode_frame, frame}
use syncat.Wire.Text.{has_control_rune, resolve_relative, validate_wire_path}
use syncat.Wire.Check.{max_wire_collection, validate_message}
use syncat.Wire.Delta.{CountsFrom, accepted_delta_counts}
use syncat.Wire.Files.{accepted_files, IsWireFile}
use syncat.Wire.Stream.{
  new_stream_writer, moves, Queued, StreamWriter, Move, ctrl_lane, enqueues, enqueues_latest, turns,
  starts,
}
use syncat.Wire.Awaits.{AllUrgent}
use syncat.Wire.Progress.{bulk_not_starved, Passed}
use syncat.Wire.Keepalive.{
  run, IsHeard, closes_connection, keepalive_open_iff, Keepalive, Event, sent, received, tick,
  on_ping, on_dead,
}
use syncat.Wire.Handshake.{
  is_all_zero, negotiate_version, validate_peer_hello, admitted_hello, Hello,
}

abbrev photos : Bytes
photos = codes "a1b2c3d4e5f60718"

abbrev hash : Bytes
hash = codes "0123456789abcdef0123456789abcdef"

abbrev notes : FileInfo
notes = record {
  rel_path = codes "docs/notes.txt";
  type = codes "file";
  size = pos 5;
  mtime_ns = pos 1;
  mode = 0o644;
  sha256 = hash;
  version = (codes "00000000000000ab", 3) ∷ [];
  deleted = false;
}

abbrev delta : IndexDeltaBatch
delta = record {
  share_id = photos;
  epoch = codes "e";
  from_seq = 4;
  to_seq = 5;
  entries = record { seq = 4; file = notes } ∷ record { seq = 5; file = notes } ∷ [];
}

abbrev update : IndexUpdate
update = record { share_id = photos; files = notes ∷ []; full = true }

abbrev batch : IndexSnapshotBatch
batch = record { share_id = photos; snapshot_id = codes "s"; batch = 0; files = notes ∷ [] }

abbrev the_payload : Bytes
the_payload = 1 ∷ 2 ∷ []

abbrev small_frame : Bytes
small_frame = 0 ∷ 0 ∷ 0 ∷ 3 ∷ 7 ∷ 1 ∷ 2 ∷ []

accepts_delta : validate_message (index_delta_batch delta) ≡ none
unfolding validate_message bytes_eq has_control_rune contains_byte has_prefix resolve_relative split
    join
accepts_delta = refl

accepts_update : validate_message (index_update update) ≡ none
unfolding validate_message bytes_eq has_control_rune contains_byte has_prefix resolve_relative split
    join
accepts_update = refl

accepts_batch : validate_message (index_snapshot_batch batch) ≡ none
unfolding validate_message bytes_eq has_control_rune contains_byte has_prefix resolve_relative split
    join
accepts_batch = refl

refuses_dot : validate_wire_path (codes "a/./b") ≡ some not_normalized
unfolding validate_wire_path bytes_eq has_control_rune contains_byte has_prefix resolve_relative
    split join
refuses_dot = refl

encodes : encode_frame 7 (1 ∷ 2 ∷ []) ≡ some small_frame
unfolding encode_frame
encodes = refl

reads : read_frame (small_frame ++ 9 ∷ []) ≡ frame 7 (1 ∷ 2 ∷ []) (9 ∷ [])
unfolding read_frame
reads = refl

read_frame-encode_frame_example : read_frame (small_frame ++ 9 ∷ []) ≡ frame 7 (1 ∷ 2 ∷ []) (9 ∷ [])
read_frame-encode_frame_example =
    read_frame-encode_frame 7 (1 ∷ 2 ∷ []) small_frame (9 ∷ []) encodes

accepted_delta_counts_example :
    (1 ≤ length delta.entries)
    × (1 ≤ delta.from_seq)
    × (4 + length delta.entries ≡ suc 5)
    × CountsFrom 4 delta.entries
accepted_delta_counts_example = accepted_delta_counts delta (omega arith) accepts_delta

accepted_files_example :
    (length update.files ≤ max_wire_collection)
    × All IsWireFile update.files
    × (length batch.files ≤ max_wire_collection)
    × All IsWireFile batch.files
accepted_files_example = accepted_files update batch accepts_update accepts_batch

abbrev fresh : Keepalive
fresh = record { ping_interval = 30; dead_after = 90; last_sent = 0; last_recv = 0 }

abbrev quiet_peer : List Event
quiet_peer = tick 40 ∷ sent 40 ∷ received 41 ∷ tick 130 ∷ tick 131 ∷ []

pings_then_dies : run quiet_peer fresh ≡ on_ping 40 ∷ on_ping 130 ∷ on_dead 131 ∷ []
unfolding run
pings_then_dies = refl

keepalive_open_iff_example :
    (closes_connection (run quiet_peer fresh) ≡ false) ↔ IsHeard 90 0 quiet_peer
keepalive_open_iff_example = keepalive_open_iff quiet_peer fresh

-- A token here is the id itself.
abbrev plain_token : Bytes → Option Bytes
plain_token t = some t

abbrev knows_all : Bytes → Bool
knows_all key = true

abbrev hello : Hello
hello = record {
  proto_version = pos 3;
  node_name = codes "n";
  ed25519_pub = hash;
  token = hash;
  nonce = hash;
}

admits : validate_peer_hello plain_token knows_all (pos 2) (pos 1) hello ≡ none
unfolding validate_peer_hello bytes_eq
admits = refl

admitted_hello_example :
    (length hash ≡ 32)
    × (is_all_zero hash ≡ false)
    × (length hash ≡ 32)
    × (plain_token hash ≡ some hash)
    × (knows_all hash ≡ true)
    × (negotiate_version (pos 2) (pos 1) (pos 3) ≢ none)
admitted_hello_example = admitted_hello plain_token knows_all (pos 2) (pos 1) hello admits

abbrev chunk : Queued
chunk = record { typ = 8; bytes = codes "chunk" }

abbrev pong : Queued
pong = record { typ = 10; bytes = codes "pong" }

abbrev access : Queued
access = record { typ = 5; bytes = codes "access" }

-- A chunk, a control frame and a pong are queued; the pong goes out first.
abbrev some_moves : List Move
some_moves =
    starts
    ∷ enqueues chunk
    ∷ enqueues access
    ∷ enqueues pong
    ∷ enqueues_latest (codes "k") access
    ∷ turns ctrl_lane true
    ∷ turns ctrl_lane true
    ∷ turns ctrl_lane true
    ∷ turns ctrl_lane true
    ∷ []

abbrev one_chunk : StreamWriter
one_chunk = moves (starts ∷ enqueues chunk ∷ []) new_stream_writer

pong_first : (moves some_moves new_stream_writer).sent ≡ access ∷ pong ∷ []
unfolding moves bytes_eq new_stream_writer has
pong_first = refl

queues_chunk : one_chunk.data_queue ≡ chunk ∷ []
unfolding moves new_stream_writer
queues_chunk = refl

no_urgent : AllUrgent one_chunk.urgent
unfolding moves new_stream_writer
no_urgent = tt

bulk_not_starved_example : Passed one_chunk.sent chunk (moves some_moves one_chunk)
bulk_not_starved_example = bulk_not_starved some_moves one_chunk chunk [] queues_chunk no_urgent
