-- ===== src/Transfer/Pull.antt =====
-- `pullFile` and `routeChunk` of internal/sync/transfer.go, for one transfer. The select's events are
-- a list, in the order in which the loop takes them; it is over when the list is. The request that
-- starts the transfer has been written; the message that cancels it is left out.
use syncat.Prelude.{
  if◌then◌else◌, length, take, Bytes, bytes_eq, ℤ, int_lt, int_eq, pos, ℕ, ◌+◌, Bool, true, false,
  ◌&&◌, not, List, [], ◌∷◌, ◌++◌,
}
use syncat.Vector.{equal}
use syncat.Wire.{FileRequest, FileChunkHeader}
use syncat.Transfer.{TransferFrame, chunk, failure}

-- What `dst.Write` does with a chunk: all of it is written, or so many bytes before an error.
pub data WriteOutcome : Type 0 where
  wrote : WriteOutcome
  wrote_only : ℕ → WriteOutcome

pub data PullEvent : Type 0 where
  arrives : FileChunkHeader → Bytes → WriteOutcome → PullEvent
  peer_fails : Bytes → PullEvent
  closes stalls cancels : PullEvent

-- How `pullFile` returns; `pulling` is a pull that still waits.
pub data PullOutcome : Type 0 where
  pulled : PullOutcome
  refused : Bytes → PullOutcome
  bad_chunk dst_failed wrong_size channel_closed stalled cancelled pulling : PullOutcome

-- `content` is what `dst` holds; `total` counts its bytes.
pub record Pull : Type 0 where
  pub content : Bytes
  pub total : ℕ
  pub outcome : PullOutcome

-- The chunk is of this transfer, and continues it.
unfoldable pub is_expected : FileRequest → FileChunkHeader → ℕ → Bool
unfolding equal
is_expected req h total =
    bytes_eq h.transfer_id req.transfer_id
    && bytes_eq h.share_id req.share_id
    && bytes_eq h.rel_path req.rel_path
    && equal h.version req.version
    && int_eq h.offset (pos total)

-- The bytes of the chunk that reach `dst`. An empty chunk is not written.
abbrev pub written : Bytes → WriteOutcome → Bytes
written bytes wrote = bytes
written bytes (wrote_only n) = take n bytes

abbrev pub write_fails : Bytes → WriteOutcome → Bool
write_fails bytes wrote = false
write_fails [] (wrote_only n) = false
write_fails (b ∷ bytes) (wrote_only n) = true

module _ (req : FileRequest) (expected_size : ℤ) where
  -- The end of the stream: a negative expected size is none.
  abbrev pub at_eof : Bytes → ℕ → Pull
  at_eof content total = record {
    content = content;
    total = total;
    outcome =
        if not (int_lt expected_size (pos 0)) && not (int_eq (pos total) expected_size)
        then wrong_size
        else pulled;
  }

  unfoldable pub pull_loop : List PullEvent → Bytes → ℕ → Pull
  unfolding is_expected
  pull_loop [] content total = record { content = content; total = total; outcome = pulling }
  pull_loop (arrives h bytes w ∷ events) content total =
      let more = content ++ written bytes w in
      let count = total + length (written bytes w) in
      let rest = pull_loop events more count in
      if not (is_expected req h total)
      then record { content = content; total = total; outcome = bad_chunk }
      else if write_fails bytes w
      then record { content = more; total = count; outcome = dst_failed }
      else if h.eof
      then at_eof more count
      else rest
  pull_loop (peer_fails code ∷ events) content total = record {
    content = content;
    total = total;
    outcome = refused code;
  }
  pull_loop (closes ∷ events) content total = record {
    content = content;
    total = total;
    outcome = channel_closed;
  }
  pull_loop (stalls ∷ events) content total = record {
    content = content;
    total = total;
    outcome = stalled;
  }
  pull_loop (cancels ∷ events) content total = record {
    content = content;
    total = total;
    outcome = cancelled;
  }

  -- The pull once its request is written.
  unfoldable pub pull_file : List PullEvent → Pull
  unfolding pull_loop
  pull_file events = pull_loop events [] 0

-- The frames that `routeChunk` hands to the pull: those of its transfer. Every write to `dst` works.
unfoldable pub route_chunks : Bytes → List TransferFrame → List PullEvent
route_chunks id [] = []
route_chunks id (chunk h bytes ∷ frames) =
    let rest = route_chunks id frames in
    if bytes_eq h.transfer_id id then arrives h bytes wrote ∷ rest else rest
route_chunks id (failure e ∷ frames) =
    let rest = route_chunks id frames in
    if bytes_eq e.transfer_id id then peer_fails e.code ∷ rest else rest
