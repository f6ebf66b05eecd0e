-- ===== src/Transfer/Serve.antt =====
-- `transferResponse`, `streamFile` and `handleFileRequest` of internal/sync/transfer.go. What the
-- writer answers to a frame, what the file system answers, the hash and the share's index are
-- parameters: their answers at the time of the call.
use syncat.Prelude.{
  ◌==◌, if◌then◌else◌, length, Bytes, codes, bytes_eq, ℤ, int_eq, pos, ℕ, ◌+◌, Bool, true, false,
  ◌&&◌, ◌||◌, not, Option, none, some, List, [], ◌∷◌, ◌++◌,
}
use syncat.Vector.{VersionVector, equal}
use syncat.Reconcile.{file_type_symlink, FileInfo}
use syncat.Reconcile.Pass.{IgnoreFunc, is_ignored}
use syncat.Path.Join.{join_share_path, Stat, Joined, ok, err}
use syncat.Wire.{FileRequest}
use syncat.Transfer.{TransferFrame, chunk, failure}

abbrev pub file_not_found : Bytes
file_not_found = codes "file_not_found"

abbrev pub version_changed : Bytes
version_changed = codes "version_changed"

abbrev pub unsupported_offset : Bytes
unsupported_offset = codes "unsupported_offset"

abbrev pub transfer_failed : Bytes
transfer_failed = codes "transfer_failed"

-- What the writer answers; `write_cancelled` is the error of a cancelled context.
pub data WriteResult : Type 0 where
  sent write_failed write_cancelled : WriteResult

-- A `transferResponse`, and the frames that it has written.
pub record Response : Type 0 where
  pub req : FileRequest
  pub version : VersionVector
  pub offset : ℕ
  pub terminal : Bool
  pub frames : List TransferFrame

abbrev pub new_response : FileRequest → Response
new_response req = record { req = req; version = []; offset = 0; terminal = false; frames = [] }

abbrev pub chunk_frame : Response → Bytes → Bool → TransferFrame
chunk_frame r bytes eof =
    chunk
      (record {
        transfer_id = r.req.transfer_id;
        share_id = r.req.share_id;
        rel_path = r.req.rel_path;
        version = r.version;
        offset = pos r.offset;
        eof = eof;
      })
      bytes

abbrev pub after_send : WriteResult → Bytes → Response → Response × WriteResult
after_send sent bytes r = (
  record r {
    offset = r.offset + length bytes;
    frames = r.frames ++ chunk_frame r bytes false ∷ [];
  },
  sent,
)
after_send write_failed bytes r = (r, write_failed)
after_send write_cancelled bytes r = (r, write_cancelled)

abbrev pub after_finish : WriteResult → Response → Response × WriteResult
after_finish sent r =
    (record r { terminal = true; frames = r.frames ++ chunk_frame r [] true ∷ [] }, sent)
after_finish write_failed r = (r, write_failed)
after_finish write_cancelled r = (r, write_cancelled)

abbrev pub frames_after : WriteResult → List TransferFrame → TransferFrame → List TransferFrame
frames_after sent frames frame = frames ++ frame ∷ []
frames_after write_failed frames frame = frames
frames_after write_cancelled frames frame = frames

-- A read of the file: so many bytes, and what `readErr` says.
pub data ReadStatus : Type 0 where
  more end_of_file read_failed : ReadStatus

pub record ReadResult : Type 0 where
  pub bytes : Bytes
  pub status : ReadStatus

-- `Size` and `ModTime` of a file.
pub record FileStat : Type 0 where
  pub size : ℤ
  pub mtime_ns : ℤ

-- The errors of `streamFile`; `none` is success.
pub data StreamError : Type 0 where
  stream_cancelled file_changed stream_broken : StreamError

abbrev pub write_error : WriteResult → Option StreamError
write_error sent = none
write_error write_failed = some stream_broken
write_error write_cancelled = some stream_cancelled

-- The state of the loop when it is left: the response, the bytes that were read, and the error.
pub record Streamed : Type 0 where
  pub response : Response
  pub content : Bytes
  pub error : Option StreamError

-- The end of a turn: a failed write and a failed read leave the loop, as the end of the file does.
abbrev pub turn_end : Option StreamError → ReadStatus → Response → Bytes → Streamed → Streamed
turn_end (some e) status r all rest = record { response = r; content = all; error = some e }
turn_end none end_of_file r all rest = record { response = r; content = all; error = none }
turn_end none read_failed r all rest = record {
  response = r;
  content = all;
  error = some stream_broken;
}
turn_end none more r all rest = rest

-- Everything that a request finds.
pub record Served : Type 0 where
  -- Another transfer has the id.
  pub duplicate : Bool
  -- The share, if the session has it.
  pub known : Bool
  pub outbound_blocked : Bool
  pub root : Bytes
  pub ignore : IgnoreFunc
  -- `GetFile`, tombstones included.
  pub row : Option FileInfo
  pub lstat : Bytes → Stat
  -- `openInShare` succeeds.
  pub opened : Bool
  pub before : Option FileStat
  -- The reads until the end of the file, an error, or the cancelled context.
  pub reads : List ReadResult
  pub after : Option FileStat

abbrev pub is_joined : Joined → Bool
is_joined (ok p) = true
is_joined (err e) = false

module _ (link : List TransferFrame → TransferFrame → WriteResult) (sha256 : Bytes → Bytes) where
  -- `send`
  unfoldable pub send : Bytes → Response → Response × WriteResult
  send bytes r =
      let frame = chunk_frame r bytes false in
      if r.terminal then (r, write_failed) else after_send (link r.frames frame) bytes r

  -- `finish`
  unfoldable pub finish : Response → Response × WriteResult
  finish r =
      let frame = chunk_frame r [] true in
      if r.terminal then (r, write_failed) else after_finish (link r.frames frame) r

  -- `fail`; the text of the error is left out.
  unfoldable pub fail : Bytes → Response → Response
  fail code r =
      let frame = failure (record {
        code = code;
        msg = [];
        share_id = r.req.share_id;
        rel_path = r.req.rel_path;
        transfer_id = r.req.transfer_id;
      }) in
      if r.terminal
      then r
      else record r { terminal = true; frames = frames_after (link r.frames frame) r.frames frame }

  -- A read with no bytes sends nothing.
  abbrev pub send_read : Bytes → Response → Response × WriteResult
  send_read [] r = (r, sent)
  send_read (b ∷ bytes) r = send (b ∷ bytes) r

  unfoldable pub stream_reads : List ReadResult → Bytes → Response → Streamed
  unfolding send
  stream_reads [] content r = record {
    response = r;
    content = content;
    error = some stream_cancelled;
  }
  stream_reads (read ∷ reads) content r =
      let out = send_read read.bytes r in
      let all = content ++ read.bytes in
      turn_end (write_error out.1) read.status out.0 all (stream_reads reads all out.0)

  abbrev pub same_stat : FileStat → FileStat → Bool
  same_stat a b = int_eq a.size b.size && int_eq a.mtime_ns b.mtime_ns

  -- The part after the loop.
  unfoldable pub end_stream :
      FileInfo → FileStat → Option FileStat → Bytes → Response → Response × Option StreamError
  unfolding finish
  end_stream row before none content r = (r, some stream_broken)
  end_stream row before (some after) content r =
      let out = finish r in
      if not (same_stat after before)
        || not (int_eq (pos (length content)) row.size)
        || not (bytes_eq (sha256 content) row.sha256)
      then (r, some file_changed)
      else if not (r.offset == length content)
      then (r, some stream_broken)
      else (out.0, write_error out.1)

  abbrev pub end_unless :
      Option StreamError
      → FileInfo
      → FileStat
      → Option FileStat
      → Streamed
      → Response × Option StreamError
  end_unless (some e) row before after s = (s.response, some e)
  end_unless none row before after s = end_stream row before after s.content s.response

  abbrev pub after_reads :
      FileInfo → FileStat → Option FileStat → Streamed → Response × Option StreamError
  after_reads row before after s = end_unless s.error row before after s

  -- `before` is what `Stat` says first.
  abbrev pub stream_from :
      Option FileStat → FileInfo → Served → Response → Response × Option StreamError
  stream_from none row served r = (r, some stream_broken)
  stream_from (some before) row served r =
      let streamed = after_reads row before served.after (stream_reads served.reads [] r) in
      if not (same_stat before (record { size = row.size; mtime_ns = row.mtime_ns }))
      then (r, some file_changed)
      else streamed

  unfoldable pub stream_file : FileInfo → Served → Response → Response × Option StreamError
  unfolding stream_reads end_stream
  stream_file row served r = stream_from served.before row served r

  abbrev pub report : Response × Option StreamError → Response
  report (r, none) = r
  report (r, some stream_cancelled) = r
  report (r, some file_changed) = fail version_changed r
  report (r, some stream_broken) = fail transfer_failed r

  -- The part of `handleFileRequest` for a row that it may serve.
  unfoldable pub serve_row : FileInfo → Served → FileRequest → Response → Response
  unfolding fail stream_file
  serve_row row served req r =
      let versioned = record r { version = row.version } in
      if not (equal row.version req.version)
      then fail version_changed r
      else if not (is_joined (join_share_path served.lstat served.root req.rel_path))
      then fail file_not_found versioned
      else if bytes_eq row.type file_type_symlink
      then fail file_not_found versioned
      else if not served.opened
      then fail file_not_found versioned
      else report (stream_file row served versioned)

  abbrev pub serve_found : Option FileInfo → Served → FileRequest → Response → Response
  serve_found none served req r = fail file_not_found r
  serve_found (some row) served req r =
      if row.deleted then fail file_not_found r else serve_row row served req r

  -- `handleFileRequest`
  unfoldable pub handle_file_request : FileRequest → Served → Response
  unfolding fail serve_row
  handle_file_request req served =
      let r = new_response req in
      if not (int_eq req.offset (pos 0))
      then fail unsupported_offset r
      else if served.duplicate
      then fail transfer_failed r
      else if not served.known || served.outbound_blocked
      then fail file_not_found r
      else if is_ignored served.ignore req.rel_path false
      then fail file_not_found r
      else serve_found served.row served req r
