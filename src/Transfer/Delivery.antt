-- ===== src/Transfer/Delivery.antt =====
-- A file that stays as its row says is delivered.

use syncat.Prelude.{
  ◌==◌, if◌then◌else◌, length, Bytes, bytes_eq, bytes_eq_iff, int_eq, int_eq_iff, pos, ◌≡◌, refl,
  sym, ap, ◌∙◌, ◌≢◌, true, false, ◌&&◌, ◌||◌, not, none, some, List, [], ◌∷◌, ◌++◌, arith,
}
use syncat.Vector.{VersionVector, equal}
use syncat.Reconcile.{file_type_symlink, FileInfo}
use syncat.Reconcile.Pass.{is_ignored}
use syncat.Path.Join.{join_share_path}
use syncat.Wire.{FileRequest}
use syncat.Transfer.{TransferFrame}
use syncat.Transfer.Serve.{
  chunk_frame, after_send, after_finish, write_error, turn_end, is_joined, send, finish, send_read,
  stream_reads, end_stream, WriteResult, Response, ReadResult, FileStat, Streamed, Served, sent,
  write_failed, more, end_of_file, file_changed, stream_broken,
}
use syncat.Transfer.Chunks.{IsOpen}
use syncat.Transfer.Outcome.{if_false, send_read-Sends}
use syncat.Index.Batches.{concat, append_nil, append_assoc}

abbrev pub bytes_read : List ReadResult → Bytes
bytes_read [] = []
bytes_read (r ∷ rs) = r.bytes ++ bytes_read rs

-- The reads go on to the end of the file, and no further.
abbrev pub Complete : List ReadResult → Type 0
Complete [] = ⊥
Complete (r ∷ []) = r.status ≡ end_of_file
Complete (r ∷ s ∷ rs) = (r.status ≡ more) × Complete (s ∷ rs)

-- The request may be served, and the file is and stays as its row says.
pub record Ready (sha256 : Bytes → Bytes) (req : FileRequest) (served : Served) (row : FileInfo)
    : Type 0 where
  pub from_start : req.offset ≡ pos 0
  pub single : served.duplicate ≡ false
  pub known : served.known ≡ true
  pub admitted : served.outbound_blocked ≡ false
  pub kept : is_ignored served.ignore req.rel_path false ≡ false
  pub found : served.row ≡ some row
  pub live : row.deleted ≡ false
  pub version : equal row.version req.version ≡ true
  pub joined : is_joined (join_share_path served.lstat served.root req.rel_path) ≡ true
  pub regular : row.type ≢ file_type_symlink
  pub opened : served.opened ≡ true
  pub before : served.before ≡ some (record { size = row.size; mtime_ns = row.mtime_ns })
  pub complete : Complete served.reads
  pub after : served.after ≡ some (record { size = row.size; mtime_ns = row.mtime_ns })
  pub size : pos (length (bytes_read served.reads)) ≡ row.size
  pub hash : sha256 (bytes_read served.reads) ≡ row.sha256

module _ (link : List TransferFrame → TransferFrame → WriteResult) (sha256 : Bytes → Bytes)
    (sends : (fs : List TransferFrame) (f : TransferFrame) → link fs f ≡ sent) where
  send_read-sent :
      (bytes : Bytes) (r : Response)
      → r.terminal ≡ false
      → write_error (send_read link sha256 bytes r).1 ≡ none
  unfolding send
  send_read-sent [] r h = refl
  send_read-sent (b ∷ bytes) r h =
      let o = link r.frames (chunk_frame r (b ∷ bytes) false) in
      let all = if_false r.terminal (r, write_failed) (after_send o (b ∷ bytes) r) h in
      ap (λ (p : Response × WriteResult). write_error p.1)
        (all
          ∙ ap (λ x. after_send x (b ∷ bytes) r) (sends r.frames (chunk_frame r (b ∷ bytes) false)))

  pub stream_reads-Complete :
      (req : FileRequest) (version : VersionVector) (reads : List ReadResult) (chunks : List Bytes)
      (content : Bytes) (r : Response)
      → IsOpen req version chunks r
      → Complete reads
      → ((stream_reads link sha256 reads content r).error ≡ none)
        × ((stream_reads link sha256 reads content r).content ≡ content ++ bytes_read reads)
  unfolding stream_reads
  stream_reads-Complete req version [] chunks content r h all = absurd all
  stream_reads-Complete req version (read ∷ []) chunks content r h all =
      let out = send_read link sha256 read.bytes r in
      let more_content = content ++ read.bytes in
      let fine = send_read-sent read.bytes r h.unended in
      let left = stream_reads link sha256 [] more_content out.0 in
      let turned : turn_end (write_error out.1) read.status out.0 more_content left ≡ _ =
        λ i. turn_end (fine i) (all i) out.0 more_content left in
      (
        ap (λ (s : Streamed). s.error) turned,
        ap (λ (s : Streamed). s.content) turned
            ∙ ap (λ b. content ++ b) (sym (append_nil read.bytes)),
      )
  stream_reads-Complete req version (read ∷ second ∷ reads) chunks content r h all =
      let out = send_read link sha256 read.bytes r in
      let more_content = content ++ read.bytes in
      let fine = send_read-sent read.bytes r h.unended in
      let left = stream_reads link sha256 (second ∷ reads) more_content out.0 in
      let turned : turn_end (write_error out.1) read.status out.0 more_content left ≡ left =
        λ i. turn_end (fine i) (all.0 i) out.0 more_content left in
      let (later, still, _) = send_read-Sends link sha256 req version chunks read.bytes r h in
      let (done, gathered) =
        stream_reads-Complete req version (second ∷ reads) later more_content out.0 still all.1 in
      (
        ap (λ (s : Streamed). s.error) turned ∙ done,
        ap (λ (s : Streamed). s.content) turned
            ∙ gathered
            ∙ append_assoc content read.bytes (bytes_read (second ∷ reads)),
      )

  pub end_stream-sent :
      (req : FileRequest) (version : VersionVector) (row : FileInfo) (chunks : List Bytes)
      (content : Bytes) (r : Response)
      → IsOpen req version chunks r
      → content ≡ concat chunks
      → pos (length content) ≡ row.size
      → sha256 content ≡ row.sha256
      → let stat : FileStat = record { size = row.size; mtime_ns = row.mtime_ns } in
        end_stream link sha256 row stat (some stat) content r ≡ ((after_finish sent r).0, none)
  unfolding end_stream finish
  end_stream-sent req version row chunks content r h same size hash =
      let stat : FileStat = record { size = row.size; mtime_ns = row.mtime_ns } in
      let changed =
        not (int_eq row.size row.size && int_eq row.mtime_ns row.mtime_ns)
        || not (int_eq (pos (length content)) row.size)
        || not (bytes_eq (sha256 content) row.sha256) in
      let out = finish link sha256 r in
      let unchanged : changed ≡ false = ground (
        arith,
        int_eq_iff row.size row.size,
        int_eq_iff row.mtime_ns row.mtime_ns,
        int_eq_iff (pos (length content)) row.size,
        size,
        bytes_eq_iff (sha256 content) row.sha256,
        hash,
      ) in
      let together : not (r.offset == length content) ≡ false =
        ground (arith, h.offset, ap length same) in
      let frame = chunk_frame r [] true in
      let finished : out ≡ after_finish sent r =
        if_false r.terminal (r, write_failed) (after_finish (link r.frames frame) r) h.unended
        ∙ ap (λ o. after_finish o r) (sends r.frames frame) in
      if_false changed (r, some file_changed)
        (if not (r.offset == length content)
          then (r, some stream_broken)
          else (out.0, write_error out.1))
        unchanged
      ∙ if_false (not (r.offset == length content)) (r, some stream_broken)
          (out.0, write_error out.1) together
      ∙ ap (λ (p : Response × WriteResult). (p.0, write_error p.1)) finished
