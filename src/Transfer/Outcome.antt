-- ===== src/Transfer/Outcome.antt =====
-- The frames that answer a request: chunks of the file, one after the other, and at most one frame
-- that ends them.
use mathlib.Core.Path.{subst}
use syncat.Prelude.{
  if◌then◌else◌, length, Bytes, pos, ◌≡◌, refl, sym, ap, ◌∙◌, ◌≢◌, ◌⊎◌, Bool, true, false, Option,
  none, some, List, [], ◌∷◌, ◌++◌,
}
use syncat.Vector.{VersionVector, equal}
use syncat.Reconcile.{file_type_symlink, FileInfo}
use syncat.Reconcile.Pass.{is_ignored}
use syncat.Wire.{FileRequest}
use syncat.Transfer.{TransferFrame}
use syncat.Transfer.Serve.{
  chunk_frame, after_send, write_error, turn_end, send, send_read, stream_reads, WriteResult,
  Response, ReadStatus, ReadResult, StreamError, Streamed, Served, sent, write_failed,
  write_cancelled, more, end_of_file, read_failed,
}
use syncat.Transfer.Chunks.{chunk_at, failure_frame, after_send-IsOpen, IsOpen, data_frames}
use syncat.Index.Batches.{concat, append_nil, concat-append}

-- What the file must be for its end to be sent.
pub record Verified (sha256 : Bytes → Bytes) (req : FileRequest) (served : Served) (content : Bytes)
    : Type 0 where
  pub row : FileInfo
  pub found : served.row ≡ some row
  pub live : row.deleted ≡ false
  pub version : equal row.version req.version ≡ true
  pub hash : sha256 content ≡ row.sha256
  pub size : pos (length content) ≡ row.size
  pub no_symlink : row.type ≢ file_type_symlink
  pub known : served.known ≡ true
  pub admitted : served.outbound_blocked ≡ false
  pub not_ignored : is_ignored served.ignore req.rel_path false ≡ false

-- What the loop over the reads leaves: the chunks that were sent, which are what was read where the
-- loop has ended well.
pub record IsStreamed (req : FileRequest) (version : VersionVector) (s : Streamed) : Type 0 where
  pub chunks : List Bytes
  pub still : IsOpen req version chunks s.response
  pub complete : s.error ≡ none → s.content ≡ concat chunks

-- One turn of the loop, by the error of its write and the status of its read.
turn_end-IsStreamed :
    (req : FileRequest) (version : VersionVector) (chunks : List Bytes) (o : Option StreamError)
    (status : ReadStatus) (r : Response) (all : Bytes) (rest : Streamed)
    → IsOpen req version chunks r
    → (o ≡ none → all ≡ concat chunks)
    → (o ≡ none → IsStreamed req version rest)
    → IsStreamed req version (turn_end o status r all rest)
turn_end-IsStreamed req version chunks (some e) status r all rest h whole later = record {
  chunks = chunks;
  still = h;
  complete = λ e. cc;
}
turn_end-IsStreamed req version chunks none end_of_file r all rest h whole later = record {
  chunks = chunks;
  still = h;
  complete = λ e. whole refl;
}
turn_end-IsStreamed req version chunks none read_failed r all rest h whole later = record {
  chunks = chunks;
  still = h;
  complete = λ e. cc;
}
turn_end-IsStreamed req version chunks none more r all rest h whole later = later refl

pub if_false {ℓ} : {A : Type ℓ} (c : Bool) (x y : A) → c ≡ false → (if c then x else y) ≡ y
if_false true x y h = cc
if_false false x y h = refl

module _ (link : List TransferFrame → TransferFrame → WriteResult) (sha256 : Bytes → Bytes) where
  -- The chunks after a read.
  abbrev pub Sends :
      FileRequest → VersionVector → List Bytes → Bytes → Response × WriteResult → Type 0
  Sends req version chunks bytes out =
      (later : List Bytes) × IsOpen req version later out.0
      × (write_error out.1 ≡ none → concat later ≡ concat chunks ++ bytes)

  after_send-Sends :
      (req : FileRequest) (version : VersionVector) (chunks : List Bytes) (bytes : Bytes)
      (o : WriteResult) (r : Response)
      → IsOpen req version chunks r
      → Sends req version chunks bytes (after_send o bytes r)
  after_send-Sends req version chunks bytes sent r h = (
    chunks ++ bytes ∷ [],
    after_send-IsOpen req version chunks bytes r h,
    λ e. concat-append chunks (bytes ∷ []) ∙ ap (λ b. concat chunks ++ b) (append_nil bytes),
  )
  after_send-Sends req version chunks bytes write_failed r h = (chunks, h, λ e. cc)
  after_send-Sends req version chunks bytes write_cancelled r h = (chunks, h, λ e. cc)

  pub send_read-Sends :
      (req : FileRequest) (version : VersionVector) (chunks : List Bytes) (bytes : Bytes)
      (r : Response)
      → IsOpen req version chunks r
      → Sends req version chunks bytes (send_read link sha256 bytes r)
  unfolding send
  send_read-Sends req version chunks [] r h = (chunks, h, λ e. sym (append_nil (concat chunks)))
  send_read-Sends req version chunks (b ∷ bytes) r h =
      let o = link r.frames (chunk_frame r (b ∷ bytes) false) in
      subst (Sends req version chunks (b ∷ bytes))
        (sym (if_false r.terminal (r, write_failed) (after_send o (b ∷ bytes) r) h.unended))
        (after_send-Sends req version chunks (b ∷ bytes) o r h)

  pub stream_reads-IsStreamed :
      (req : FileRequest) (version : VersionVector) (reads : List ReadResult) (chunks : List Bytes)
      (content : Bytes) (r : Response)
      → IsOpen req version chunks r
      → content ≡ concat chunks
      → IsStreamed req version (stream_reads link sha256 reads content r)
  unfolding stream_reads
  stream_reads-IsStreamed req version [] chunks content r h same = record {
    chunks = chunks;
    still = h;
    complete = λ e. cc;
  }
  stream_reads-IsStreamed req version (read ∷ reads) chunks content r h same =
      let out = send_read link sha256 read.bytes r in
      let (later, still, whole) = send_read-Sends req version chunks read.bytes r h in
      let all = content ++ read.bytes in
      let gathered =
        λ (e : write_error out.1 ≡ none). ap (λ b. b ++ read.bytes) same ∙ sym (whole e) in
      turn_end-IsStreamed req version later (write_error out.1) read.status out.0 all
        (stream_reads link sha256 reads all out.0) still gathered
        (λ e. stream_reads-IsStreamed req version reads later all out.0 still (gathered e))

-- What has been sent when a request is dealt with.
pub record IsAnswered (sha256 : Bytes → Bytes) (req : FileRequest) (served : Served)
    (frames : List TransferFrame) : Type 0 where
  pub version : VersionVector
  pub chunks : List Bytes
  pub ending : List TransferFrame
  pub shape : frames ≡ data_frames req version 0 chunks ++ ending
  pub ended :
      (ending ≡ [])
      ⊎ ((code : Bytes) × (ending ≡ failure_frame req code ∷ []))
      ⊎ ((ending ≡ chunk_at req version (length (concat chunks)) [] true ∷ [])
          × Verified sha256 req served (concat chunks))
