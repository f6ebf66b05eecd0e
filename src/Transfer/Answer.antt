-- ===== src/Transfer/Answer.antt =====
-- How `streamFile` and `fail` leave a response.
use mathlib.Core.Path.{subst}
use syncat.Prelude.{
  ◌==◌, if◌then◌else◌, length, Bytes, bytes_eq, int_eq, pos, ◌≡◌, refl, sym, ◌∙◌, ◌⊎◌, inl, inr,
  Bool, true, false, ◌&&◌, ◌||◌, not, Option, none, some, List, [], ◌∷◌, ◌++◌, arith,
}
use syncat.Vector.{VersionVector}
use syncat.Reconcile.{FileInfo}
use syncat.Wire.{FileRequest}
use syncat.Transfer.{TransferFrame}
use syncat.Transfer.Serve.{
  chunk_frame, after_finish, frames_after, write_error, finish, fail, end_stream, WriteResult,
  Response, FileStat, StreamError, Served, sent, write_failed, write_cancelled, file_changed,
  stream_broken,
}
use syncat.Transfer.Chunks.{chunk_at, failure_frame, chunk_frame-open, IsOpen, data_frames}
use syncat.Transfer.Outcome.{if_false, Verified, IsAnswered}
use syncat.Index.Batches.{concat, append_nil}

module _ (link : List TransferFrame → TransferFrame → WriteResult) (sha256 : Bytes → Bytes)
    (req : FileRequest) (served : Served) where
  pub open_IsAnswered :
      (version : VersionVector) (chunks : List Bytes) (r : Response)
      → IsOpen req version chunks r
      → IsAnswered sha256 req served r.frames
  open_IsAnswered version chunks r h = record {
    version = version;
    chunks = chunks;
    ending = [];
    shape = h.sent_frames ∙ sym (append_nil (data_frames req version 0 chunks));
    ended = inl refl;
  }

  failed_IsAnswered :
      (version : VersionVector) (chunks : List Bytes) (r : Response) (code : Bytes)
      (o : WriteResult)
      → IsOpen req version chunks r
      → IsAnswered sha256 req served (frames_after o r.frames (failure_frame r.req code))
  failed_IsAnswered version chunks r code write_failed h = open_IsAnswered version chunks r h
  failed_IsAnswered version chunks r code write_cancelled h = open_IsAnswered version chunks r h
  failed_IsAnswered version chunks r code sent h = record {
    version = version;
    chunks = chunks;
    ending = failure_frame req code ∷ [];
    shape = λ i. h.sent_frames i ++ failure_frame (h.request i) code ∷ [];
    ended = inr (inl (code, refl));
  }

  pub fail-IsAnswered :
      (version : VersionVector) (chunks : List Bytes) (r : Response) (code : Bytes)
      → IsOpen req version chunks r
      → IsAnswered sha256 req served (fail link sha256 code r).frames
  unfolding fail
  fail-IsAnswered version chunks r code h =
      let o = link r.frames (failure_frame r.req code) in
      let failed = frames_after o r.frames (failure_frame r.req code) in
      subst (λ (x : Response). IsAnswered sha256 req served x.frames)
        (sym (if_false r.terminal r (record r { terminal = true; frames = failed }) h.unended))
        (failed_IsAnswered version chunks r code o h)

  -- How `streamFile` leaves the response: open, or with the end of a verified file.
  abbrev pub Streams : VersionVector → Response × Option StreamError → Type 0
  Streams version out =
      ((chunks : List Bytes) × IsOpen req version chunks out.0)
      ⊎ ((out.1 ≡ none) × IsAnswered sha256 req served out.0.frames)

  after_finish-Streams :
      (version : VersionVector) (chunks : List Bytes) (r : Response) (o : WriteResult)
      → IsOpen req version chunks r
      → Verified sha256 req served (concat chunks)
      → Streams version ((after_finish o r).0, write_error (after_finish o r).1)
  after_finish-Streams version chunks r write_failed h verified = inl (chunks, h)
  after_finish-Streams version chunks r write_cancelled h verified = inl (chunks, h)
  after_finish-Streams version chunks r sent h verified = inr (
    refl,
    record {
      version = version;
      chunks = chunks;
      ending = chunk_at req version (length (concat chunks)) [] true ∷ [];
      shape = λ i. h.sent_frames i ++ chunk_frame-open req version chunks r [] true h i ∷ [];
      ended = inr (inr (refl, verified));
    },
  )

  -- The tests after the loop, on their outcomes.
  checked :
      (version : VersionVector) (changed diverged : Bool) (chunks : List Bytes) (r : Response)
      (out : Response × WriteResult)
      → IsOpen req version chunks r
      → (changed ≡ false → Streams version (out.0, write_error out.1))
      → Streams version (
          if changed
          then (r, some file_changed)
          else if diverged
          then (r, some stream_broken)
          else (out.0, write_error out.1))
  checked version true diverged chunks r out h good = inl (chunks, h)
  checked version false true chunks r out h good = inl (chunks, h)
  checked version false false chunks r out h good = good refl

  pub end_stream-Streams :
      (row : FileInfo) (before : FileStat) (after : Option FileStat) (version : VersionVector)
      (chunks : List Bytes) (content : Bytes) (r : Response)
      → content ≡ concat chunks
      → IsOpen req version chunks r
      → (int_eq (pos (length content)) row.size ≡ true
          → bytes_eq (sha256 content) row.sha256 ≡ true
          → Verified sha256 req served content)
      → Streams version (end_stream link sha256 row before after content r)
  unfolding end_stream finish
  end_stream-Streams row before none version chunks content r same h verified = inl (chunks, h)
  end_stream-Streams row before (some after) version chunks content r same h verified =
      let changed =
        not (int_eq after.size before.size && int_eq after.mtime_ns before.mtime_ns)
        || not (int_eq (pos (length content)) row.size)
        || not (bytes_eq (sha256 content) row.sha256) in
      let o = link r.frames (chunk_frame r [] true) in
      let finished : finish link sha256 r ≡ after_finish o r =
        if_false r.terminal (r, write_failed) (after_finish o r) h.unended in
      checked version changed (not (r.offset == length content)) chunks r (finish link sha256 r) h
        (λ fine.
          let v = verified (ground (arith, fine)) (ground (arith, fine)) in
          subst (λ out. Streams version (out.0, write_error out.1)) (sym finished)
            (after_finish-Streams version chunks r o h (subst (Verified sha256 req served) same v)))
