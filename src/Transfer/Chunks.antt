-- ===== src/Transfer/Chunks.antt =====
-- Chunks of one file, one after the other, and the response that has sent them.

use syncat.Prelude.{
  length, length-append, Bytes, pos, ℕ, ◌+◌, ◌≡◌, sym, ap, ◌∙◌, Bool, false, List, [], ◌∷◌, ◌++◌,
  arith,
}
use syncat.Vector.{VersionVector}
use syncat.Wire.{FileRequest}
use syncat.Transfer.{TransferFrame, chunk, failure}
use syncat.Transfer.Serve.{chunk_frame, after_send, Response, sent}
use syncat.Index.Batches.{concat, concat-append}

abbrev pub chunk_at : FileRequest → VersionVector → ℕ → Bytes → Bool → TransferFrame
chunk_at req version n bytes eof =
    chunk
      (record {
        transfer_id = req.transfer_id;
        share_id = req.share_id;
        rel_path = req.rel_path;
        version = version;
        offset = pos n;
        eof = eof;
      })
      bytes

-- Chunks of the request's file from offset `n` on.
unfoldable pub data_frames : FileRequest → VersionVector → ℕ → List Bytes → List TransferFrame
data_frames req version n [] = []
data_frames req version n (c ∷ cs) =
    chunk_at req version n c false ∷ data_frames req version (n + length c) cs

abbrev pub failure_frame : FileRequest → Bytes → TransferFrame
failure_frame req code = failure (record {
  code = code;
  msg = [];
  share_id = req.share_id;
  rel_path = req.rel_path;
  transfer_id = req.transfer_id;
})

data_frames-append :
    (req : FileRequest) (version : VersionVector) (n : ℕ) (cs ds : List Bytes)
    → data_frames req version n (cs ++ ds)
      ≡ data_frames req version n cs ++ data_frames req version (n + length (concat cs)) ds
unfolding data_frames
data_frames-append req version n [] ds =
    let same : n ≡ n + 0 = omega arith in ap (λ m. data_frames req version m ds) same
data_frames-append req version n (c ∷ cs) ds =
    let later = data_frames-append req version (n + length c) cs ds in
    let long = length-append c (concat cs) in
    let same : n + length c + length (concat cs) ≡ n + length (c ++ concat cs) =
      omega (arith, long) in
    ap (λ fs. chunk_at req version n c false ∷ fs)
      (later
        ∙ ap (λ m. data_frames req version (n + length c) cs ++ data_frames req version m ds) same)

data_frames-snoc :
    (req : FileRequest) (version : VersionVector) (chunks : List Bytes) (bytes : Bytes)
    → data_frames req version 0 (chunks ++ bytes ∷ [])
      ≡ data_frames req version 0 chunks
        ++ chunk_at req version (length (concat chunks)) bytes false ∷ []
data_frames-snoc req version chunks bytes =
    let same : 0 + length (concat chunks) ≡ length (concat chunks) = omega arith in
    data_frames-append req version 0 chunks (bytes ∷ [])
    ∙ unfold data_frames in
      ap (λ n. data_frames req version 0 chunks ++ chunk_at req version n bytes false ∷ []) same

-- A response that has sent `chunks`, and no end yet.
pub record IsOpen (req : FileRequest) (version : VersionVector) (chunks : List Bytes) (r : Response)
    : Type 0 where
  pub request : r.req ≡ req
  pub served_version : r.version ≡ version
  pub unended : r.terminal ≡ false
  pub offset : r.offset ≡ length (concat chunks)
  pub sent_frames : r.frames ≡ data_frames req version 0 chunks

pub chunk_frame-open :
    (req : FileRequest) (version : VersionVector) (chunks : List Bytes) (r : Response)
    (bytes : Bytes) (eof : Bool)
    → IsOpen req version chunks r
    → chunk_frame r bytes eof ≡ chunk_at req version (length (concat chunks)) bytes eof
chunk_frame-open req version chunks r bytes eof h =
    λ i. chunk_at (h.request i) (h.served_version i) (h.offset i) bytes eof

pub after_send-IsOpen :
    (req : FileRequest) (version : VersionVector) (chunks : List Bytes) (bytes : Bytes)
    (r : Response)
    → IsOpen req version chunks r
    → IsOpen req version (chunks ++ bytes ∷ []) (after_send sent bytes r).0
after_send-IsOpen req version chunks bytes r h =
    let all = concat-append chunks (bytes ∷ []) in
    let long = length-append (concat chunks) (bytes ++ []) in
    let last = length-append bytes [] in
    record {
      request = h.request;
      served_version = h.served_version;
      unended = h.unended;
      offset = omega (arith, h.offset, ap length all, long, last);
      sent_frames =
          ap (λ fs. fs ++ chunk_frame r bytes false ∷ []) h.sent_frames
          ∙ ap (λ f. data_frames req version 0 chunks ++ f ∷ [])
              (chunk_frame-open req version chunks r bytes false h)
          ∙ sym (data_frames-snoc req version chunks bytes);
    }
