-- ===== src/Transfer/Whole.antt =====
-- The frames that answer a request for a file that stays as its row says.
use syncat.Prelude.{
  if◌then◌else◌, length, Bytes, bytes_eq, bytes_eq_iff, int_eq, int_eq_iff, pos, ◌≡◌, refl, sym, ap,
  ◌∙◌, true, false, ◌&&◌, ◌||◌, not, none, some, List, [], ◌∷◌, ◌++◌, arith,
}
use syncat.Vector.{equal}
use syncat.Reconcile.{file_type_symlink, FileInfo}
use syncat.Reconcile.Pass.{is_ignored}
use syncat.Path.Join.{join_share_path}
use syncat.Wire.{FileRequest}
use syncat.Transfer.{TransferFrame}
use syncat.Transfer.Serve.{
  file_not_found, version_changed, unsupported_offset, transfer_failed, new_response, after_finish,
  is_joined, fail, stream_reads, end_stream, end_unless, after_reads, stream_from, stream_file,
  report, serve_row, serve_found, handle_file_request, WriteResult, Response, FileStat, Served,
  sent, file_changed,
}
use syncat.Transfer.Chunks.{chunk_at, chunk_frame-open, data_frames}
use syncat.Transfer.Handle.{versioned-IsOpen}
use syncat.Transfer.Outcome.{if_false, stream_reads-IsStreamed}
use syncat.Transfer.Delivery.{bytes_read, stream_reads-Complete, end_stream-sent, Ready}
use syncat.Index.Batches.{concat}

module _ (link : List TransferFrame → TransferFrame → WriteResult) (sha256 : Bytes → Bytes)
    (sends : (fs : List TransferFrame) (f : TransferFrame) → link fs f ≡ sent) (req : FileRequest)
    (served : Served) (row : FileInfo) (ready : Ready sha256 req served row) where
  versioned : Response
  versioned = record (new_response req) { version = row.version }

  -- The guards let the request pass.
  admitted-request :
      handle_file_request link sha256 req served
      ≡ serve_found link sha256 (some row) served req (new_response req)
  unfolding handle_file_request
  admitted-request =
      let r = new_response req in
      let found = serve_found link sha256 served.row served req r in
      let missing = fail link sha256 file_not_found r in
      let shown = if is_ignored served.ignore req.rel_path false then missing else found in
      let admitted = if not served.known || served.outbound_blocked then missing else shown in
      let twice = fail link sha256 transfer_failed r in
      let single = if served.duplicate then twice else admitted in
      let from_start : not (int_eq req.offset (pos 0)) ≡ false =
        ground (arith, int_eq_iff req.offset (pos 0), ready.from_start) in
      let open_share : not served.known || served.outbound_blocked ≡ false =
        ground (arith, ready.known, ready.admitted) in
      if_false (not (int_eq req.offset (pos 0))) (fail link sha256 unsupported_offset r) single
        from_start
      ∙ if_false served.duplicate twice admitted ready.single
      ∙ if_false (not served.known || served.outbound_blocked) missing shown open_share
      ∙ if_false (is_ignored served.ignore req.rel_path false) missing found ready.kept
      ∙ ap (λ o. serve_found link sha256 o served req r) ready.found

  admitted-row :
      serve_found link sha256 (some row) served req (new_response req)
      ≡ report link sha256 (stream_file link sha256 row served versioned)
  unfolding serve_row versioned
  admitted-row =
      let r = new_response req in
      let v = record r { version = row.version } in
      let missing = fail link sha256 file_not_found v in
      let out = report link sha256 (stream_file link sha256 row served v) in
      let last = if not served.opened then missing else out in
      let typed = if bytes_eq row.type file_type_symlink then missing else last in
      let c = not (is_joined (join_share_path served.lstat served.root req.rel_path)) in
      let joined = if c then missing else typed in
      let same : not (equal row.version req.version) ≡ false = ground (arith, ready.version) in
      let path : c ≡ false = ground (arith, ready.joined) in
      let regular : bytes_eq row.type file_type_symlink ≡ false =
        ground (arith, ready.regular, bytes_eq_iff row.type file_type_symlink) in
      let opened : not served.opened ≡ false = ground (arith, ready.opened) in
      if_false row.deleted (fail link sha256 file_not_found r)
        (serve_row link sha256 row served req r) ready.live
      ∙ if_false (not (equal row.version req.version)) (fail link sha256 version_changed r) joined
          same
      ∙ if_false c missing typed path
      ∙ if_false (bytes_eq row.type file_type_symlink) missing last regular
      ∙ if_false (not served.opened) missing out opened

  stream_file-ends :
      let stat : FileStat = record { size = row.size; mtime_ns = row.mtime_ns } in
      let s = stream_reads link sha256 served.reads [] versioned in
      s.error ≡ none
      → end_stream link sha256 row stat (some stat) s.content s.response
        ≡ ((after_finish sent s.response).0, none)
      → stream_file link sha256 row served versioned ≡ ((after_finish sent s.response).0, none)
  unfolding stream_file
  stream_file-ends done end =
      let stat : FileStat = record { size = row.size; mtime_ns = row.mtime_ns } in
      let v = versioned in
      let s = stream_reads link sha256 served.reads [] v in
      let same : not (int_eq row.size row.size && int_eq row.mtime_ns row.mtime_ns) ≡ false =
        ground (arith, int_eq_iff row.size row.size, int_eq_iff row.mtime_ns row.mtime_ns) in
      ap (λ o. stream_from link sha256 o row served v) ready.before
      ∙ if_false (not (int_eq row.size row.size && int_eq row.mtime_ns row.mtime_ns))
          (v, some file_changed) (after_reads link sha256 row stat served.after s) same
      ∙ ap (λ e. end_unless link sha256 e row stat served.after s) done
      ∙ ap (λ a. end_stream link sha256 row stat a s.content s.response) ready.after
      ∙ end

  -- The frames are chunks that make up the file, and its end.
  pub served_whole :
      (chunks : List Bytes) × ((handle_file_request link sha256 req served).frames
        ≡ data_frames req row.version 0 chunks
          ++ chunk_at req row.version (length (concat chunks)) [] true ∷ [])
      × (concat chunks ≡ bytes_read served.reads)
  unfolding versioned
  served_whole =
      let v = versioned in
      let stat : FileStat = record { size = row.size; mtime_ns = row.mtime_ns } in
      let s = stream_reads link sha256 served.reads [] v in
      let streamed =
        stream_reads-IsStreamed link sha256 req row.version served.reads [] [] v
          (versioned-IsOpen link sha256 req served row) refl in
      let (done, gathered) =
        stream_reads-Complete link sha256 sends req row.version served.reads [] [] v
          (versioned-IsOpen link sha256 req served row) ready.complete in
      let same_size : pos (length s.content) ≡ row.size =
        ap (λ b. pos (length b)) gathered ∙ ready.size in
      let end =
        end_stream-sent link sha256 sends req row.version row streamed.chunks s.content s.response
          streamed.still (streamed.complete done) same_size (ap sha256 gathered ∙ ready.hash) in
      let out = stream_file-ends done end in
      let frames =
        ap (λ (r : Response). r.frames)
          (admitted-request ∙ admitted-row ∙ ap (report link sha256) out) in
      (
        streamed.chunks,
        frames ∙ λ i.
            streamed.still.sent_frames i
            ++ chunk_frame-open req row.version streamed.chunks s.response [] true streamed.still i
              ∷ [],
        sym (streamed.complete done) ∙ gathered,
      )
