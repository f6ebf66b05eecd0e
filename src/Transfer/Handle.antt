-- ===== src/Transfer/Handle.antt =====
-- `handleFileRequest` from its guards to its end.
use syncat.Prelude.{
  if◌then◌else◌, length, Bytes, bytes_eq, bytes_eq_iff, int_eq, int_eq_iff, pos, ◌≡◌, refl, ◌≢◌,
  inl, inr, Bool, true, false, ◌&&◌, ◌||◌, not, Option, none, some, List, [], arith,
}
use syncat.Vector.{VersionVector, equal}
use syncat.Reconcile.{file_type_symlink, FileInfo}
use syncat.Reconcile.Pass.{is_ignored}
use syncat.Path.Join.{join_share_path}
use syncat.Wire.{FileRequest}
use syncat.Transfer.{TransferFrame}
use syncat.Transfer.Serve.{
  file_not_found, version_changed, unsupported_offset, transfer_failed, new_response, is_joined,
  fail, stream_reads, end_unless, after_reads, stream_from, stream_file, report, serve_row,
  serve_found, handle_file_request, WriteResult, Response, FileStat, StreamError, Streamed, Served,
  stream_cancelled, file_changed, stream_broken,
}
use syncat.Transfer.Chunks.{IsOpen, data_frames}
use syncat.Transfer.Outcome.{stream_reads-IsStreamed, Verified, IsStreamed, IsAnswered}
use syncat.Transfer.Answer.{fail-IsAnswered, Streams, end_stream-Streams, open_IsAnswered}

module _ (link : List TransferFrame → TransferFrame → WriteResult) (sha256 : Bytes → Bytes)
    (req : FileRequest) (served : Served) where
  -- Content that has the hash and the size of the row may be ended.
  abbrev Verifies : FileInfo → Type 0
  Verifies row =
      (content : Bytes)
      → int_eq (pos (length content)) row.size ≡ true
      → bytes_eq (sha256 content) row.sha256 ≡ true
      → Verified sha256 req served content

  end_unless-Streams :
      (o : Option StreamError) (row : FileInfo) (before : FileStat) (after : Option FileStat)
      (version : VersionVector) (s : Streamed)
      → s.error ≡ o
      → IsStreamed req version s
      → Verifies row
      → Streams link sha256 req served version (end_unless link sha256 o row before after s)
  end_unless-Streams (some e) row before after version s same h verify = inl (h.chunks, h.still)
  end_unless-Streams none row before after version s same h verify =
      end_stream-Streams link sha256 req served row before after version h.chunks s.content
        s.response (h.complete same) h.still (verify s.content)

  after_reads-Streams :
      (row : FileInfo) (before : FileStat) (after : Option FileStat) (version : VersionVector)
      (s : Streamed)
      → IsStreamed req version s
      → Verifies row
      → Streams link sha256 req served version (after_reads link sha256 row before after s)
  after_reads-Streams row before after version s h verify =
      end_unless-Streams s.error row before after version s refl h verify

  either :
      (version : VersionVector) (c : Bool) (x y : Response × Option StreamError)
      → Streams link sha256 req served version x
      → Streams link sha256 req served version y
      → Streams link sha256 req served version (if c then x else y)
  either version true x y p q = p
  either version false x y p q = q

  stream_from-Streams :
      (o : Option FileStat) (row : FileInfo) (version : VersionVector) (r : Response)
      → IsOpen req version [] r
      → Verifies row
      → Streams link sha256 req served version (stream_from link sha256 o row served r)
  stream_from-Streams none row version r h verify = inl ([], h)
  stream_from-Streams (some before) row version r h verify =
      let reads = stream_reads-IsStreamed link sha256 req version served.reads [] [] r h refl in
      let streamed = stream_reads link sha256 served.reads [] r in
      either version (not (int_eq before.size row.size && int_eq before.mtime_ns row.mtime_ns))
        (r, some file_changed) (after_reads link sha256 row before served.after streamed)
        (inl ([], h)) (after_reads-Streams row before served.after version streamed reads verify)

  report-IsAnswered :
      (version : VersionVector) (out : Response × Option StreamError)
      → Streams link sha256 req served version out
      → IsAnswered sha256 req served (report link sha256 out).frames
  report-IsAnswered version (r, none) (inl (chunks, h)) =
      open_IsAnswered link sha256 req served version chunks r h
  report-IsAnswered version (r, none) (inr (e, a)) = a
  report-IsAnswered version (r, some stream_cancelled) (inl (chunks, h)) =
      open_IsAnswered link sha256 req served version chunks r h
  report-IsAnswered version (r, some file_changed) (inl (chunks, h)) =
      fail-IsAnswered link sha256 req served version chunks r version_changed h
  report-IsAnswered version (r, some stream_broken) (inl (chunks, h)) =
      fail-IsAnswered link sha256 req served version chunks r transfer_failed h
  report-IsAnswered version (r, some e) (inr (none_there, a)) = cc

  -- A guard of the handler: the file is refused, or the rest of the handler answers.
  guard :
      (c : Bool) (x y : Response)
      → IsAnswered sha256 req served x.frames
      → (c ≡ false → IsAnswered sha256 req served y.frames)
      → IsAnswered sha256 req served (if c then x else y).frames
  guard true x y h later = h
  guard false x y h later = later refl

  new-IsOpen : IsOpen req [] [] (new_response req)
  unfolding data_frames
  new-IsOpen = record {
    request = refl;
    served_version = refl;
    unended = refl;
    offset = refl;
    sent_frames = refl;
  }

  fails :
      (code : Bytes)
      → IsAnswered sha256 req served (fail link sha256 code (new_response req)).frames
  fails code = fail-IsAnswered link sha256 req served [] [] (new_response req) code new-IsOpen

  pub versioned-IsOpen :
      (row : FileInfo)
      → IsOpen req row.version [] (record (new_response req) { version = row.version })
  unfolding data_frames
  versioned-IsOpen row = record {
    request = refl;
    served_version = refl;
    unended = refl;
    offset = refl;
    sent_frames = refl;
  }

  serve_row-IsAnswered :
      (row : FileInfo)
      → (equal row.version req.version ≡ true → row.type ≢ file_type_symlink → Verifies row)
      → IsAnswered sha256 req served
          (serve_row link sha256 row served req (new_response req)).frames
  unfolding serve_row stream_file
  serve_row-IsAnswered row verify =
      let r = record (new_response req) { version = row.version } in
      let opened = versioned-IsOpen row in
      let not_found = fail link sha256 file_not_found r in
      let missing = fail-IsAnswered link sha256 req served row.version [] r file_not_found opened in
      let out = stream_from link sha256 served.before row served r in
      let last = if not served.opened then not_found else report link sha256 out in
      let typed = if bytes_eq row.type file_type_symlink then not_found else last in
      let joined =
        if not (is_joined (join_share_path served.lstat served.root req.rel_path))
        then not_found
        else typed in
      guard (not (equal row.version req.version))
        (fail link sha256 version_changed (new_response req)) joined (fails version_changed)
        (λ same.
          guard (not (is_joined (join_share_path served.lstat served.root req.rel_path))) not_found
            typed missing
            (λ _. guard (bytes_eq row.type file_type_symlink) not_found last missing (λ regular.
              guard (not served.opened) not_found (report link sha256 out) missing (λ _.
                report-IsAnswered row.version out (
                  stream_from-Streams served.before row row.version r opened (
                    verify (ground (arith, same))
                      (ground (arith, regular, bytes_eq_iff row.type file_type_symlink))))))))

  serve_found-IsAnswered :
      (o : Option FileInfo)
      → ((row : FileInfo)
          → o ≡ some row
          → row.deleted ≡ false
          → equal row.version req.version ≡ true
          → row.type ≢ file_type_symlink
          → Verifies row)
      → IsAnswered sha256 req served
          (serve_found link sha256 o served req (new_response req)).frames
  serve_found-IsAnswered none verify = fails file_not_found
  serve_found-IsAnswered (some row) verify =
      guard row.deleted (fail link sha256 file_not_found (new_response req))
        (serve_row link sha256 row served req (new_response req)) (fails file_not_found)
        (λ live. serve_row-IsAnswered row (verify row refl live))

  -- Whatever the writer and the file system answer, the frames of an answer are chunks of the file
  -- that was asked for, at offsets without a gap, and after them nothing, or one error, or the mark
  -- of the end. The mark is sent only for a share that is known and may be served, for a path that
  -- is not ignored, and for a row that is neither deleted nor a symlink and has the version that was
  -- asked for; the chunks before it then have that row's size and hash.
  pub handle_file_request-IsAnswered :
      IsAnswered sha256 req served (handle_file_request link sha256 req served).frames
  unfolding handle_file_request
  handle_file_request-IsAnswered =
      let r = new_response req in
      let found = serve_found link sha256 served.row served req r in
      let shown =
        if is_ignored served.ignore req.rel_path false
        then fail link sha256 file_not_found r
        else found in
      let admitted =
        if not served.known || served.outbound_blocked
        then fail link sha256 file_not_found r
        else shown in
      let single = if served.duplicate then fail link sha256 transfer_failed r else admitted in
      guard (not (int_eq req.offset (pos 0))) (fail link sha256 unsupported_offset r) single
        (fails unsupported_offset)
        (λ _.
          guard served.duplicate (fail link sha256 transfer_failed r) admitted
            (fails transfer_failed)
            (λ _.
              guard (not served.known || served.outbound_blocked)
                (fail link sha256 file_not_found r) shown (fails file_not_found)
                (λ open_share.
                  guard (is_ignored served.ignore req.rel_path false)
                    (fail link sha256 file_not_found r) found (fails file_not_found)
                    (λ kept.
                      serve_found-IsAnswered served.row
                        (λ row there live same regular content size hash. record {
                          row = row;
                          found = there;
                          live = live;
                          version = same;
                          hash = ground (arith, hash, bytes_eq_iff (sha256 content) row.sha256);
                          size = ground (arith, size, int_eq_iff (pos (length content)) row.size);
                          no_symlink = regular;
                          known = ground (arith, open_share);
                          admitted = ground (arith, open_share);
                          not_ignored = kept;
                        })))))
