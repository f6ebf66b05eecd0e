-- ===== src/Transfer/RoundTrip.antt =====
-- A pull that is fed the frames of an answer.
use mathlib.Core.Path.{subst}
use syncat.Prelude.{
  length, length-append, Bytes, bytes_eq_refl, ℤ, pos, ℕ, ◌+◌, ◌≡◌, refl, sym, ap, ◌∙◌, ◌≢◌, inl,
  inr, Bool, true, false, List, [], ◌∷◌, ◌++◌, arith,
}
use syncat.Vector.{VersionVector}
use syncat.Wire.{FileRequest, FileChunkHeader}
use syncat.Transfer.{TransferFrame}
use syncat.Transfer.Pull.{
  is_expected, at_eof, pull_loop, pull_file, route_chunks, Pull, wrote, arrives, pulled, bad_chunk,
  dst_failed,
}
use syncat.Transfer.Serve.{handle_file_request, WriteResult, Served}
use syncat.Transfer.Chunks.{chunk_at, failure_frame, data_frames}
use syncat.Transfer.Content.{HasSize, step-pulled, at_eof-pulled, pull_step}
use syncat.Transfer.Outcome.{Verified}
use syncat.Transfer.Handle.{handle_file_request-IsAnswered}
use syncat.Index.Batches.{concat, append_nil, append_assoc}

module _ (req : FileRequest) (size : ℤ) where
  -- The pull after the chunks, once it has taken them.
  abbrev pub after_chunks : List Bytes → List TransferFrame → Bytes → ℕ → Pull
  after_chunks cs ending content total =
      pull_loop req size (route_chunks req.transfer_id ending) (content ++ concat cs)
        (total + length (concat cs))

  pub route-chunk :
      (version : VersionVector) (n : ℕ) (c : Bytes) (eof : Bool) (frames : List TransferFrame)
      → route_chunks req.transfer_id (chunk_at req version n c eof ∷ frames)
        ≡ arrives
            (record {
              transfer_id = req.transfer_id;
              share_id = req.share_id;
              rel_path = req.rel_path;
              version = version;
              offset = pos n;
              eof = eof;
            })
            c
            wrote
          ∷ route_chunks req.transfer_id frames
  unfolding route_chunks
  route-chunk version n c eof frames = rw (bytes_eq_refl req.transfer_id) refl

  -- A pull that ends well has taken all the chunks before the end.
  pulled-chunks :
      (version : VersionVector) (cs : List Bytes) (ending : List TransferFrame) (content : Bytes)
      (n : ℕ)
      → let r =
          pull_loop req size
            (route_chunks req.transfer_id (data_frames req version n cs ++ ending))
            content
            n in
        r.outcome ≡ pulled → r ≡ after_chunks cs ending content n
  unfolding data_frames
  pulled-chunks version [] ending content n done =
      let same : n ≡ n + 0 = omega arith in
      λ i.
        pull_loop req size (route_chunks req.transfer_id ending) (sym (append_nil content) i)
          (same i)
  pulled-chunks version (c ∷ cs) ending content n done =
      let later = data_frames req version (n + length c) cs ++ ending in
      let rest =
        pull_loop req size (route_chunks req.transfer_id later) (content ++ c) (n + length c) in
      let h : FileChunkHeader = record {
        transfer_id = req.transfer_id;
        share_id = req.share_id;
        rel_path = req.rel_path;
        version = version;
        offset = pos n;
        eof = false;
      } in
      let routed =
        ap (λ es. pull_loop req size es content n) (route-chunk version n c false later)
        ∙ pull_step req size h c wrote (route_chunks req.transfer_id later) content n in
      let (_, _, branch) =
        step-pulled (is_expected req h n) false false
          (record { content = content; total = n; outcome = bad_chunk })
          (record { content = content ++ c; total = n + length c; outcome = dst_failed })
          (at_eof req size (content ++ c) (n + length c)) rest (λ e. cc) (λ e. cc)
          (ap (λ (r : Pull). r.outcome) (sym routed) ∙ done) in
      elim branch [
        | inl (here, _, _) ↦ cc
        | inr (_, good, same) ↦
            let ih = pulled-chunks version cs ending (content ++ c) (n + length c) good in
            let long = length-append c (concat cs) in
            let total : n + length c + length (concat cs) ≡ n + length (c ++ concat cs) =
              omega (arith, long) in
            routed ∙ same ∙ ih ∙ λ i.
            pull_loop req size (route_chunks req.transfer_id ending)
              (append_assoc content c (concat cs) i) (total i)
      ]

  -- The end of an answer, to a pull that has taken its chunks.
  pulled-eof :
      (version : VersionVector) (content : Bytes) (n : ℕ)
      → n ≡ length content
      → let r =
          pull_loop req size
            (route_chunks req.transfer_id (chunk_at req version n [] true ∷ []))
            content
            n in
        r.outcome ≡ pulled → (r.content ≡ content) × HasSize size content
  pulled-eof version content n long done =
      let h : FileChunkHeader = record {
        transfer_id = req.transfer_id;
        share_id = req.share_id;
        rel_path = req.rel_path;
        version = version;
        offset = pos n;
        eof = true;
      } in
      let none_left = route_chunks req.transfer_id [] in
      let at_end = at_eof req size (content ++ []) (n + 0) in
      let routed =
        ap (λ es. pull_loop req size es content n) (route-chunk version n [] true [])
        ∙ pull_step req size h [] wrote none_left content n in
      let (_, _, branch) =
        step-pulled (is_expected req h n) false true
          (record { content = content; total = n; outcome = bad_chunk })
          (record { content = content ++ []; total = n + 0; outcome = dst_failed }) at_end
          (pull_loop req size none_left (content ++ []) (n + 0)) (λ e. cc) (λ e. cc)
          (ap (λ (r : Pull). r.outcome) (sym routed) ∙ done) in
      let grown = length-append content [] in
      elim branch [
        | inl (_, good, same) ↦ (
          ap (λ (r : Pull). r.content) (routed ∙ same) ∙ append_nil content,
          subst (HasSize size) (append_nil content)
              (at_eof-pulled req size (content ++ []) (n + 0) (omega (arith, grown, long)) good),
        )
        | inr (other, _, _) ↦ cc
      ]

  -- An answer without an end, or with an error, is no pull that ends well.
  unended-pull :
      (content : Bytes) (n : ℕ)
      → (pull_loop req size (route_chunks req.transfer_id []) content n).outcome ≢ pulled
  unfolding route_chunks pull_loop
  unended-pull content n = λ e. cc

  failed-pull :
      (code content : Bytes) (n : ℕ)
      → (pull_loop req size
          (route_chunks req.transfer_id (failure_frame req code ∷ []))
          content
          n).outcome
        ≢ pulled
  unfolding route_chunks pull_loop
  failed-pull code content n = rw (bytes_eq_refl req.transfer_id) (λ e. cc)

module _ (link : List TransferFrame → TransferFrame → WriteResult) (sha256 : Bytes → Bytes)
    (req : FileRequest) (served : Served) (size : ℤ) where
  -- The pull of what the peer answers.
  abbrev pub fetch : Pull
  fetch =
      pull_file req size
        (route_chunks req.transfer_id (handle_file_request link sha256 req served).frames)

  -- Whatever happens to the file and to the connection while it is sent, a pull that is fed the
  -- answer to its request and returns without an error has bytes with the hash and the size of the
  -- serving node's row, in the version that was asked for, and as many as were announced.
  pub fetched_content :
      fetch.outcome ≡ pulled → Verified sha256 req served fetch.content × HasSize size fetch.content
  unfolding pull_file
  fetched_content done =
      let a = handle_file_request-IsAnswered link sha256 req served in
      let cut = data_frames req a.version 0 a.chunks ++ a.ending in
      let routed : fetch ≡ pull_loop req size (route_chunks req.transfer_id cut) [] 0 =
        ap (λ fs. pull_loop req size (route_chunks req.transfer_id fs) [] 0) a.shape in
      let good = ap (λ (r : Pull). r.outcome) (sym routed) ∙ done in
      let taken = routed ∙ pulled-chunks req size a.version a.chunks a.ending [] 0 good in
      let all = concat a.chunks in
      let long : 0 + length all ≡ length all = omega arith in
      let left = λ (fs : List TransferFrame).
        pull_loop req size (route_chunks req.transfer_id fs) all (length all) in
      let there : fetch ≡ left a.ending =
        taken ∙ ap (λ n. pull_loop req size (route_chunks req.transfer_id a.ending) all n) long in
      let fine = λ (fs : List TransferFrame) (e : a.ending ≡ fs).
        ap (λ (r : Pull). r.outcome) (sym (there ∙ ap left e)) ∙ done in
      elim a.ended [
        | inl e ↦ absurd (unended-pull req size all (length all) (fine [] e))
        | inr (inl (code, e)) ↦
            absurd
              (failed-pull req size code all (length all) (fine (failure_frame req code ∷ []) e))
        | inr (inr (e, verified)) ↦
            let end = chunk_at req a.version (length all) [] true ∷ [] in
            let (same, sized) = pulled-eof req size a.version all (length all) refl (fine end e) in
            let gathered = ap (λ (r : Pull). r.content) (there ∙ ap left e) ∙ same in
            (
              subst (Verified sha256 req served) (sym gathered) verified,
              subst (HasSize size) (sym gathered) sized,
            )
      ]
