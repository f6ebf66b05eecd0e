-- ===== src/Transfer/Complete.antt =====
-- From the request to the content: a file that stays as its row says arrives.
use syncat.Prelude.{
  length, length-append, Bytes, ℤ, int_lt, int_eq, int_eq_iff, pos, ℕ, ◌+◌, ◌≡◌, refl, sym, ap, ◌∙◌,
  true, false, ◌&&◌, not, List, [], ◌∷◌, ◌++◌, arith,
}
use syncat.Vector.{VersionVector, equal}
use syncat.Reconcile.{FileInfo}
use syncat.Wire.{FileRequest, FileChunkHeader}
use syncat.Transfer.{TransferFrame}
use syncat.Transfer.Pull.{
  is_expected, at_eof, pull_loop, pull_file, route_chunks, Pull, wrote, pulled, bad_chunk,
  wrong_size,
}
use syncat.Transfer.Serve.{WriteResult, Served, sent}
use syncat.Transfer.Chunks.{chunk_at, data_frames}
use syncat.Transfer.Content.{Expected-is_expected, pull_step}
use syncat.Transfer.Outcome.{if_false}
use syncat.Transfer.RoundTrip.{after_chunks, route-chunk, fetch}
use syncat.Transfer.Delivery.{bytes_read, Ready}
use syncat.Transfer.Whole.{served_whole}
use syncat.Index.Batches.{concat, append_nil, append_assoc}

-- A pull takes the chunks of its file.
taken-chunks :
    (req : FileRequest) (size : ℤ) (version : VersionVector) (cs : List Bytes)
    (ending : List TransferFrame) (content : Bytes) (n : ℕ)
    → equal version req.version ≡ true
    → pull_loop req size
        (route_chunks req.transfer_id (data_frames req version n cs ++ ending))
        content
        n
      ≡ after_chunks req size cs ending content n
unfolding data_frames
taken-chunks req size version [] ending content n same =
    let none_more : n ≡ n + 0 = omega arith in
    λ i.
      pull_loop req size (route_chunks req.transfer_id ending) (sym (append_nil content) i)
        (none_more i)
taken-chunks req size version (c ∷ cs) ending content n same =
    let later = data_frames req version (n + length c) cs ++ ending in
    let left =
      pull_loop req size (route_chunks req.transfer_id later) (content ++ c) (n + length c) in
    let h : FileChunkHeader = record {
      transfer_id = req.transfer_id;
      share_id = req.share_id;
      rel_path = req.rel_path;
      version = version;
      offset = pos n;
      eof = false;
    } in
    let expected = Expected-is_expected req h n (record {
      transfer_id = refl;
      share_id = refl;
      rel_path = refl;
      version = same;
      offset = refl;
    }) in
    let bad : not (is_expected req h n) ≡ false = ground (arith, expected) in
    let long = length-append c (concat cs) in
    let total : n + length c + length (concat cs) ≡ n + length (c ++ concat cs) =
      omega (arith, long) in
    ap (λ es. pull_loop req size es content n) (route-chunk req size version n c false later)
    ∙ pull_step req size h c wrote (route_chunks req.transfer_id later) content n
    ∙ if_false (not (is_expected req h n))
        (record { content = content; total = n; outcome = bad_chunk }) left bad
    ∙ taken-chunks req size version cs ending (content ++ c) (n + length c) same
    ∙ λ i.
        pull_loop req size (route_chunks req.transfer_id ending)
          (append_assoc content c (concat cs) i) (total i)

-- The end of a file of the announced size ends the pull well.
taken-eof :
    (req : FileRequest) (size : ℤ) (version : VersionVector) (content : Bytes)
    → equal version req.version ≡ true
    → pos (length content) ≡ size
    → let r =
        pull_loop req size
          (route_chunks req.transfer_id (chunk_at req version (length content) [] true ∷ []))
          content
          (length content) in
      (r.outcome ≡ pulled) × (r.content ≡ content)
taken-eof req size version content same sized =
    let n = length content in
    let h : FileChunkHeader = record {
      transfer_id = req.transfer_id;
      share_id = req.share_id;
      rel_path = req.rel_path;
      version = version;
      offset = pos n;
      eof = true;
    } in
    let none_left = route_chunks req.transfer_id [] in
    let expected = Expected-is_expected req h n (record {
      transfer_id = refl;
      share_id = refl;
      rel_path = refl;
      version = same;
      offset = refl;
    }) in
    let at_end = at_eof req size (content ++ []) (n + 0) in
    let arrived =
      ap (λ es. pull_loop req size es content n) (route-chunk req size version n [] true [])
      ∙ pull_step req size h [] wrote none_left content n
      ∙ if_false (not (is_expected req h n))
          (record { content = content; total = n; outcome = bad_chunk }) at_end
          (ground (arith, expected)) in
    let whole : n + 0 ≡ n = omega arith in
    let sized_right : not (int_lt size (pos 0)) && not (int_eq (pos (n + 0)) size) ≡ false =
      ground (arith, int_eq_iff (pos (n + 0)) size, ap pos whole, sized) in
    (
      ap (λ (r : Pull). r.outcome) arrived
          ∙ if_false (not (int_lt size (pos 0)) && not (int_eq (pos (n + 0)) size)) wrong_size
              pulled sized_right,
      ap (λ (r : Pull). r.content) arrived ∙ append_nil content,
    )

-- A request that may be served, for a file that is and stays as the row says, over a connection that
-- takes every frame, brings the pull exactly the bytes of the file, however the reads cut it up, and
-- the pull returns without an error.
pub fetch_completes :
    (link : List TransferFrame → TransferFrame → WriteResult) (sha256 : Bytes → Bytes)
    (req : FileRequest) (served : Served) (row : FileInfo)
    → ((fs : List TransferFrame) (f : TransferFrame) → link fs f ≡ sent)
    → Ready sha256 req served row
    → ((fetch link sha256 req served row.size).outcome ≡ pulled)
      × ((fetch link sha256 req served row.size).content ≡ bytes_read served.reads)
unfolding pull_file
fetch_completes link sha256 req served row sends ready =
    let (chunks, frames, all) = served_whole link sha256 sends req served row ready in
    let content = concat chunks in
    let ending = chunk_at req row.version (length content) [] true ∷ [] in
    let sized : pos (length content) ≡ row.size = ap (λ b. pos (length b)) all ∙ ready.size in
    let whole : 0 + length content ≡ length content = omega arith in
    let (done, gathered) = taken-eof req row.size row.version content ready.version sized in
    let routed =
      ap (λ fs. pull_loop req row.size (route_chunks req.transfer_id fs) [] 0) frames
      ∙ taken-chunks req row.size row.version chunks ending [] 0 ready.version
      ∙ ap (λ n. pull_loop req row.size (route_chunks req.transfer_id ending) content n) whole in
    (
      ap (λ (r : Pull). r.outcome) routed ∙ done,
      ap (λ (r : Pull). r.content) routed ∙ gathered ∙ all,
    )
