-- ===== src/Transfer/Tests.antt =====
-- The theorems on transfers at a small file. The hash is a stand-in.
use syncat.Prelude.{
  drop, Bytes, codes, bytes_eq, has_prefix, contains_byte, find, pos, ℕ, ◌≡◌, refl, Bool, true,
  false, none, some, List, [], ◌∷◌, bytes_key,
}
use syncat.Vector.{counter, agrees, equal}
use syncat.Reconcile.{FileInfo}
use syncat.Path.{
  member, upper, before_dot, is_reserved_name, has_control, check_element, check_elements,
  validate_rel_path,
}
use syncat.Path.Split.{push_head, split, join}
use syncat.Path.Join.{
  push_element, resolve, clean, filepath_join, is_abs, check_no_symlink_parents, join_clean,
  join_share_path, directory,
}
use syncat.Wire.{FileRequest, FileChunkHeader}
use syncat.Transfer.{TransferFrame}
use syncat.Transfer.Pull.{pull_file, PullEvent, wrote, arrives, pulled}
use syncat.Transfer.Serve.{
  handle_file_request, WriteResult, FileStat, Served, sent, write_failed, more, end_of_file,
}
use syncat.Transfer.Content.{HasSize, pulled_content, Arrived}
use syncat.Transfer.Outcome.{Verified, IsAnswered}
use syncat.Transfer.Handle.{handle_file_request-IsAnswered}
use syncat.Transfer.RoundTrip.{fetch, fetched_content}
use syncat.Transfer.Delivery.{bytes_read, Ready}
use syncat.Transfer.Complete.{fetch_completes}

abbrev tail_of : Bytes → Bytes
tail_of bytes = drop 2 bytes

abbrev letter : FileInfo
letter = record {
  rel_path = codes "a/letter";
  type = codes "file";
  size = pos 5;
  mtime_ns = pos 7;
  mode = 0o644;
  sha256 = codes "llo";
  version = (codes "00000000000000ab", 3) ∷ [];
  deleted = false;
}

abbrev request : FileRequest
request = record {
  transfer_id = codes "0123456789abcdef0123456789abcdef";
  share_id = codes "a1b2c3d4e5f60718";
  rel_path = codes "a/letter";
  version = (codes "00000000000000ab", 3) ∷ [];
  offset = pos 0;
}

abbrev stat : FileStat
stat = record { size = pos 5; mtime_ns = pos 7 }

abbrev served : Served
served = record {
  duplicate = false;
  known = true;
  outbound_blocked = false;
  root = codes "/srv";
  ignore = none;
  row = some letter;
  lstat = λ p. directory;
  opened = true;
  before = some stat;
  reads =
      record { bytes = codes "he"; status = more }
      ∷ record { bytes = codes "llo"; status = more }
      ∷ record { bytes = []; status = end_of_file }
      ∷ [];
  after = some stat;
}

abbrev healthy : List TransferFrame → TransferFrame → WriteResult
healthy frames frame = sent

-- The connection breaks after the first chunk.
abbrev breaks : List TransferFrame → TransferFrame → WriteResult
breaks [] frame = sent
breaks (f ∷ frames) frame = write_failed

served-Ready : Ready tail_of request served letter
unfolding equal agrees counter find bytes_eq join_share_path validate_rel_path has_prefix
    contains_byte has_control check_elements split check_element is_reserved_name filepath_join
    check_no_symlink_parents clean push_element resolve join push_head before_dot member upper
    is_abs join_clean
served-Ready = record {
  from_start = refl;
  single = refl;
  known = refl;
  admitted = refl;
  kept = refl;
  found = refl;
  live = refl;
  version = refl;
  joined = refl;
  regular = λ e. cc;
  opened = refl;
  before = refl;
  complete = (refl, (refl, refl));
  after = refl;
  size = refl;
  hash = refl;
}

fetch_completes_example :
    ((fetch healthy tail_of request served letter.size).outcome ≡ pulled)
    × ((fetch healthy tail_of request served letter.size).content ≡ bytes_read served.reads)
fetch_completes_example =
    fetch_completes healthy tail_of request served letter (λ fs f. refl) served-Ready

letter-pulled : (fetch healthy tail_of request served (pos 5)).outcome ≡ pulled
letter-pulled = fetch_completes_example.0

fetched_content_example :
    Verified tail_of request served (fetch healthy tail_of request served (pos 5)).content
    × HasSize (pos 5) (fetch healthy tail_of request served (pos 5)).content
fetched_content_example = fetched_content healthy tail_of request served (pos 5) letter-pulled

handle_file_request-IsAnswered_example :
    IsAnswered tail_of request served (handle_file_request breaks tail_of request served).frames
handle_file_request-IsAnswered_example =
    handle_file_request-IsAnswered breaks tail_of request served

abbrev header : ℕ → Bool → FileChunkHeader
header n eof = record {
  transfer_id = request.transfer_id;
  share_id = request.share_id;
  rel_path = request.rel_path;
  version = request.version;
  offset = pos n;
  eof = eof;
}

abbrev two_chunks : List PullEvent
two_chunks =
    arrives (header 0 false) (codes "he") wrote ∷ arrives (header 2 true) (codes "llo") wrote ∷ []

two_chunks-pulled : (pull_file request (pos 5) two_chunks).outcome ≡ pulled
unfolding pull_file bytes_eq agrees counter find
two_chunks-pulled = refl

pulled_content_example :
    Arrived request 0 two_chunks (pull_file request (pos 5) two_chunks).content
    × HasSize (pos 5) (pull_file request (pos 5) two_chunks).content
pulled_content_example = pulled_content request (pos 5) two_chunks two_chunks-pulled
