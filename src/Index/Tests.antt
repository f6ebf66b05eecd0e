-- ===== src/Index/Tests.antt =====
-- The theorems on the index at shares and messages that meet their hypotheses.
use syncat.Prelude.{
  take, All, Bytes, codes, bytes_eq, bytes_lt, has_prefix, contains_byte, find, insert, pos, ℕ, ◌<◌,
  ◌≡◌, refl, inl, true, false, none, some, List, [], ◌∷◌, arith, bytes_key,
}
use syncat.Reconcile.{FileInfo}
use syncat.Reconcile.Pass.{index_onto, index_by_path, IgnoreFunc}
use syncat.Wire.{IndexDeltaBatch, IndexUpdate, Message, index_update, index_snapshot_begin}
use syncat.Index.{
  new_share, put_file_and_journal, high_seq, list_share, filter_ignored_rows, FileEntry, ShareStore,
}
use syncat.Index.Answer.{
  advertised, send_snapshot, answer_sync_request, Encoding, AnswerOutcome, answered,
}
use syncat.Index.Receive.{
  new_peer_index, files_of, request_of, resync_request, ack, on_delta_batch, receive, receive_all,
  PeerIndex, writes, reconciles,
}
use syncat.Index.Frames.{IsValid}
use syncat.Index.Journal.{new_share-IsJournal, put_file_and_journal-IsJournal, IsJournal}
use syncat.Index.Snapshot.{snapshot_mirrors}
use syncat.Index.Rounds.{answer_sync_request-answers, Fits}
use syncat.Vector.{u64_mod}
use syncat.Path.Split.{split, join}
use syncat.Wire.Text.{has_control_rune, resolve_relative}
use syncat.Wire.Check.{validate_message}
use syncat.Index.System.{Run, starts, continues, puts, updates, exchanges}
use syncat.Index.Refused.{delta_taken_or_refused, Follows}
use syncat.Index.Blocked.{AnyBad, bad_row_blocks}
use syncat.Index.Parts.{begin_message}

abbrev photos : Bytes
photos = codes "a1b2c3d4e5f60718"

abbrev ignore : IgnoreFunc
ignore = some (λ p is_dir. bytes_eq p (codes "private"))

abbrev file_at : Bytes → ℕ → FileInfo
file_at p count = record {
  rel_path = p;
  type = codes "file";
  size = pos 5;
  mtime_ns = pos 1;
  mode = 0o644;
  sha256 = codes "0123456789abcdef0123456789abcdef";
  version = (codes "00000000000000ab", count) ∷ [];
  deleted = false;
}

abbrev notes : FileInfo
notes = file_at (codes "notes.txt") 1

abbrev edited : FileInfo
edited = file_at (codes "notes.txt") 2

-- A name that Linux allows.
abbrev at_noon : FileInfo
at_noon = file_at (codes "12:00") 1

abbrev enc : Encoding
enc = record {
  snapshot_envelope = λ n. 120;
  delta_envelope = λ from to. 120;
  file_size = λ f. 200;
  entry_size = λ j. 210;
}

abbrev epoch : Bytes
epoch = codes "e1"

abbrev first_share : ShareStore
first_share = put_file_and_journal (pos 5) notes (new_share epoch)

first-Run : Run ignore photos first_share new_peer_index
first-Run = continues (starts epoch) (puts (pos 5) notes tt)

abbrev first_frames : List Message
first_frames =
    (answer_sync_request photos ignore enc true (codes "s1") (request_of photos new_peer_index)
      first_share).0

abbrev mirrored : PeerIndex
mirrored = receive_all (take 3 first_frames) new_peer_index

first_room : first_share.next_seq < u64_mod
unfolding put_file_and_journal receive_all answer_sync_request bytes_eq filter_ignored_rows
    list_share insert find validate_message has_control_rune contains_byte has_prefix
    resolve_relative split join
first_room = omega arith

first_fresh : find new_peer_index.staging (codes "s1") ≡ none
unfolding put_file_and_journal receive_all answer_sync_request bytes_eq filter_ignored_rows
    list_share insert find validate_message has_control_rune contains_byte has_prefix
    resolve_relative split join
first_fresh = refl

mirrored-Run : Run ignore photos first_share mirrored
mirrored-Run = continues first-Run (exchanges enc (codes "s1") 3 first_room first_fresh refl)

abbrev stored : FileEntry
stored = record { info = notes; ignored = false }

abbrev edited_share : ShareStore
edited_share = put_file_and_journal (pos 6) edited first_share

edited-Run : Run ignore photos edited_share mirrored
unfolding put_file_and_journal receive_all answer_sync_request bytes_eq filter_ignored_rows
    list_share insert find validate_message has_control_rune contains_byte has_prefix
    resolve_relative split join
edited-Run = continues mirrored-Run (puts (pos 6) edited (refl, tt))

-- The pass that changed the row also sends it at once.
abbrev told : IndexUpdate
told = record { share_id = photos; files = edited ∷ []; full = false }

abbrev edited_entry : FileEntry
edited_entry = record { info = edited; ignored = false }

edited-found : find edited_share.files (codes "notes.txt") ≡ some edited_entry
unfolding put_file_and_journal insert find bytes_eq
edited-found = refl

told-Run : Run ignore photos edited_share (receive true (index_update told) mirrored).0
told-Run = continues edited-Run (updates told ((edited_entry, edited-found, refl), tt))

abbrev next_answer : List Message × AnswerOutcome
next_answer =
    answer_sync_request photos ignore enc true (codes "s2") (request_of photos mirrored)
      edited_share

-- A mirror of another epoch.
abbrev stale : PeerIndex
stale = record new_peer_index {
  mirror = (codes "old.txt", file_at (codes "old.txt") 1) ∷ [];
  cursor = record { epoch = codes "e0"; applied_seq = 9; snapshot_id = []; snapshot_batch = 0 };
}

abbrev snapshot_frames : List Message
snapshot_frames = (send_snapshot photos ignore enc (codes "s1") first_share).0

snapshot_fresh : find stale.staging (codes "s1") ≡ none
unfolding put_file_and_journal receive_all answer_sync_request bytes_eq filter_ignored_rows
    list_share insert find validate_message has_control_rune contains_byte has_prefix
    resolve_relative split join
snapshot_fresh = refl

snapshot_whole : (send_snapshot photos ignore enc (codes "s1") first_share).1 ≡ answered
unfolding put_file_and_journal receive_all answer_sync_request bytes_eq filter_ignored_rows
    list_share insert find validate_message has_control_rune contains_byte has_prefix
    resolve_relative split join
snapshot_whole = refl

snapshot-IsValid : All IsValid snapshot_frames
unfolding put_file_and_journal receive_all answer_sync_request bytes_eq filter_ignored_rows
    list_share insert find validate_message has_control_rune contains_byte has_prefix
    resolve_relative split join
snapshot-IsValid = (refl, (refl, (refl, tt)))

snapshot_mirrors_example :
    let v = receive_all snapshot_frames stale in
    (v.mirror ≡ index_by_path (advertised ignore first_share))
    × (v.cursor.epoch ≡ first_share.epoch)
    × (v.cursor.applied_seq ≡ high_seq first_share)
snapshot_mirrors_example =
    snapshot_mirrors photos ignore enc (codes "s1") first_share stale snapshot_fresh snapshot_whole
      snapshot-IsValid

first-IsJournal : IsJournal 1 first_share
first-IsJournal =
    put_file_and_journal-IsJournal 1 (pos 5) notes (new_share epoch) tt (new_share-IsJournal epoch)

first-Fits : Fits ignore enc first_share
unfolding put_file_and_journal filter_ignored_rows list_share insert find bytes_eq
first-Fits = record {
  files = (λ batch room. omega arith, tt);
  entries = (λ from to below_from below_to. omega arith, tt);
}

answer_sync_request-answers_example :
    (answer_sync_request photos ignore enc true
      (codes "s1")
      (request_of photos stale)
      first_share).1
    ≡ answered
answer_sync_request-answers_example =
    answer_sync_request-answers photos ignore enc (codes "s1") (request_of photos stale) 1
      first_share first-IsJournal first-Fits

-- A delta that leaves a number out.
abbrev gap : IndexDeltaBatch
gap = record {
  share_id = photos;
  epoch = codes "e0";
  from_seq = 11;
  to_seq = 11;
  entries = record { seq = 11; file = edited } ∷ [];
}

delta_taken_or_refused_example :
    (Follows gap stale
      → on_delta_batch gap stale ≡ (
        record stale {
          mirror = index_onto stale.mirror (files_of gap.entries);
          cursor = record stale.cursor { applied_seq = gap.to_seq };
        },
        writes (ack gap.share_id gap.epoch gap.to_seq []) ∷ reconciles ∷ [],
      ))
    × ((Follows gap stale → ⊥)
        → on_delta_batch gap stale ≡ (stale, writes (resync_request gap.share_id stale) ∷ []))
delta_taken_or_refused_example =
    delta_taken_or_refused gap stale (omega arith) (omega arith) (omega arith) (omega arith)

abbrev noon_share : ShareStore
noon_share = put_file_and_journal (pos 6) at_noon first_share

noon_whole : (send_snapshot photos ignore enc (codes "s1") noon_share).1 ≡ answered
unfolding put_file_and_journal receive_all answer_sync_request bytes_eq filter_ignored_rows
    list_share insert find bytes_lt validate_message has_control_rune contains_byte has_prefix
    resolve_relative split join
noon_whole = refl

noon_begin : IsValid (index_snapshot_begin (begin_message photos (codes "s1") noon_share))
unfolding put_file_and_journal receive_all answer_sync_request bytes_eq filter_ignored_rows
    list_share insert find bytes_lt validate_message has_control_rune contains_byte has_prefix
    resolve_relative split join
noon_begin = refl

noon_bad : AnyBad (advertised ignore noon_share)
unfolding put_file_and_journal receive_all answer_sync_request bytes_eq filter_ignored_rows
    list_share insert find bytes_lt validate_message has_control_rune contains_byte has_prefix
    resolve_relative split join
noon_bad = inl (λ e. cc)

bad_row_blocks_example :
    (receive_all (send_snapshot photos ignore enc (codes "s1") noon_share).0 stale).mirror
    ≡ stale.mirror
bad_row_blocks_example =
    bad_row_blocks photos ignore enc (codes "s1") noon_share stale noon_whole noon_begin noon_bad
