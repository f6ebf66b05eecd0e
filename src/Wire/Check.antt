-- ===== src/Wire/Check.antt =====
-- `ValidateMessage` of internal/protocol/message.go and the checks on rows, deltas and single
-- messages that it is made of, in its order.
use syncat.Prelude.{
  ltb, leb, ◌==◌, if◌then◌else◌, length, Bytes, codes, bytes_eq, int_lt, pos, ℕ, ◌+◌, ◌-◌, ◌*◌, ◌%◌,
  Bool, true, false, ◌&&◌, ◌||◌, not, Option, none, List, [], ◌∷◌,
}
use syncat.Vector.{VersionVector, u64_mod}
use syncat.Reconcile.{file_type_file, file_type_dir, file_type_symlink, FileInfo}
use syncat.Wire.{
  access_none, access_pending, access_granted, access_denied, access_revoked, WireError,
  ShareListEntry, IndexDeltaEntry, IndexDeltaBatch, FileChunkHeader, ErrorMessage, Message,
  too_many_versions, bad_node_id, negative_size, bad_file_type, bad_hash, bad_mode, too_many_files,
  bad_transfer_id, negative_offset, too_many_shares, bad_permission, bad_access, bad_delta_range,
  non_contiguous_delta, message_too_long, share_list, subscribe_request, access_update,
  index_update, index_sync_request, index_snapshot_begin, index_snapshot_batch, index_snapshot_end,
  index_delta_batch, index_ack, file_request, error_message, cancel_transfer, other_message,
}
use syncat.Wire.Text.{
  first_error, refuse_if, valid_bounded_text, max_wire_id_len, validate_share_id,
  validate_wire_path,
}

abbrev pub is_lower_hex : ℕ → Bool
is_lower_hex c = (leb b'0' c && leb c b'9') || (leb b'a' c && leb c b'f')

unfoldable pub all_hex : Bytes → Bool
all_hex [] = true
all_hex (c ∷ s) = is_lower_hex c && all_hex s

unfoldable pub validate_nodes : VersionVector → Option WireError
unfolding all_hex
validate_nodes [] = none
validate_nodes ((node, count) ∷ v) =
    first_error (refuse_if (not (length node == 16) || not (all_hex node)) bad_node_id)
      (validate_nodes v)

abbrev pub max_version_entries : ℕ
max_version_entries = 64

unfoldable pub validate_version : VersionVector → Option WireError
unfolding validate_nodes
validate_version v =
    first_error (refuse_if (ltb max_version_entries (length v)) too_many_versions)
      (validate_nodes v)

unfoldable pub validate_file_info : FileInfo → Option WireError
unfolding validate_wire_path validate_version
validate_file_info f = first_error (validate_wire_path f.rel_path) (
    first_error (refuse_if (int_lt f.size (pos 0)) negative_size) (
      first_error
        (refuse_if
          (not (
            bytes_eq f.type file_type_file
            || bytes_eq f.type file_type_dir
            || bytes_eq f.type file_type_symlink))
          bad_file_type)
        (first_error
          (refuse_if
            (not f.deleted && not (bytes_eq f.type file_type_dir) && not (length f.sha256 == 32))
            bad_hash)
          (first_error (refuse_if (leb 0o10000 f.mode) bad_mode) (validate_version f.version)))))

unfoldable pub validate_each_file : List FileInfo → Option WireError
unfolding validate_file_info
validate_each_file [] = none
validate_each_file (f ∷ fs) = first_error (validate_file_info f) (validate_each_file fs)

abbrev pub max_wire_collection : ℕ
max_wire_collection = 65536

unfoldable pub validate_files : List FileInfo → Option WireError
unfolding validate_each_file
validate_files files =
    first_error (refuse_if (ltb max_wire_collection (length files)) too_many_files)
      (validate_each_file files)

unfoldable pub validate_transfer_id : Bytes → Option WireError
unfolding all_hex
validate_transfer_id id = refuse_if (not (length id == 32) || not (all_hex id)) bad_transfer_id

unfoldable pub validate_file_chunk_header : FileChunkHeader → Option WireError
unfolding validate_transfer_id validate_share_id validate_wire_path validate_version
validate_file_chunk_header h = first_error (validate_transfer_id h.transfer_id) (
    first_error (validate_share_id h.share_id) (
      first_error (validate_wire_path h.rel_path) (
        first_error (refuse_if (int_lt h.offset (pos 0)) negative_offset)
          (validate_version h.version))))

abbrev pub valid_access : Bytes → Bool
valid_access a =
    bytes_eq a access_none
    || bytes_eq a access_pending
    || bytes_eq a access_granted
    || bytes_eq a access_denied
    || bytes_eq a access_revoked

unfoldable pub validate_shares : List ShareListEntry → Option WireError
unfolding validate_share_id valid_bounded_text
validate_shares [] = none
validate_shares (s ∷ shares) = first_error (validate_share_id s.share_id) (
    first_error (valid_bounded_text (codes "share name") s.name 256 true) (
      first_error
        (refuse_if
          (not (bytes_eq s.permission (codes "read-only"))
            && not (bytes_eq s.permission (codes "read-write")))
          bad_permission)
        (first_error (refuse_if (not (valid_access s.access)) bad_access)
          (validate_shares shares))))

-- The loop over a delta's entries: `seq` is `m.FromSeq + uint64(i)` at the entry it stands on.
unfoldable pub validate_entries : ℕ → List IndexDeltaEntry → Option WireError
unfolding validate_file_info
validate_entries seq [] = none
validate_entries seq (e ∷ es) =
    first_error (refuse_if (not (e.seq == seq)) non_contiguous_delta)
      (first_error (validate_file_info e.file) (validate_entries ((seq + 1) % u64_mod) es))

-- `len(m.Entries) == 0 || m.FromSeq == 0 || ...`; the subtractions stand after `m.ToSeq < m.FromSeq`.
abbrev pub bad_range : IndexDeltaBatch → Bool
bad_range m =
    length m.entries == 0
    || m.from_seq == 0
    || ltb m.to_seq m.from_seq
    || m.to_seq - m.from_seq == u64_mod - 1
    || not ((m.to_seq - m.from_seq + 1) % u64_mod == length m.entries)

unfoldable pub validate_delta_batch : IndexDeltaBatch → Option WireError
unfolding validate_share_id valid_bounded_text validate_entries
validate_delta_batch m = first_error (validate_share_id m.share_id) (
    first_error (valid_bounded_text (codes "epoch") m.epoch max_wire_id_len true) (
      first_error (refuse_if (bad_range m) bad_delta_range)
        (validate_entries m.from_seq m.entries)))

abbrev pub unless_empty : Bytes → Option WireError → Option WireError
unless_empty s checked = if bytes_eq s [] then none else checked

unfoldable pub validate_error : ErrorMessage → Option WireError
unfolding validate_share_id valid_bounded_text validate_wire_path validate_transfer_id
validate_error m = first_error (valid_bounded_text (codes "error code") m.code 128 true) (
    first_error (refuse_if (ltb (512 * 4) (length m.msg)) message_too_long) (
      first_error (unless_empty m.share_id (validate_share_id m.share_id)) (
        first_error (unless_empty m.rel_path (validate_wire_path m.rel_path)) (
          if bytes_eq m.share_id [] && bytes_eq m.rel_path [] && bytes_eq m.transfer_id []
          then none
          else validate_transfer_id m.transfer_id))))

unfoldable pub validate_message : Message → Option WireError
unfolding validate_share_id valid_bounded_text validate_wire_path validate_transfer_id
    validate_files validate_shares validate_delta_batch validate_error validate_version
validate_message (share_list shares) =
    first_error (refuse_if (ltb max_wire_collection (length shares)) too_many_shares)
      (validate_shares shares)
validate_message (subscribe_request id) = validate_share_id id
validate_message (access_update id access) =
    first_error (validate_share_id id) (refuse_if (not (valid_access access)) bad_access)
validate_message (index_update m) =
    first_error (validate_share_id m.share_id) (validate_files m.files)
validate_message (index_sync_request m) = first_error (validate_share_id m.share_id) (
    first_error (valid_bounded_text (codes "epoch") m.epoch max_wire_id_len false)
      (valid_bounded_text (codes "snapshot_id") m.snapshot_id max_wire_id_len false))
validate_message (index_snapshot_begin m) = first_error (validate_share_id m.share_id) (
    first_error (valid_bounded_text (codes "snapshot_id") m.snapshot_id max_wire_id_len true)
      (valid_bounded_text (codes "epoch") m.epoch max_wire_id_len true))
validate_message (index_snapshot_batch m) = first_error (validate_share_id m.share_id) (
    first_error (valid_bounded_text (codes "snapshot_id") m.snapshot_id max_wire_id_len true)
      (validate_files m.files))
validate_message (index_snapshot_end m) =
    first_error (validate_share_id m.share_id)
      (valid_bounded_text (codes "snapshot_id") m.snapshot_id max_wire_id_len true)
validate_message (index_delta_batch m) = validate_delta_batch m
validate_message (index_ack m) = first_error (validate_share_id m.share_id) (
    first_error (valid_bounded_text (codes "epoch") m.epoch max_wire_id_len true)
      (valid_bounded_text (codes "snapshot_id") m.snapshot_id max_wire_id_len false))
validate_message (file_request m) = first_error (validate_transfer_id m.transfer_id) (
    first_error (validate_share_id m.share_id) (
      first_error (validate_wire_path m.rel_path) (
        first_error (refuse_if (int_lt m.offset (pos 0)) negative_offset)
          (validate_version m.version))))
validate_message (error_message m) = validate_error m
validate_message (cancel_transfer id) = validate_transfer_id id
validate_message other_message = none
