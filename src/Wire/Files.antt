-- ===== src/Wire/Files.antt =====
-- What holds of every index row that `ValidateMessage` lets in.
use syncat.Prelude.{
  ltb, leb, ◌==◌, length, All, Bytes, codes, bytes_eq, has_prefix, contains_byte, bytes_eq_iff,
  int_lt, pos, ℕ, ◌≤◌, ◌<◌, ◌≡◌, ◌≢◌, true, false, ◌&&◌, ◌||◌, not, none, List, [], ◌∷◌, arith,
}
use syncat.Vector.{VersionVector}
use syncat.Path.{dotdot}
use syncat.Path.Split.{split}
use syncat.Reconcile.{file_type_dir, FileInfo}
use syncat.Wire.{
  IndexSnapshotBatch, IndexUpdate, not_normalized, invalid_element, too_many_versions, bad_node_id,
  negative_size, bad_hash, bad_mode, too_many_files, index_update, index_snapshot_batch,
}
use syncat.Wire.Text.{
  refuse_if, first_error-none, refuse_if-none, valid_bounded_text, check_wire_elements,
  is_misshapen, validate_wire_path,
}
use syncat.Wire.Check.{
  all_hex, validate_nodes, max_version_entries, validate_version, validate_file_info,
  validate_each_file, max_wire_collection, validate_files, validate_message,
}

abbrev pub IsNodeId : Bytes → Type 0
IsNodeId node = (length node ≡ 16) × (all_hex node ≡ true)

abbrev pub IsEntryName : Bytes → Type 0
IsEntryName e = (e ≢ []) × (e ≢ dotdot)

pub record IsWirePath (p : Bytes) : Type 0 where
  pub nonempty : p ≢ []
  pub bounded : length p ≤ 4096
  pub relative : has_prefix p (codes "/") ≡ false
  pub no_backslash : contains_byte p 92 ≡ false
  pub no_colon : contains_byte p b':' ≡ false
  pub elements : All IsEntryName (split p)

pub record IsWireFile (f : FileInfo) : Type 0 where
  pub path : IsWirePath f.rel_path
  pub size : int_lt f.size (pos 0) ≡ false
  pub hashed : f.deleted ≡ false → f.type ≢ file_type_dir → length f.sha256 ≡ 32
  pub mode : f.mode < 0o10000
  pub few : length f.version ≤ max_version_entries
  pub nodes : All (λ entry. IsNodeId entry.0) f.version

pub valid_text-bounded :
    (label value : Bytes) (limit : ℕ)
    → valid_bounded_text label value limit true ≡ none
    → (value ≢ []) × (length value ≤ limit)
unfolding valid_bounded_text
valid_text-bounded label value limit v =
    (ground (arith, v, bytes_eq_iff value []), ground (arith, v))

check_wire_elements-All : (es : List Bytes) → check_wire_elements es ≡ none → All IsEntryName es
unfolding check_wire_elements
check_wire_elements-All [] v = tt
check_wire_elements-All (e ∷ es) v =
    let (here, rest) =
      first_error-none (refuse_if (bytes_eq e [] || bytes_eq e dotdot) invalid_element)
        (check_wire_elements es) v in
    let ok = refuse_if-none (bytes_eq e [] || bytes_eq e dotdot) invalid_element here in
    (
      (ground (arith, ok, bytes_eq_iff e []), ground (arith, ok, bytes_eq_iff e dotdot)),
      check_wire_elements-All es rest,
    )

validate_wire_path-IsWirePath : (p : Bytes) → validate_wire_path p ≡ none → IsWirePath p
unfolding validate_wire_path
validate_wire_path-IsWirePath p v =
    let (text, below) = first_error-none _ _ v in
    let (shape, elements) = first_error-none _ _ below in
    let normal = refuse_if-none (is_misshapen p) not_normalized shape in
    let (some_byte, short) = valid_text-bounded (codes "relpath") p 4096 text in
    record {
      nonempty = some_byte;
      bounded = short;
      relative = ground (arith, normal);
      no_backslash = ground (arith, normal);
      no_colon = ground (arith, normal);
      elements = check_wire_elements-All (split p) elements;
    }

validate_nodes-All :
    (v : VersionVector) → validate_nodes v ≡ none → All (λ entry. IsNodeId entry.0) v
unfolding validate_nodes
validate_nodes-All [] h = tt
validate_nodes-All ((node, count) ∷ v) h =
    let (here, rest) = first_error-none _ (validate_nodes v) h in
    let ok = refuse_if-none (not (length node == 16) || not (all_hex node)) bad_node_id here in
    ((ground (arith, ok), ground (arith, ok)), validate_nodes-All v rest)

validate_version-bounded :
    (v : VersionVector)
    → validate_version v ≡ none
    → (length v ≤ max_version_entries) × All (λ entry. IsNodeId entry.0) v
unfolding validate_version
validate_version-bounded v h =
    let (few, nodes) = first_error-none _ (validate_nodes v) h in
    let ok = refuse_if-none (ltb max_version_entries (length v)) too_many_versions few in
    (ground (arith, ok), validate_nodes-All v nodes)

validate_file_info-IsWireFile : (f : FileInfo) → validate_file_info f ≡ none → IsWireFile f
unfolding validate_file_info
validate_file_info-IsWireFile f v =
    let (path, v1) = first_error-none _ _ v in
    let (size, v2) = first_error-none _ _ v1 in
    let (type, v3) = first_error-none _ _ v2 in
    let (hash, v4) = first_error-none _ _ v3 in
    let (mode, version) = first_error-none _ _ v4 in
    let hash_ok =
      refuse_if-none
        (not f.deleted && not (bytes_eq f.type file_type_dir) && not (length f.sha256 == 32))
        bad_hash hash in
    let mode_ok = refuse_if-none (leb 0o10000 f.mode) bad_mode mode in
    let (few, nodes) = validate_version-bounded f.version version in
    record {
      path = validate_wire_path-IsWirePath f.rel_path path;
      size = refuse_if-none (int_lt f.size (pos 0)) negative_size size;
      hashed = ground (arith, hash_ok, bytes_eq_iff f.type file_type_dir);
      mode = ground (arith, mode_ok);
      few = few;
      nodes = nodes;
    }

validate_each_file-All : (fs : List FileInfo) → validate_each_file fs ≡ none → All IsWireFile fs
unfolding validate_each_file
validate_each_file-All [] v = tt
validate_each_file-All (f ∷ fs) v =
    let (here, rest) = first_error-none (validate_file_info f) (validate_each_file fs) v in
    (validate_file_info-IsWireFile f here, validate_each_file-All fs rest)

validate_files-All :
    (fs : List FileInfo)
    → validate_files fs ≡ none
    → (length fs ≤ max_wire_collection) × All IsWireFile fs
unfolding validate_files
validate_files-All fs v =
    let (few, each) = first_error-none _ (validate_each_file fs) v in
    let ok = refuse_if-none (ltb max_wire_collection (length fs)) too_many_files few in
    (ground (arith, ok), validate_each_file-All fs each)

-- In an index update or a snapshot batch that `ValidateMessage` accepts there are at most 65536
-- rows, and each has a short relative path with no empty and no `..` element, a size that is not
-- negative, a 32-byte hash unless it is a directory or deleted, permission bits only, and at most
-- 64 counters under 16-digit hexadecimal node ids.
pub accepted_files :
    (update : IndexUpdate) (batch : IndexSnapshotBatch)
    → validate_message (index_update update) ≡ none
    → validate_message (index_snapshot_batch batch) ≡ none
    → (length update.files ≤ max_wire_collection)
      × All IsWireFile update.files
      × (length batch.files ≤ max_wire_collection)
      × All IsWireFile batch.files
unfolding validate_message
accepted_files update batch u b =
    let (id, files) = first_error-none _ _ u in
    let (batch_id, below) = first_error-none _ _ b in
    let (snapshot, batch_files) = first_error-none _ _ below in
    let (few, rows) = validate_files-All update.files files in
    let (few_batch, batch_rows) = validate_files-All batch.files batch_files in
    (few, rows, few_batch, batch_rows)
