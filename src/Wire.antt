-- ===== src/Wire.antt =====
-- The messages of internal/protocol/message.go that `ValidateMessage` looks into, with the errors
-- it returns. A field of Go type string or []byte is its bytes, an unsigned number is a ℕ, a signed
-- one a ℤ. `none` stands for Go's nil error.
pub mod Frame
pub mod Text
pub mod Check
pub mod Delta
pub mod Files
pub mod Keepalive
pub mod Handshake
pub mod Stream
pub mod Fairness
pub mod Sent
pub mod Awaits
pub mod Progress
mod Tests
use syncat.Prelude.{Bytes, codes, ℤ, ℕ, Bool, List}
use syncat.Vector.{VersionVector}
use syncat.Reconcile.{FileInfo}

pub data WireError : Type 0 where
  empty_text control_character : Bytes → WireError
  text_too_long : Bytes → ℕ → WireError
  not_normalized invalid_element : WireError
  too_many_versions bad_node_id : WireError
  negative_size bad_file_type bad_hash bad_mode : WireError
  too_many_files : WireError
  bad_transfer_id negative_offset : WireError
  too_many_shares bad_permission bad_access : WireError
  bad_delta_range non_contiguous_delta message_too_long : WireError

abbrev pub access_none : Bytes
access_none = codes "none"

abbrev pub access_pending : Bytes
access_pending = codes "pending"

abbrev pub access_granted : Bytes
access_granted = codes "granted"

abbrev pub access_denied : Bytes
access_denied = codes "denied"

abbrev pub access_revoked : Bytes
access_revoked = codes "revoked"

pub record ShareListEntry : Type 0 where
  pub share_id : Bytes
  pub name : Bytes
  pub permission : Bytes
  pub approval_required : Bool
  pub access : Bytes

pub record IndexDeltaEntry : Type 0 where
  pub seq : ℕ
  pub file : FileInfo

pub record IndexDeltaBatch : Type 0 where
  pub share_id : Bytes
  pub epoch : Bytes
  pub from_seq : ℕ
  pub to_seq : ℕ
  pub entries : List IndexDeltaEntry

pub record IndexSyncRequest : Type 0 where
  pub share_id : Bytes
  pub epoch : Bytes
  pub applied_seq : ℕ
  pub snapshot_id : Bytes
  pub snapshot_batch : ℕ

pub record IndexSnapshotBegin : Type 0 where
  pub share_id : Bytes
  pub snapshot_id : Bytes
  pub epoch : Bytes
  pub high_seq : ℕ

pub record IndexSnapshotBatch : Type 0 where
  pub share_id : Bytes
  pub snapshot_id : Bytes
  pub batch : ℕ
  pub files : List FileInfo

pub record IndexSnapshotEnd : Type 0 where
  pub share_id : Bytes
  pub snapshot_id : Bytes
  pub batch_count : ℕ

pub record IndexUpdate : Type 0 where
  pub share_id : Bytes
  pub files : List FileInfo
  pub full : Bool

pub record IndexAck : Type 0 where
  pub share_id : Bytes
  pub epoch : Bytes
  pub applied_seq : ℕ
  pub snapshot_id : Bytes
  pub replay : Bool

pub record FileRequest : Type 0 where
  pub transfer_id : Bytes
  pub share_id : Bytes
  pub rel_path : Bytes
  pub version : VersionVector
  pub offset : ℤ

pub record FileChunkHeader : Type 0 where
  pub transfer_id : Bytes
  pub share_id : Bytes
  pub rel_path : Bytes
  pub version : VersionVector
  pub offset : ℤ
  pub eof : Bool

pub record ErrorMessage : Type 0 where
  pub code : Bytes
  pub msg : Bytes
  pub share_id : Bytes
  pub rel_path : Bytes
  pub transfer_id : Bytes

-- The cases of the type switch; `other_message` is a value of any other type.
pub data Message : Type 0 where
  share_list : List ShareListEntry → Message
  subscribe_request : Bytes → Message
  access_update : Bytes → Bytes → Message
  index_update : IndexUpdate → Message
  index_sync_request : IndexSyncRequest → Message
  index_snapshot_begin : IndexSnapshotBegin → Message
  index_snapshot_batch : IndexSnapshotBatch → Message
  index_snapshot_end : IndexSnapshotEnd → Message
  index_delta_batch : IndexDeltaBatch → Message
  index_ack : IndexAck → Message
  file_request : FileRequest → Message
  error_message : ErrorMessage → Message
  cancel_transfer : Bytes → Message
  other_message : Message
