-- ===== src/Transfer.antt =====
-- File transfers of internal/sync/transfer.go: one file asked for, sent as chunks, and taken in.
pub mod Pull
pub mod Serve
pub mod Content
pub mod Chunks
pub mod Outcome
pub mod Answer
pub mod Handle
pub mod RoundTrip
pub mod Delivery
pub mod Whole
pub mod Complete
mod Tests
use syncat.Prelude.{Bytes}
use syncat.Wire.{FileChunkHeader, ErrorMessage}

-- A frame that answers a FileRequest.
pub data TransferFrame : Type 0 where
  chunk : FileChunkHeader → Bytes → TransferFrame
  failure : ErrorMessage → TransferFrame
