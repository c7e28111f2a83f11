-- ===== src/Query.antt =====
pub mod Schema
pub mod Items
pub mod Blobs
pub mod Tables
pub mod Payload
pub mod BitmapIndex
pub mod Validate
pub mod Writer
pub mod Flush
