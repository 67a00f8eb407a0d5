-- ===== src/Wire.antt =====
-- How the library puts its values on the wire.
pub mod Bytes
pub mod Stream
pub mod Encoded
pub mod SizedLength
pub mod StreamIo
pub mod DescriptorIo
pub mod Containers
pub mod Descriptors
mod Tests
