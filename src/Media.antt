-- ===== src/Media.antt =====
-- The media plane of include/eavp/media and src/media.
pub mod Queue
pub mod BackendNode
pub mod Buffer
pub mod Capability
pub mod Codec
pub mod Flow
pub mod Frame
pub mod Graph
pub mod Node
pub mod Pipeline
pub mod Port
pub mod Reference
pub mod Registry
pub mod VideoFormat
