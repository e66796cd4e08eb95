-- ===== src/SequenceVisitor.antt =====
-- src/sequence_diagram/visitor: how the visitor of the syntax tree fills a sequence diagram.
pub mod Context
pub mod Messages
pub mod Visits
pub mod Declarations
pub mod Handlers
pub mod Walk
pub mod Emits
pub mod Steps
pub mod Traversal
pub mod Renamed
pub mod Composition
pub mod Finalization
mod Samples
