-- ===== src/Sequence.antt =====
-- src/sequence_diagram/model: the model of sequence diagrams.
pub mod Message
pub mod Diagram
pub mod Blocks
pub mod Chains
pub mod Lambdas
pub mod Endpoints
mod Samples
