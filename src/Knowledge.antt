-- ===== src/Knowledge.antt =====
-- protoneo/knowledge: the knowledge graph of a document.
pub mod Graph
pub mod Coref
pub mod Chunker
pub mod Processor
pub mod Verifier
