-- ===== src/Rag.antt =====
-- internal/rag: the cutting of a text into chunks.
pub mod Chunk
