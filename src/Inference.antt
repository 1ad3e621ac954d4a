-- ===== src/Inference.antt =====
-- internal/inference: the bounded-concurrency gate of the executor.
pub mod Admission
pub mod Payload
pub mod Inputs
pub mod Routing
pub mod Execute
