-- ===== src/Examples.antt =====
-- The theorems applied at concrete inputs, and tests of the definitions.
mod Billing
mod Reserve
mod Jobs
mod Inference
mod Policy
mod Execute
mod Literal
mod Source
mod Httpx
mod Rag
