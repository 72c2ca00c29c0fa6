-- ===== src/Tests.antt =====
-- Runs of the definitions on concrete inputs, and the theorems at inputs that meet their hypotheses.
mod Data
mod Codec
mod Store
mod Serving
mod Client
mod Generators
mod Config
mod Tasks
mod Cli
mod Interleaved
mod Bench
mod Lifecycle
