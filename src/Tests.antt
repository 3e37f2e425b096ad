-- ===== src/Tests.antt =====
-- Runs of the model, and the theorems at concrete inputs.
mod Setup
mod Runs
mod Tables
mod Files
mod Restart
mod Rewrite
mod Promise
mod Caches
mod Prune
mod Durable
mod Live
mod Generated
