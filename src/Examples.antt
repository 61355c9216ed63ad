-- ===== src/Examples.antt =====
-- Concrete worlds, tests, and the theorems at concrete inputs.
mod World
mod Tokens
mod Library
mod Requests
mod Cutoff
mod Signing
mod Startup
mod Traffic
mod Stores
mod Cached
mod Gateway
