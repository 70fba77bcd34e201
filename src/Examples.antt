-- ===== src/Examples.antt =====
-- Concrete systems and the theorems at concrete inputs.
mod World
mod Sessions
mod Requests
mod Stored
mod Door
mod Agent
mod Clock
