-- ===== src/Tests.antt =====
-- The theorems at concrete inputs.
mod Instances
mod Ranked
mod Server
mod RingBuffer
mod Measures
mod Services
mod Judging
mod Stored
mod Collected
mod Web
mod Commands
mod Pipeline
mod Shown
mod Gateway
