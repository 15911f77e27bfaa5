-- ===== src/Determ/Tests.antt =====
-- The theorems on src/include/determ.h at concrete states.
pub mod States
mod Ring
mod Queues
mod Words
mod Spawn
mod Start
