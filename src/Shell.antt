-- ===== src/Shell.antt =====
-- HW1: a small shell, smash, that keeps a list of jobs.
pub mod State
pub mod Monad
pub mod Words
pub mod Jobs
pub mod Commands
pub mod JobCommands
pub mod Smash
pub mod Numbers
pub mod Numbered
pub mod Invariant
pub mod Session
pub mod Compare
pub mod Background
pub mod Tokens
pub mod Foreground
pub mod Suspend
mod Tests
