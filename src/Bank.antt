-- ===== src/Bank.antt =====
-- HW4: a bank whose accounts are shared by automatic teller machines (ATMs), each a thread.
pub mod Dict
pub mod State
pub mod Monad
pub mod Locks
pub mod Totals
pub mod Readers
pub mod Threads
pub mod Updates
pub mod Atm
pub mod Ledger
pub mod Invariant
pub mod Kept
pub mod Refines
pub mod Script
pub mod Replay
pub mod Fees
pub mod Status
pub mod Money
pub mod Numerals
pub mod Written
pub mod Repeats
pub mod Reclose
pub mod System
mod Tests
