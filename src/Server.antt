-- ===== src/Server.antt =====
-- HW5: a server that receives files by a trivial file transfer protocol over UDP.
pub mod Io
pub mod Packet
pub mod Transfer
pub mod Request
pub mod Bytes
pub mod Upload
pub mod Abandon
pub mod Names
pub mod Whole
pub mod Main
pub mod Uploads
mod Tests
pub mod Progress
pub mod Blocks
pub mod Contents
pub mod Ends
