-- ===== src/Bft.antt =====
-- The basic file transfer protocol, aufg4.
pub mod Logger
pub mod Flags
pub mod Samples
pub mod Datagram
pub mod Files
pub mod FileWriter
pub mod ServerOptions
pub mod ClientOptions
pub mod Server
pub mod Client
pub mod Transfer
pub mod Session
pub mod Network
