-- ===== src/Http.antt =====
-- The HTTP programs, aufg2_3_http.
pub mod Logger
pub mod Response
pub mod Request
pub mod Connection
pub mod Sizes
pub mod Factory
pub mod Address
pub mod Listener
pub mod Threads
pub mod Startup
pub mod Handler
pub mod ServerOptions
pub mod Snatch
pub mod SnatchOptions
pub mod Exchange
