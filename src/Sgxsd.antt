-- ===== src/Sgxsd.antt =====
-- enclave/c_src/sgxsd-enclave.c and its headers, a module for each group of its functions.
pub mod Types
pub mod Crypto
pub mod AesGcm
pub mod Sha256
pub mod Platform
pub mod State
pub mod Keys
pub mod Node
pub mod Pending
pub mod Reply
pub mod Negotiate
pub mod Servers
pub mod Reachable
pub mod Threads
