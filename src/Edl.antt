-- ===== src/Edl.antt =====
-- The trusted bridge, enclave/include/cds_enclave_t.c, which the SGX SDK generates from sgxsd.edl.
pub mod Ocall
pub mod Frame
pub mod Ecalls
pub mod Untrusted
