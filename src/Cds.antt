-- ===== src/Cds.antt =====
-- The contact discovery service inside the enclave, enclave/cds_enclave: the oblivious hash lookup
-- and the server whose callbacks the enclave calls.
pub mod HashKey
pub mod HashTable
pub mod HashLookup
pub mod Request
pub mod Service
pub mod Server
