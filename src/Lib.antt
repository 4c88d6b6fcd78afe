-- ===== src/Lib.antt =====
-- The enclave side of the contact discovery service: the trusted part that keeps session keys, the
-- generated code through which the untrusted host calls it, and the service that finds the registered
-- ones among a client's phones.
--
-- The program. A host process (enclave/include/cds_enclave_u.c, the Java service) calls the enclave by
-- eight ecalls. enclave/include/cds_enclave_t.c, which the SGX SDK generates from
-- enclave/include/sgxsd.edl, checks the pointers of an ecall, copies its arguments into the enclave,
-- calls a function of enclave/c_src/sgxsd-enclave.c and copies the results out. That file keeps the
-- node's Diffie-Hellman keys, a table of pending requests with their pseudo-random keys, and an array
-- of servers; each server is a set of callbacks (the discovery service proper, in Rust). A client
-- negotiates a request, sends a message under it, once, and gets a reply, which leaves the enclave by
-- the one ocall, sgxsd_ocall_reply. The discovery service (enclave/cds_enclave) decodes the phones of a
-- message when its server is called, collects them, and when it is stopped looks all of them up in the
-- host's directory, by a hash table that it goes through without regard to what it holds
-- (c_src/cds-enclave-hash.rs, under the retries of src/ffi/hash_lookup.rs), and answers each request.
--
-- The files:
-- - Prelude: tests, lists and bits over the native numbers; Prelude/Monad is the state monad with an
--   early return in which the C functions are written: a status that is not SGX_SUCCESS is `err`, and
--   what was written before a return stays written. Preserves, Triple and Ends are its rules of proof.
-- - Sgxsd/Types: the structs of enclave/include/sgxsd.h and sgxsd-enclave.h.
-- - Sgxsd/Crypto: BearSSL and curve25519-donna as a record of operations, and as another record the
--   laws that the code relies on: the hash reads a stream, GCM decrypts what it encrypted, its tags
--   are checked by comparison, and the sizes of hashes and tags.
-- - Sgxsd/Platform: the functions of the SGX SDK and the C library, with a type of their own for what
--   they read and change, and the callbacks of a server as an interface.
-- - Sgxsd/State: the static variables of enclave/c_src/sgxsd-enclave.c and its spin locks.
-- - Sgxsd/AesGcm, Sha256, Keys, Node, Pending, Negotiate, Reply, Servers: the functions of that file in
--   its order, under their names less `sgxsd_enclave_`; each names in its first lines the functions that
--   it is about. A long function is cut where the C has a block of its own (a critical section, a copy,
--   a check). The modules below them hold the proofs.
-- - Sgxsd/Reachable: the calls of the entry points, one after the other, as a step relation on the
--   state of the enclave. Sgxsd/Threads: threads at one server, in any order, as a step relation on its
--   descriptor and where each thread is.
-- - Edl/Ocall, Frame, Ecalls: sgxsd_ocall_reply, the steps of an ecall, the ecalls and their table.
-- - Edl/Untrusted: the host's side of the ecalls and of the ocall, enclave/include/cds_enclave_u.c, over
--   the SDK's sgx_ecall as a parameter.
-- - Cds/HashKey, Cds/HashTable: enclave/cds_enclave/c_src/cds-enclave-hash.rs, lane by lane; the vector
--   instructions of the keyed hash and rdrand are parameters. Below it, Lanes, Chains and Slots are
--   about the insertion of the queried phones, Answers and Construct about the directory's way through
--   the table, Unions and Collected about the results, Lookup and Call about the whole, and
--   Full about a slot with no lane left.
-- - Cds/HashLookup: the function of that name in enclave/cds_enclave/src/ffi/hash_lookup.rs.
-- - Cds/Request, Cds/Service: enclave/cds_enclave/src/service/main.rs, with what it calls of
--   enclave/sgx_ffi/src/untrusted_slice.rs and enclave/sgxsd_ffi/src. The two functions by which a
--   request is finished are a record of operations, Replies.
-- - Cds/Server: the entry points of enclave/cds_enclave/src/lib.rs, as the server that Sgxsd/Platform
--   asks for; Replies are then the functions of Sgxsd/Reply.
-- - Directory: the table of phones that the host builds for the enclave, with linear probing, of
--   service/src/main/jni/cds_jni/src/directory_map_native/internal_buffers.rs. Directory/Buffers adds
--   its counts and its growth, and Directory/Map the two sets of buffers and the commit, of
--   service/src/main/jni/cds_jni/src/directory_map_native.rs. The order of bytes and the products and
--   quotients by the load factors, which are floats, are parameters. The other modules are proofs.
-- - Examples: a cryptography that satisfies the laws, a platform and a server, all computable, and the
--   theorems at concrete inputs.
--
-- How the code is represented. A pointer that may be NULL is an Option; a buffer that a function reads
-- and writes in place is an address in a memory of byte strings, which the callbacks share. A `uint8_t`
-- array is the list of its bytes, a `uint64_t` counter wraps at 2 ^ 64, and the message size is
-- truncated to 32 bits where the C narrows it. A critical section is its body between acquire and
-- release, and a lock that is taken while held is recorded. Every function is a total function: the
-- loops are recursions on a list or a count. Three loops of the service are recursions on fuel: the
-- groups of cds_contruct_hash, with one more than the directory has entries, and the chunks of
-- terminate, with as many as there are phones, of which each step takes at least one; the search for a
-- power of two has the 64 that a `usize` has. The two loops of a probe in Directory have as much fuel as
-- there are slots, since they stop where they began. In Rust, a Result is the Result of Prelude/Monad, and a
-- panic is an outcome of its own.
--
-- Not modelled: threads at the same time, but for what Sgxsd/Threads says of one server
-- (everywhere else an entry point runs to its end); the erasure of locals and of registers, which
-- has no effect that the model could see; the size checks of structs at compile time; the
-- contents of an output of an ecall whose function failed. The bridge calls
-- sgxsd_enclave_ratelimit_fingerprint through a declaration with seven parameters while its
-- definition has nine, so that call is a parameter of Edl/Ecalls. BearSSL, curve25519-donna and
-- cmockery are other projects' code. In the service, debug assertions, the erasure of tables and
-- prefetches are left out; where a panic ends, or a server without a state, is a parameter; of a
-- stop that can read its directory through NULL nothing is said, and its outcome is `undefined`.
-- What a failed random number generator leaves in a global key pair is left out: node
-- initialization then fails, and the next one overwrites the pair. Of the directory map, its
-- creation, its reading and writing, the locks around it and the JNI functions that call it are
-- not modelled, and no operation of it runs at the same time as another. Of the clients only the
-- query of client/cds_client/src/lib.rs is there, for the round trip of Cds/Request/RoundTrip;
-- they and the Java service are else outside this library.
pub mod Prelude
pub mod Sgxsd
pub mod Edl
pub mod Cds
pub mod Directory
mod Examples
