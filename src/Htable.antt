-- ===== src/Htable.antt =====
-- src/htable.c: the hash table. Its elements stand in a list, in the order of insertion, and in
-- the chains of the table. The hash function, ec_murmurhash3 with the process's seed, is a
-- parameter; allocations succeed, and a new reference's address is an argument.
pub mod Bits
pub mod Chains
pub mod Keys
pub mod Ops
pub mod Refines
pub mod Room
pub mod Copy
pub mod Table
