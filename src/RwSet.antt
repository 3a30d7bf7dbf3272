-- ===== src/RwSet.antt =====
-- internal/rwsetutil/rw_util.go: the read-write set of a transaction, public and private, and its
-- conversion to and from the protobuf messages of the ledger. The contents of a `KVRWSet` and of a
-- `HashedRWSet` are the ledger library's.
pub mod Messages
pub mod Convert
pub mod RoundTrip
pub mod Writes
pub mod Lookup
pub use Messages.*
use fabricsdk_go.Prelude.{String, List, Option, Bytes}
