-- ===== src/Tx.antt =====
-- internal/utils and internal/chaincode: building, signing and reading transactions. The messages
-- are those of the protobuf library, with the fields that the code names. Nil and empty are one for
-- a field of bytes, as protobuf writes them.
pub mod Messages
pub mod Marshal
pub mod Concat
pub mod Envelope
pub mod EnvelopeReads
pub mod Block
pub mod BlockReads
pub mod BlockConfig
pub mod Sign
pub mod Same
pub mod Contents
pub mod Action
pub mod Hash
pub mod Propose
pub mod TxId
