-- ===== src/Lifecycle.antt =====
-- internal/chaincode: the proposals that approve and commit a chaincode definition.
pub mod Policy
pub mod Collections
pub mod Propose
pub mod Errors
pub mod Sending
pub mod Invoke
pub mod Sent
pub mod Install
pub mod Queries
pub mod Statuses
pub mod Answers
pub mod Options
pub mod Invoked
