-- ===== src/Examples.antt =====
-- Concrete inputs: a self-delimiting encoding of the messages, a varint codec for small numbers,
-- and the theorems applied to them.
pub mod Wire
pub mod Evaluator
pub mod Policies
pub mod Packages
pub mod Sending
pub mod Peers
pub mod Blocks
pub mod Texts
pub mod Messages
pub mod Heights
pub mod RwSets
pub mod Transactions
pub mod Channels
pub mod Members
pub mod Delivery
pub mod Lifecycle
