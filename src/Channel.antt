-- ===== src/Channel.antt =====
-- internal/channel: creating and updating channels. The orderer is a client that is connected to
-- and sent an envelope.
pub mod Update
pub mod Checks
pub mod Signed
pub mod Sending
pub mod Envelope
pub mod Organization
pub mod Policies
pub mod Members
pub mod Listing
pub mod Responses
pub mod Joining
pub mod Joined
