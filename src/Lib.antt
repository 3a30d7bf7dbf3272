-- ===== src/Lib.antt =====
-- Verification of fabricsdk-go, a client library for Hyperledger Fabric.
--
-- Most of the code builds, signs and reads protobuf messages. A transaction starts as a proposal
-- (internal/utils/protoutil.go), which gets its id from a nonce and the creator; peers endorse
-- it (internal/utils/txutil.go); the client assembles the responses into a signed envelope
-- (internal/chaincode/config.go, and again in txutil.go); readers take the action and the id
-- back from the envelope. Endorsers' results are read-write sets
-- (internal/rwsetutil/rw_util.go), whose versions are heights (version.go), written with the
-- order-preserving varints of internal/utils/util.go.
--
-- - Prelude: byte slices are lists of numbers; a Go pair (value, error) is a `Result`, with a Go
--   panic as its third case; errors keep the text the source gives them, without formatted
--   values.
-- - Proto: proto.Marshal and proto.Unmarshal, a parameter for each message type, with the law
--   that what was marshalled is read back.
-- - Varint (internal/utils/util.go): `encode_order_preserving_var_uint64` and
--   `decode_order_preserving_var_uint64`, with eight big-endian bytes as encoding/binary has
--   them; the protobuf varints are a parameter that is only relied on below 128, since a size is
--   at most 8.
-- - Height (internal/rwsetutil/version.go): `to_bytes`, `new_height_from_bytes`, `compare` and
--   `are_same`; uint64 arithmetic wraps at 2^64, and the conversion to int is two's complement.
-- - RwSet (internal/rwsetutil/rw_util.go): the structs, their conversion to messages and bytes
--   in both directions, lookups and constructors. A method that sets its receiver returns the
--   receiver's new value.
-- - Tx (internal/utils and internal/chaincode/config.go): Messages has the protobuf messages
--   with the fields that the code uses, where nil and empty bytes are one; Marshal the wrappers
--   of the protobuf library; Sign `createSignedTx` and `CreateSignedTx`; Action, TxId and Hash
--   what reads transactions, their ids and the endorsers' responses; Propose how proposals are
--   made, with SHA-256, hexadecimal printing, the nonce and the clock as parameters.
-- - Also under Tx: Concat has the two functions that concatenate bytes, with the writes at
--   indices; Envelope the envelopes and headers of internal/utils/common.go and txutil.go, Block
--   the envelopes and the metadata of a block (common.go and blockutil.go), where the numbers of
--   header types and metadata are parameters.
-- - Channel (internal/channel): Update has `sanityCheckAndSignConfigTx`, `Create` and `Update`
--   of update.go, where nil without an error is a result of its own and the calls to the orderer
--   are a list; Envelope `UpdateEnvelope` of channel.go, whose map is an association list;
--   Organization the policies of config.go; Members the adding and removing of organisations,
--   with the configtx library as a parameter; Listing has list.go and Joining `Join` and
--   `Join2`, with the peers and the deliver client as parameters.
-- - Lifecycle (internal/chaincode): Policy and Collections read the policies and the collection
--   configuration of a definition (policy.go and approve.go), with the policy language, JSON and
--   protobuf as parameters; Propose has `createApproveChaincodeProposal`, which changes the
--   request that it is given, and `createCommitProposal`. Sending has
--   `broadcastProposalEnvelope`, `Approve` and `Commit` with the calls that the orderer and the
--   deliver group see as a list; Invoke has invoke.go, on the answers of the endorsers in the
--   order in which they come; Install, Queries and Options have install.go, list.go and
--   option.go.
-- - Policy (internal/chaincode/policy/policydsl.go): Policy.antt has the signature policies and
--   their builders, Principals the regular expression for principals, Gates `outof`, `and`, `or`
--   and `firstPass`, SecondPass `secondPass` with the context as an explicit state, FromString
--   `FromString`. govaluate is a parameter: what it relies on is stated as `CallsOnly`
--   (evaluation does nothing but call the functions) and `Reads` (a text is read as the calls
--   that it spells). Language has the documented language with its meaning; Calls the calls that
--   texts spell; Satisfies when signatures satisfy a policy. Arguments says which rule each
--   argument of `secondPass` becomes. Floats are an abstract type with their conversion to int.
-- - Package (internal/ccplatform): Cds has the packages of cds.go, Signed those of scds.go and
--   `ExtractSignedCCDepSpec`, where nil and empty bytes differ; a method that sets its receiver
--   returns it with its result. The buffer that a package is loaded from is kept as given, a nil
--   one as an empty one. Choice has `GetCCPackage` of provider.go, Registry the registry of
--   platform.go as an association list.
-- - Deliver (internal/client/orderer/deliver.go): the requests for a block and what is read
--   after them; the state behind the gRPC stream is a parameter that sending and receiving
--   change.
-- - DeliverGroup (internal/client/delivegroup/client.go): `ClientWait`, `setError` and `Wait` as
--   a step relation: any goroutine may be the next to receive a message. Streams tells without
--   the loop how the messages of a peer end its wait. The timeout of the context is not
--   modelled.
-- - Examples: a lawful encoding of all messages, and each theorem at a concrete input.
--
-- All loops are structural recursion over the slices they range over, so no fuel is needed. Not
-- modelled: network and file input and output, the Go crypto library, generated protobuf code,
-- genesis configurations, the Go platform and tar archives (internal/ccplatform), the decoding
-- of blocks into JSON (internal/blockutil), keys and certificates (internal/cryptoutil), the
-- clients of the CA and of gRPC, and the gateway, which passes arguments on.
pub mod Prelude
pub mod Varint
pub mod Height
pub mod Proto
pub mod RwSet
pub mod Tx
pub mod Examples
pub mod Channel
pub mod DeliverGroup
pub mod Lifecycle
pub mod Policy
pub mod Package
pub mod Deliver
