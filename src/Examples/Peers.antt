-- ===== src/Examples/Peers.antt =====
-- Peers that install a package, answer queries and join a channel.
use fabricsdk_go.Prelude.{
  String, List, [], ◌∷◌, Option, none, some, Error, external, Bytes, codes, Result, ok, err, panic,
  ℤ, pos, ◌≡◌, ◌≢◌, refl, ◌⊎◌, ap,
}
use fabricsdk_go.Tx.Messages.{SignedProposal, ProposalResponse, Response}
use fabricsdk_go.Tx.Marshal.{get_signed_proposal}
use fabricsdk_go.Tx.Propose.{
  compute_tx_id, create_chaincode_proposal_with_tx_id_nonce_and_transient,
  create_chaincode_proposal_with_transient, create_proposal_from_cis,
}
use fabricsdk_go.Tx.Block.{Block}
use fabricsdk_go.Lifecycle.Install.{Peer, InstallHost, InstallResponse, install_all, install}
use fabricsdk_go.Lifecycle.Queries.{
  QueryHost, CommittedChaincodeList, query_committed, create_query_committed_chaincode_proposal,
}
use fabricsdk_go.Lifecycle.Statuses.{AreAnswers, Summarises}
use fabricsdk_go.Lifecycle.Answers.{install-Summarises, query_committed-named}
use fabricsdk_go.Channel.Listing.{PeerClient, ChannelHost}
use fabricsdk_go.Channel.Joining.{genesis_bytes, join}
use fabricsdk_go.Channel.Joined.{Answered, join-Answered}
use fabricsdk_go.Examples.Transactions.{machine, alice}

abbrev respond : ℤ → ProposalResponse
respond status = record {
  version = pos 1;
  response = some (record { status = status; message = ""; payload = 5 ∷ [] });
  payload = [];
  endorsement = none;
}

abbrev peer : String → ℤ → Peer
peer address status = record { address = address; get_endorser = ok (λ sp. ok (respond status)) }

abbrev two_peers : List Peer
two_peers = peer "peer0" (pos 200) ∷ peer "peer1" (pos 500) ∷ []

abbrev install_host : InstallHost
install_host = record {
  machine = machine;
  marshal_install_args = λ b. ok b;
  unmarshal_install_result = λ b. (record { label = "mycc"; package_id = "mycc:1" }, ok tt);
  endorser_transaction = pos 3;
}

abbrev installed : InstallResponse
installed = record {
  status = 204;
  label = "mycc";
  package_id = "mycc:1";
  results =
      record { id = "peer0"; status = pos 200; message = "" }
      ∷ record { id = "peer1"; status = pos 500; message = "" }
      ∷ [];
}

install-Summarises_example :
    (sent : SignedProposal) × AreAnswers sent two_peers installed.results
    × Summarises installed.status installed.results
unfolding install install_all create_proposal_from_cis create_chaincode_proposal_with_transient
    create_chaincode_proposal_with_tx_id_nonce_and_transient compute_tx_id get_signed_proposal
install-Summarises_example =
    install-Summarises install_host alice two_peers (ok (1 ∷ [])) installed refl

abbrev query_host : QueryHost Bytes Bytes Bytes Bytes Bytes
query_host = record {
  machine = machine;
  marshal_installed_args = ok [];
  marshal_approved_args = λ a. ok [];
  marshal_definition_args = λ name. ok (codes name);
  marshal_definitions_args = ok [];
  marshal_readiness_args = λ a. ok [];
  unmarshal_installed = λ b. ok b;
  unmarshal_approved = λ b. ok b;
  unmarshal_definitions = λ b. ok b;
  unmarshal_definition = λ b. ok b;
  unmarshal_readiness = λ b. ok b;
  endorser_transaction = pos 3;
  success = pos 200;
}

abbrev no_list : CommittedChaincodeList Bytes Bytes
no_list = record { definitions = none; definition = none }

abbrev IsNamed : String → Type 0
IsNamed s = s ≢ ""

mycc-IsNamed : IsNamed "mycc"
mycc-IsNamed h = let codes_equal : codes "mycc" ≡ [] = ap codes h in cc

query_committed-named_example : no_list ≡ record { definitions = none; definition = none }
unfolding query_committed create_query_committed_chaincode_proposal create_proposal_from_cis
    create_chaincode_proposal_with_transient
    create_chaincode_proposal_with_tx_id_nonce_and_transient compute_tx_id get_signed_proposal
query_committed-named_example =
    query_committed-named query_host alice (λ sp. ok (respond (pos 200))) "mychannel" "mycc" no_list
      mycc-IsNamed refl

abbrev genesis : Block
genesis = record { data_entries = none; metadata_entries = none }

abbrev channel_host : ChannelHost Bytes Bytes
channel_host = record {
  machine = machine;
  blocks = record {
    metadata = record { marshal = λ b. ok b; unmarshal = λ b. ok b };
    last_config = record { marshal = λ n. ok (n ∷ []); unmarshal = λ b. ok 0 };
    orderer_block_metadata = record {
      marshal = λ o. ok [];
      unmarshal = λ b. ok (record { last_config = none });
    };
    signatures_index = 0;
    last_config_index = 1;
    config = pos 1;
    orderer_transaction = pos 4;
  };
  marshal_block = λ b. ok (9 ∷ []);
  unmarshal_channels = λ b. ok b;
  unmarshal_info = λ b. ok b;
  golang = pos 1;
  endorser_transaction = pos 3;
  config = pos 1;
  get_deliver_client = λ channel.
      ok (record { get_specified_block = λ n. ok genesis; get_newest_block = ok genesis });
}

abbrev silent : ProposalResponse
silent = record { version = pos 1; response = none; payload = []; endorsement = none }

abbrev silent_endorser : SignedProposal → Result ProposalResponse
silent_endorser sp = ok silent

abbrev silent_peer : PeerClient
silent_peer = record { address = "peer0"; get_endorser = ok silent_endorser }

abbrev shown : Error → String
shown e = "error"

abbrev absent_peer : PeerClient
absent_peer = record { address = "peer1"; get_endorser = err (external 5) }

abbrev joining : List PeerClient
joining = absent_peer ∷ silent_peer ∷ []

join-Answered_example :
    ((e : Error) → join channel_host shown alice joining "mychannel" ≢ err e)
    × ((join channel_host shown alice joining "mychannel" ≡ panic)
        ⊎ ((rs : List (Option Response)) × (join channel_host shown alice joining "mychannel"
              ≡ ok rs)
            × Answered channel_host shown alice (9 ∷ []) joining rs))
unfolding genesis_bytes
join-Answered_example = join-Answered channel_host shown alice joining "mychannel" (9 ∷ []) refl
