-- ===== src/Examples/Lifecycle.antt =====
-- An approval and a commit with a collection configuration that does not parse.
use fabricsdk_go.Prelude.{ℕ, ◌≡◌, ◌≢◌, refl, String, [], ◌∷◌, ok, err, external, pos, false}
use fabricsdk_go.Tx.Messages.{Proposal}
use fabricsdk_go.Lifecycle.Propose.{
  ApproveChaincodeRequest, CommitChaincodeRequest, LifecycleHost, create_approve_chaincode_proposal,
  create_commit_proposal,
}
use fabricsdk_go.Lifecycle.Errors.{create_approve-unparsed}
use fabricsdk_go.Examples.Transactions.{machine, alice}

abbrev pub host : LifecycleHost ℕ
host = record {
  machine = machine;
  from_string = λ s. ok 1;
  marshal_policy = λ o. ok (1 ∷ []);
  parse_collections = λ b. err (external 3);
  marshal_collections = λ cs. ok [];
  marshal_approve_args = λ x. ok (2 ∷ []);
  marshal_commit_args = λ a. ok (3 ∷ []);
  endorser_transaction = pos 3;
}

abbrev approval : ApproveChaincodeRequest
approval = record {
  package_id = "mycc:1";
  name = "mycc";
  tx_id = "";
  version = "1.0";
  sequence = pos 1;
  sign_policy = "";
  channel_config_policy = "";
  endorser_plugin = "escc";
  validation_plugin = "vscc";
  collection_config = 123 ∷ [];
  init_required = false;
  wait_for_event = false;
  wait_for_event_timeout = pos 0;
}

abbrev bare : ApproveChaincodeRequest
bare = record approval { collection_config = [] }

abbrev pub commitment : CommitChaincodeRequest
commitment = record {
  tx_id = "";
  name = "mycc";
  version = "1.0";
  sequence = pos 1;
  sign_policy = "";
  channel_config_policy = "";
  endorsement_plugin = "escc";
  validation_plugin = "vscc";
  init_required = false;
  collection_config = 123 ∷ [];
  wait_for_event_timeout = pos 0;
}

abbrev any : Proposal × String
any = (record { header = []; payload = [] }, "")

given : approval.collection_config ≢ []
given h = cc

create_approve-unparsed_example :
    ((create_approve_chaincode_proposal host alice approval "mychannel").0
      ≡ (create_approve_chaincode_proposal host alice bare "mychannel").0)
    × (create_commit_proposal host alice commitment "mychannel" ≢ ok any)
create_approve-unparsed_example =
    create_approve-unparsed host alice approval commitment "mychannel" (external 3) any refl refl
      given
