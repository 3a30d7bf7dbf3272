-- ===== src/Examples/Transactions.antt =====
-- A proposal of Alice's, endorsed by Bob, and the transaction made of it.
use fabricsdk_go.Prelude.{
  ℕ, zero, suc, pos, ◌≡◌, ◌≢◌, refl, sym, ap, ◌∙◌, arith, String, [], ◌∷◌, take, Option, none, some,
  Bytes, ok, Bool, true, false,
}
use fabricsdk_go.Tx.Messages.{
  Header, Proposal, Response, ProposalResponse, ProposalResponsePayload, ChaincodeProposalPayload,
  ChaincodeAction, ChaincodeId, Envelope, Signer,
}
use fabricsdk_go.Tx.Marshal.{
  unmarshal_chaincode_proposal_payload, get_bytes_proposal_payload_for_tx,
  get_bytes_proposal_response_payload, unmarshal_header, unmarshal_signature_header,
  get_bytes_chaincode_action_payload, get_bytes_transaction, get_bytes_payload,
  get_bytes_chaincode_proposal_payload,
}
use fabricsdk_go.Tx.Sign.{assemble, check_responses, create_signed_tx}
use fabricsdk_go.Tx.Contents.{Contains, create_signed_tx-Contains}
use fabricsdk_go.Tx.Propose.{
  ChaincodeInput, ChaincodeSpec, ChaincodeInvocationSpec, Machine, compute_tx_id,
  create_chaincode_proposal_with_tx_id_nonce_and_transient,
  create_chaincode_proposal_with_tx_id_and_transient, get_or_compute_tx_id_from_envelope,
}
use fabricsdk_go.Tx.TxId.{get_or_compute_tx_id-create_signed_tx}
use fabricsdk_go.Tx.Hash.{get_proposal_hash1, create_proposal_response}
use fabricsdk_go.Examples.Wire.{
  Wire, via, pair, list, option, nat_wire, int_wire, bytes_wire, codec, value_or,
}
use fabricsdk_go.Examples.Messages.{codecs, codecs-AreTxCodecs, chaincode_id_wire}

abbrev bool_of : ℕ → Bool
bool_of zero = false
bool_of (suc n) = true

abbrev number : Bool → ℕ
number false = 0
number true = 1

pub bool_back : (b : Bool) → bool_of (number b) ≡ b
bool_back false = refl
bool_back true = refl

abbrev input_wire : Wire ChaincodeInput
input_wire =
    via (λ x. (x.args, x.is_init)) (λ (a, b). record { args = a; is_init = b }) (λ x. refl)
      (pair (list bytes_wire) (via number bool_of bool_back nat_wire))

abbrev spec_wire : Wire ChaincodeSpec
spec_wire =
    via (λ x. (x.type, (x.chaincode_id, x.input)))
      (λ (a, (b, c)). record { type = a; chaincode_id = b; input = c }) (λ x. refl)
      (pair int_wire (pair (option chaincode_id_wire) (option input_wire)))

abbrev pub machine : Machine
machine = record {
  sha256 = λ b. take 4 b;
  hex = λ b. "digest";
  random_nonce = ok (1 ∷ 2 ∷ []);
  now = ok 1700;
  codecs = codecs;
  invocation = codec (
      via (λ x. x.chaincode_spec) (λ s. record { chaincode_spec = s }) (λ x. refl)
        (option spec_wire));
  extension = codec (
      via (λ x. x.chaincode_id) (λ s. record { chaincode_id = s }) (λ x. refl)
        (option chaincode_id_wire));
}

abbrev pub person : ℕ → Signer
person n = record {
  serialize = ok (n ∷ []);
  sign = λ b. ok (n ∷ take 2 b);
  new_signature_header = ok (record { creator = n ∷ []; nonce = 1 ∷ 2 ∷ [] });
  get_msp_id = "Org1MSP";
}

abbrev pub alice : Signer
alice = person 10

abbrev pub bob : Signer
bob = person 20

abbrev mycc : ChaincodeId
mycc = record { path = ""; name = "mycc"; version = "1.0" }

abbrev call : ChaincodeInvocationSpec
call = record {
  chaincode_spec = some (record {
    type = pos 1;
    chaincode_id = some mycc;
    input = some (record { args = (5 ∷ []) ∷ []; is_init = false });
  });
}

abbrev no_proposal : Proposal × String
no_proposal = (record { header = []; payload = [] }, "")

abbrev proposed : Proposal × String
proposed = value_or no_proposal (
    create_chaincode_proposal_with_tx_id_and_transient machine (pos 3) "mychannel" call (10 ∷ []) ""
      (("secret", 9 ∷ []) ∷ []))

proposed_ok :
    create_chaincode_proposal_with_tx_id_and_transient machine
      (pos 3)
      "mychannel"
      call
      (10 ∷ [])
      ""
      (("secret", 9 ∷ []) ∷ [])
    ≡ ok (proposed.0, proposed.1)
unfolding create_chaincode_proposal_with_tx_id_and_transient
    create_chaincode_proposal_with_tx_id_nonce_and_transient compute_tx_id
proposed_ok = refl

abbrev no_response : ProposalResponse
no_response = record { version = pos 0; response = none; payload = []; endorsement = none }

abbrev success : Response
success = record { status = pos 200; message = ""; payload = 8 ∷ [] }

abbrev answer : ProposalResponse
answer = value_or no_response (
    create_proposal_response machine proposed.0.header proposed.0.payload (some success) (3 ∷ []) []
      (some mycc) bob)

answer_ok :
    create_proposal_response machine proposed.0.header proposed.0.payload
      (some success)
      (3 ∷ [])
      []
      (some mycc)
      bob
    ≡ ok answer
unfolding create_proposal_response get_proposal_hash1 unmarshal_header
    unmarshal_chaincode_proposal_payload get_bytes_proposal_payload_for_tx
    get_bytes_chaincode_proposal_payload get_bytes_proposal_response_payload
    create_chaincode_proposal_with_tx_id_and_transient
    create_chaincode_proposal_with_tx_id_nonce_and_transient compute_tx_id
answer_ok = refl

abbrev pub no_envelope : Envelope
no_envelope = record { payload = []; signature = [] }

abbrev envelope : Envelope
envelope = value_or no_envelope (create_signed_tx codecs proposed.0 alice (answer ∷ answer ∷ []))

envelope_ok : create_signed_tx codecs proposed.0 alice (answer ∷ answer ∷ []) ≡ ok envelope
unfolding create_signed_tx assemble check_responses unmarshal_signature_header
    get_bytes_chaincode_action_payload get_bytes_transaction get_bytes_payload
    create_proposal_response get_proposal_hash1 unmarshal_header
    unmarshal_chaincode_proposal_payload get_bytes_proposal_payload_for_tx
    get_bytes_chaincode_proposal_payload get_bytes_proposal_response_payload
    create_chaincode_proposal_with_tx_id_and_transient
    create_chaincode_proposal_with_tx_id_nonce_and_transient compute_tx_id
envelope_ok = refl

create_signed_tx-Contains_example : Contains codecs proposed.0 alice answer (answer ∷ []) envelope
create_signed_tx-Contains_example =
    create_signed_tx-Contains codecs codecs-AreTxCodecs proposed.0 alice answer (answer ∷ [])
      envelope envelope_ok

abbrev envelope_bytes : Bytes
envelope_bytes = value_or [] (codecs.envelope.marshal envelope)

get_or_compute_tx_id-create_signed_tx_example :
    get_or_compute_tx_id_from_envelope machine envelope_bytes ≡ ok proposed.1
get_or_compute_tx_id-create_signed_tx_example =
    get_or_compute_tx_id-create_signed_tx machine codecs-AreTxCodecs (pos 3) "mychannel" call
      (10 ∷ []) "" (("secret", 9 ∷ []) ∷ []) proposed.0 proposed.1 alice answer (answer ∷ [])
      envelope envelope_bytes proposed_ok envelope_ok refl

abbrev none_read : ProposalResponsePayload
none_read = record { proposal_hash = []; extension = [] }

abbrev read : ProposalResponsePayload
read = value_or none_read (codecs.response_payload.unmarshal answer.payload)

abbrev first : Bytes → ℕ
first [] = 0
first (b ∷ bs) = suc b

answer_full : answer.payload ≢ []
unfolding create_proposal_response get_proposal_hash1 unmarshal_header
    unmarshal_chaincode_proposal_payload get_bytes_proposal_payload_for_tx
    get_bytes_chaincode_proposal_payload get_bytes_proposal_response_payload
    create_chaincode_proposal_with_tx_id_and_transient
    create_chaincode_proposal_with_tx_id_nonce_and_transient compute_tx_id
answer_full = λ h. let e : first answer.payload ≡ 0 = ap first h in omega (arith, e)

read_ok : codecs.response_payload.unmarshal answer.payload ≡ ok read
unfolding create_proposal_response get_proposal_hash1 unmarshal_header
    unmarshal_chaincode_proposal_payload get_bytes_proposal_payload_for_tx
    get_bytes_chaincode_proposal_payload get_bytes_proposal_response_payload
    create_chaincode_proposal_with_tx_id_and_transient
    create_chaincode_proposal_with_tx_id_nonce_and_transient compute_tx_id
read_ok = refl

read_full : read.extension ≢ []
unfolding create_proposal_response get_proposal_hash1 unmarshal_header
    unmarshal_chaincode_proposal_payload get_bytes_proposal_payload_for_tx
    get_bytes_chaincode_proposal_payload get_bytes_proposal_response_payload
    create_chaincode_proposal_with_tx_id_and_transient
    create_chaincode_proposal_with_tx_id_nonce_and_transient compute_tx_id
read_full = λ h. let e : first read.extension ≡ 0 = ap first h in omega (arith, e)

any_read_full :
    (prp : ProposalResponsePayload)
    → codecs.response_payload.unmarshal answer.payload ≡ ok prp
    → prp.extension ≢ []
any_read_full prp h =
    let same : read ≡ prp = let e : ok read ≡ ok prp = sym read_ok ∙ h in ground arith in
    λ none_there. read_full (ap (λ (x : ProposalResponsePayload). x.extension) same ∙ none_there)

abbrev action : ChaincodeAction
action = record { results = 3 ∷ []; events = []; response = some success; chaincode_id = some mycc }

action_ok : codecs.chaincode_action.unmarshal read.extension ≡ ok action
unfolding create_proposal_response get_proposal_hash1 unmarshal_header
    unmarshal_chaincode_proposal_payload get_bytes_proposal_payload_for_tx
    get_bytes_chaincode_proposal_payload get_bytes_proposal_response_payload
    create_chaincode_proposal_with_tx_id_and_transient
    create_chaincode_proposal_with_tx_id_nonce_and_transient compute_tx_id
action_ok = refl

abbrev plain_bytes : Bytes
plain_bytes = 1 ∷ 7 ∷ 1 ∷ 1 ∷ 97 ∷ 1 ∷ 9 ∷ []

abbrev secret : ChaincodeProposalPayload
secret = record { input = 7 ∷ []; transient_map = ("a", 9 ∷ []) ∷ [] }

abbrev header : Option Header
header = some (record { channel_header = 1 ∷ []; signature_header = 2 ∷ [] })

full : {x : ℕ} {xs : Bytes} → x ∷ xs ≢ []
full h = let e : suc _ ≡ 0 = ap first h in omega (arith, e)

secret_read : unmarshal_chaincode_proposal_payload codecs plain_bytes ≡ ok secret
unfolding unmarshal_chaincode_proposal_payload
secret_read = refl

for_tx : get_bytes_proposal_payload_for_tx codecs secret ≡ ok (1 ∷ 7 ∷ 0 ∷ [])
unfolding get_bytes_proposal_payload_for_tx get_bytes_chaincode_proposal_payload
for_tx = refl
