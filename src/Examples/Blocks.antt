-- ===== src/Examples/Blocks.antt =====
-- An orderer that answers a request with a block and a status.
use fabricsdk_go.Prelude.{
  ℕ, zero, suc, ◌≡◌, refl, List, [], ◌∷◌, none, some, Result, ok, err, external, pos, true,
}
use fabricsdk_go.Tx.Envelope.{
  create_signed_envelope_with_tls_binding, make_channel_header, make_payload_header,
}
use fabricsdk_go.Tx.Block.{Block}
use fabricsdk_go.Deliver.{
  SeekPosition, newest, oldest, specified, SeekBehavior, block_until_ready, fail_if_not_ready,
  SeekErrorResponse, strict, best_effort, SeekInfo, DeliverResponse, status, block, DeliverHost,
  DeliverStream, DeliverService, get_specified_block, seek_specified, seek_helper, read_block,
}
use fabricsdk_go.Deliver.Answers.{Answered, get_block, get_block-Answered}
use fabricsdk_go.Examples.Wire.{Wire, via, pair, nat_wire, codec, codec-IsCodec}
use fabricsdk_go.Examples.Messages.{codecs, codecs-AreTxCodecs}
use fabricsdk_go.Examples.Transactions.{alice}

abbrev of_position : SeekPosition → ℕ × ℕ
of_position newest = (0, 0)
of_position oldest = (1, 0)
of_position (specified n) = (2, n)

abbrev to_position : ℕ × ℕ → SeekPosition
to_position (zero, n) = newest
to_position (suc zero, n) = oldest
to_position (suc (suc k), n) = specified n

position_back : (p : SeekPosition) → to_position (of_position p) ≡ p
position_back newest = refl
position_back oldest = refl
position_back (specified n) = refl

abbrev position_wire : Wire SeekPosition
position_wire = via of_position to_position position_back (pair nat_wire nat_wire)

abbrev of_behavior : SeekBehavior → ℕ
of_behavior block_until_ready = 0
of_behavior fail_if_not_ready = 1

abbrev to_behavior : ℕ → SeekBehavior
to_behavior zero = block_until_ready
to_behavior (suc n) = fail_if_not_ready

behavior_back : (b : SeekBehavior) → to_behavior (of_behavior b) ≡ b
behavior_back block_until_ready = refl
behavior_back fail_if_not_ready = refl

abbrev of_error_response : SeekErrorResponse → ℕ
of_error_response strict = 0
of_error_response best_effort = 1

abbrev to_error_response : ℕ → SeekErrorResponse
to_error_response zero = strict
to_error_response (suc n) = best_effort

error_response_back : (r : SeekErrorResponse) → to_error_response (of_error_response r) ≡ r
error_response_back strict = refl
error_response_back best_effort = refl

abbrev seek_info_wire : Wire SeekInfo
seek_info_wire =
    via (λ s. (s.start, (s.stop, (s.behavior, s.error_response))))
      (λ (a, (b, (c, d))). record { start = a; stop = b; behavior = c; error_response = d })
      (λ s. refl)
      (pair position_wire (
        pair position_wire (
          pair (via of_behavior to_behavior behavior_back nat_wire)
            (via of_error_response to_error_response error_response_back nat_wire))))

abbrev deliver_host : DeliverHost
deliver_host = record {
  codecs = codecs;
  seek_info = codec seek_info_wire;
  deliver_seek_info = pos 5;
  now = 1700;
}

abbrev next_message : List DeliverResponse → List DeliverResponse × Result DeliverResponse
next_message [] = ([], err (external 0))
next_message (r ∷ messages) = (messages, ok r)

-- A sent envelope changes nothing in the messages that come.
abbrev client : DeliverStream (List DeliverResponse)
client = record {
  send = λ env messages. (messages, ok tt);
  recv = next_message;
  close_send = λ messages. ([], ok tt);
}

abbrev service : DeliverService
service = record {
  signer = some alice;
  channel_id = "mychannel";
  tls_cert_hash = 4 ∷ 2 ∷ [];
  is_best_effort = true;
}

abbrev third_block : Block
third_block = record { data_entries = some ((3 ∷ []) ∷ []); metadata_entries = none }

answered_ok :
    get_block deliver_host client
      (specified 3)
      service
      (block (some third_block) ∷ status (pos 200) ∷ [])
    ≡ ([], ok (some third_block))
unfolding get_specified_block seek_specified seek_helper read_block
    create_signed_envelope_with_tls_binding make_channel_header make_payload_header
answered_ok = refl

get_block-Answered_example :
    Answered deliver_host client service
      (specified 3)
      (block (some third_block) ∷ status (pos 200) ∷ [])
      []
      (some third_block)
get_block-Answered_example =
    get_block-Answered deliver_host client codecs-AreTxCodecs (codec-IsCodec seek_info_wire)
      (specified 3) service (block (some third_block) ∷ status (pos 200) ∷ []) [] (some third_block)
      answered_ok
