-- ===== src/Deliver.antt =====
-- internal/client/orderer/deliver.go: asking an orderer for a block of a channel. The stream to the
-- orderer belongs to the gRPC library: sending and receiving change a state that the library keeps.
use fabricsdk_go.Prelude.{
  ℕ, Bool, true, false, String, Option, none, some, Bytes, Result, ok, err, panic, message, wrapped,
  ℤ, pos, if◌then◌else◌,
}
use fabricsdk_go.Proto.{Codec}
use fabricsdk_go.Tx.Messages.{Envelope, TxCodecs, Signer}
use fabricsdk_go.Tx.Envelope.{create_signed_envelope_with_tls_binding}
use fabricsdk_go.Tx.Block.{Block}
pub mod Answers

pub data SeekPosition : Type 0 where
  newest oldest : SeekPosition
  specified : ℕ → SeekPosition

pub data SeekBehavior : Type 0 where
  block_until_ready fail_if_not_ready : SeekBehavior

pub data SeekErrorResponse : Type 0 where
  strict best_effort : SeekErrorResponse

pub record SeekInfo : Type 0 where
  pub start : SeekPosition
  pub stop : SeekPosition
  pub behavior : SeekBehavior
  pub error_response : SeekErrorResponse

-- The `Type` of an answer; the block in it is a pointer.
pub data DeliverResponse : Type 0 where
  status : ℤ → DeliverResponse
  block : Option Block → DeliverResponse
  unknown : DeliverResponse

-- The protobuf library, the number of `HeaderType_DELIVER_SEEK_INFO` and the clock.
pub record DeliverHost : Type 0 where
  pub codecs : TxCodecs
  pub seek_info : Codec SeekInfo
  pub deliver_seek_info : ℤ
  pub now : ℕ

-- `ab.AtomicBroadcast_DeliverClient`
pub record DeliverStream (S : Type 0) : Type 0 where
  pub send : Option Envelope → S → S × Result (Unit {0})
  pub recv : S → S × Result DeliverResponse
  pub close_send : S → S × Result (Unit {0})

-- `DeliverService` without its client.
pub record DeliverService : Type 0 where
  pub signer : Option Signer
  pub channel_id : String
  pub tls_cert_hash : Bytes
  pub is_best_effort : Bool

-- `if err != nil { return nil }`, where the result is an envelope alone.
abbrev pub or_nil : Result Envelope → Result (Option Envelope)
or_nil (ok env) = ok (some env)
or_nil (err e) = ok none
or_nil panic = panic

abbrev pub seek_info_for : SeekPosition → Bool → SeekInfo
seek_info_for position is_best_effort = record {
  start = position;
  stop = position;
  behavior = block_until_ready;
  error_response = if is_best_effort then best_effort else strict;
}

module _ (m : DeliverHost) where
  -- What `CreateSignedEnvelopeWithTLSBinding` returns to `seekHelper`.
  abbrev pub seek_envelope : DeliverService → SeekPosition → Result Envelope
  seek_envelope ds position =
      create_signed_envelope_with_tls_binding m.codecs m.now m.deliver_seek_info ds.channel_id
        ds.signer (m.seek_info.marshal (seek_info_for position ds.is_best_effort)) (pos 0) 0
        ds.tls_cert_hash

  unfoldable pub seek_helper : DeliverService → SeekPosition → Result (Option Envelope)
  seek_helper ds position = or_nil (seek_envelope ds position)

module _ {S : Type 0} (m : DeliverHost) (client : DeliverStream S) where
  abbrev pub send_made : S → Result (Option Envelope) → S × Result (Unit {0})
  send_made s (ok env) = client.send env s
  send_made s (err e) = (s, err e)
  send_made s panic = (s, panic)

  unfoldable pub seek_specified : DeliverService → ℕ → S → S × Result (Unit {0})
  seek_specified ds block_num s = send_made s (seek_helper m ds (specified block_num))

  unfoldable pub seek_oldest : DeliverService → S → S × Result (Unit {0})
  seek_oldest ds s = send_made s (seek_helper m ds oldest)

  unfoldable pub seek_newest : DeliverService → S → S × Result (Unit {0})
  seek_newest ds s = send_made s (seek_helper m ds newest)

  -- The message after a block is received and not looked at.
  abbrev pub read_answer : S × Result DeliverResponse → S × Result (Option Block)
  read_answer (s, ok (status t)) = (s, err (message "can't read the block: %v"))
  read_answer (s, ok (block b)) = ((client.recv s).0, ok b)
  read_answer (s, ok unknown) = (s, err (message "response error: unknown type %T"))
  read_answer (s, err e) = (s, err (wrapped "error receiving" e))
  read_answer (s, panic) = (s, panic)

  unfoldable pub read_block : S → S × Result (Option Block)
  read_block s = read_answer (client.recv s)

  abbrev pub read_sought : String → S × Result (Unit {0}) → S × Result (Option Block)
  read_sought text (s, ok u) = read_block s
  read_sought text (s, err e) = (s, err (wrapped text e))
  read_sought text (s, panic) = (s, panic)

  unfoldable pub get_specified_block : DeliverService → ℕ → S → S × Result (Option Block)
  unfolding seek_specified
  get_specified_block ds num s =
      read_sought "error getting specified block" (seek_specified ds num s)

  unfoldable pub get_oldest_block : DeliverService → S → S × Result (Option Block)
  unfolding seek_oldest
  get_oldest_block ds s = read_sought "error getting oldest block" (seek_oldest ds s)

  unfoldable pub get_newest_block : DeliverService → S → S × Result (Option Block)
  unfolding seek_newest
  get_newest_block ds s = read_sought "error getting newest block" (seek_newest ds s)

  unfoldable pub close : S → S × Result (Unit {0})
  close s = client.close_send s
