-- ===== src/Deliver/Answers.antt =====
-- What was sent and received where the deliver service of internal/client/orderer/deliver.go returns
-- a block.
use fabricsdk_go.Prelude.{
  Bool, true, false, ◌≡◌, refl, String, Option, none, some, Result, ok, err, panic, Error, pos,
  arith,
}
use fabricsdk_go.Proto.{IsCodec}
use fabricsdk_go.Tx.Messages.{Envelope, AreTxCodecs}
use fabricsdk_go.Tx.Envelope.{create_signed_envelope_with_tls_binding, unmarshal_envelope_of_type}
use fabricsdk_go.Tx.EnvelopeReads.{channel_of, unmarshal_envelope_of_type-create}
use fabricsdk_go.Tx.Block.{Block}
use fabricsdk_go.Deliver.{
  SeekInfo, block_until_ready, strict, best_effort, SeekPosition, newest, oldest, specified,
  DeliverResponse, status, block, unknown, DeliverHost, DeliverStream, DeliverService,
  seek_info_for, seek_envelope, seek_helper, or_nil, send_made, seek_specified, seek_oldest,
  seek_newest, read_answer, read_block, read_sought, get_specified_block, get_oldest_block,
  get_newest_block,
}

-- A request of the blocks from one position to the same position, which waits for them.
abbrev pub from_to : SeekPosition → Bool → SeekInfo
from_to position true = record {
  start = position;
  stop = position;
  behavior = block_until_ready;
  error_response = best_effort;
}
from_to position false = record {
  start = position;
  stop = position;
  behavior = block_until_ready;
  error_response = strict;
}

seek_info_for_lem :
    (position : SeekPosition) (b : Bool) → seek_info_for position b ≡ from_to position b
seek_info_for_lem position true = refl
seek_info_for_lem position false = refl

module _ (m : DeliverHost) where
  -- An envelope that asks for one position: nil where it could not be made, else read by
  -- `UnmarshalEnvelopeOfType` as a seek request from the position to the same position.
  abbrev pub AsksFor : DeliverService → SeekPosition → Option Envelope → Type 0
  AsksFor ds position none =
      (e : Error) × (create_signed_envelope_with_tls_binding m.codecs m.now m.deliver_seek_info
          ds.channel_id ds.signer (m.seek_info.marshal (from_to position ds.is_best_effort)) (pos 0)
          0 ds.tls_cert_hash
        ≡ err e)
  AsksFor ds position (some env) =
      unmarshal_envelope_of_type m.codecs m.seek_info env m.deliver_seek_info
      ≡ ok (
        channel_of m.now m.deliver_seek_info ds.channel_id (pos 0) 0 ds.tls_cert_hash,
        from_to position ds.is_best_effort,
      )

-- One envelope was sent, a block came, and one message behind it was received.
pub record Answered {S : Type 0} (m : DeliverHost) (client : DeliverStream S) (ds : DeliverService)
    (position : SeekPosition) (s last : S) (b : Option Block) : Type 0 where
  pub given : Option Envelope
  pub asks : AsksFor m ds position given
  pub sent_state : S
  pub taken : client.send given s ≡ (sent_state, ok tt)
  pub block_state : S
  pub came : client.recv sent_state ≡ (block_state, ok (block b))
  pub flushed : (client.recv block_state).0 ≡ last

or_nil-eq-some : (r : Result Envelope) {env : Envelope} → or_nil r ≡ ok (some env) → r ≡ ok env
or_nil-eq-some (ok made) h = ground (arith, h)
or_nil-eq-some (err e) h = ground (arith, h)
or_nil-eq-some panic h = cc

or_nil-eq-none : (r : Result Envelope) → or_nil r ≡ ok none → (e : Error) × (r ≡ err e)
or_nil-eq-none (ok made) h = ground (arith, h)
or_nil-eq-none (err e) h = (e, refl)
or_nil-eq-none panic h = cc

module _ (m : DeliverHost) (law : AreTxCodecs m.codecs) (seek_law : IsCodec m.seek_info) where
  seek_helper-AsksFor :
      (ds : DeliverService) (position : SeekPosition) (given : Option Envelope)
      → seek_helper m ds position ≡ ok given
      → AsksFor m ds position given
  unfolding seek_helper
  seek_helper-AsksFor ds position none h =
      rw (← seek_info_for_lem position ds.is_best_effort)
        (or_nil-eq-none (seek_envelope m ds position) h)
  seek_helper-AsksFor ds position (some env) h =
      rw (← seek_info_for_lem position ds.is_best_effort) (
        unmarshal_envelope_of_type-create m.codecs law m.seek_info seek_law m.now
          m.deliver_seek_info ds.channel_id ds.signer (seek_info_for position ds.is_best_effort)
          (pos 0) 0 ds.tls_cert_hash env (or_nil-eq-some (seek_envelope m ds position) h))

module _ {S : Type 0} (m : DeliverHost) (client : DeliverStream S) where
  -- The three operations, by the position that each asks for.
  abbrev pub get_block : SeekPosition → DeliverService → S → S × Result (Option Block)
  get_block newest ds s = get_newest_block m client ds s
  get_block oldest ds s = get_oldest_block m client ds s
  get_block (specified num) ds s = get_specified_block m client ds num s

  send_made-eq-ok :
      (s : S) (r : Result (Option Envelope)) {next : S}
      → send_made m client s r ≡ (next, ok tt)
      → (given : Option Envelope) × (r ≡ ok given) × (client.send given s ≡ (next, ok tt))
  send_made-eq-ok s (ok given) h = (given, refl, h)
  send_made-eq-ok s (err e) h = ground (arith, h)
  send_made-eq-ok s panic h = ground (arith, h)

  read_answer-eq-ok :
      (x : S × Result DeliverResponse) {last : S} {b : Option Block}
      → read_answer m client x ≡ (last, ok b)
      → (s : S) × (x ≡ (s, ok (block b))) × ((client.recv s).0 ≡ last)
  read_answer-eq-ok (s, ok (status t)) h = ground (arith, h)
  read_answer-eq-ok (s, ok (block got)) h = (s, ground (arith, h), ground (arith, h))
  read_answer-eq-ok (s, ok unknown) h = ground (arith, h)
  read_answer-eq-ok (s, err e) h = ground (arith, h)
  read_answer-eq-ok (s, panic) h = ground (arith, h)

  read_sought-eq-ok :
      (text : String) (x : S × Result (Unit {0})) {last : S} {b : Option Block}
      → read_sought m client text x ≡ (last, ok b)
      → (s : S) × (x ≡ (s, ok tt)) × (read_block m client s ≡ (last, ok b))
  read_sought-eq-ok text (s, ok u) h = (s, refl, h)
  read_sought-eq-ok text (s, err e) h = ground (arith, h)
  read_sought-eq-ok text (s, panic) h = ground (arith, h)

module _ {S : Type 0} (m : DeliverHost) (client : DeliverStream S) (law : AreTxCodecs m.codecs)
    (seek_law : IsCodec m.seek_info) where
  sought-Answered :
      (text : String) (position : SeekPosition) (ds : DeliverService) (s last : S)
      (b : Option Block)
      → read_sought m client text (send_made m client s (seek_helper m ds position)) ≡ (last, ok b)
      → Answered m client ds position s last b
  unfolding read_block
  sought-Answered text position ds s last b h =
      let (s1, e1, h1) = read_sought-eq-ok m client text _ h in
      let (given, made, taken) = send_made-eq-ok m client s (seek_helper m ds position) e1 in
      let (s2, came, flushed) = read_answer-eq-ok m client (client.recv s1) h1 in
      record {
        given = given;
        asks = seek_helper-AsksFor m law seek_law ds position given made;
        sent_state = s1;
        taken = taken;
        block_state = s2;
        came = came;
        flushed = flushed;
      }

  -- Where `GetNewestBlock`, `GetOldestBlock` or `GetSpecifiedBlock` returns a block and no error, it
  -- sent one envelope, the next message of the stream was that block, and one more message was
  -- received. The envelope is read by `UnmarshalEnvelopeOfType` as a seek request of the service's
  -- channel and TLS certificate hash from the position asked for to the same position, or it is nil
  -- and the request could not be made and signed.
  pub get_block-Answered :
      (position : SeekPosition) (ds : DeliverService) (s last : S) (b : Option Block)
      → get_block m client position ds s ≡ (last, ok b)
      → Answered m client ds position s last b
  unfolding get_specified_block get_oldest_block get_newest_block seek_specified seek_oldest
      seek_newest
  get_block-Answered newest ds s last b h = sought-Answered _ newest ds s last b h
  get_block-Answered oldest ds s last b h = sought-Answered _ oldest ds s last b h
  get_block-Answered (specified num) ds s last b h = sought-Answered _ (specified num) ds s last b h
