-- ===== src/Channel/Responses.antt =====
-- What `List` and `GetInfo` of internal/channel/list.go make of a peer's answer.
use fabricsdk_go.Prelude.{String, Option, some, Bytes, ok, ◌≡◌, pos}
use fabricsdk_go.Tx.Messages.{ProposalResponse, Response}
use fabricsdk_go.Channel.Listing.{PeerClient}

-- A peer that answers every proposal with the same response.
abbrev pub answering : String → ProposalResponse → PeerClient
answering address resp = record { address = address; get_endorser = ok (λ sent. ok resp) }

-- The response has the status 200 and this payload.
abbrev pub IsGood : ProposalResponse → Bytes → Type 0
IsGood resp payload =
    (response : Response) × (resp.response ≡ some response)
    × (response.status ≡ pos 200)
    × (response.payload ≡ payload)
