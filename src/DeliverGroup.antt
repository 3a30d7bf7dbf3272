-- ===== src/DeliverGroup.antt =====
-- internal/client/delivegroup/client.go: the goroutines that wait, one for each peer, for a
-- transaction to be committed. A step is one message that one of them receives.
pub mod Streams
pub mod Outcome
pub mod Progress
use fabricsdk_go.Prelude.{
  ◌≡◌, Bool, true, false, String, str_eq, List, [], ◌∷◌, ◌++◌, map, Option, none, some, Error,
  message, wrapped, ℤ, int_eq, if◌then◌else◌, All,
}

-- A transaction of a filtered block: its id and its validation code.
pub record FilteredTransaction : Type 0 where
  pub txid : String
  pub tx_validation_code : ℤ

-- What `Recv` returns: an error, or a response of one of the types that the switch names.
pub data Received : Type 0 where
  failed : Error → Received
  filtered_block : List FilteredTransaction → Received
  status : ℤ → Received
  unexpected : Received

-- What the loop does with it: it goes on, or returns, with the error that it sets if it sets one.
pub data Verdict : Type 0 where
  go_on : Verdict
  returns : Option Error → Verdict

-- The number of `TxValidationCode_VALID` and the id that is waited for.
pub record Wanted : Type 0 where
  pub valid : ℤ
  pub tx_id : String

module _ (w : Wanted) where
  abbrev pub validated : ℤ → Verdict
  validated code =
      if int_eq code w.valid
      then returns none
      else returns (some (message "transaction invalidated with status (%s)"))

  unfoldable pub find_transaction : List FilteredTransaction → Verdict
  find_transaction [] = go_on
  find_transaction (tx ∷ txs) =
      if str_eq tx.txid w.tx_id then validated tx.tx_validation_code else find_transaction txs

  -- One round of the loop of `ClientWait`.
  unfoldable pub client_wait : Received → Verdict
  unfolding find_transaction
  client_wait (failed e) = returns (some (wrapped "error receiving from deliver filtered at %s" e))
  client_wait (filtered_block txs) = find_transaction txs
  client_wait (status s) =
      returns (some (message "deliver completed with status (%s) before txid received"))
  client_wait unexpected = returns (some (message "received unexpected response type (%T) from %s"))

-- A goroutine that waits, with the messages that are still to come, or one that has returned, with
-- the error that it has set.
pub data Client : Type 0 where
  waiting : List Received → Client
  returned : Option Error → Client

pub record Group : Type 0 where
  pub clients : List Client
  pub error : Option Error

abbrev pub next : Verdict → List Received → Client
next go_on rest = waiting rest
next (returns e) rest = returned e

-- `setError` writes over what is there.
abbrev pub set_error : Verdict → Option Error → Option Error
set_error go_on old = old
set_error (returns none) old = old
set_error (returns (some new)) old = some new

module _ (w : Wanted) where
  -- Any goroutine may be the next to receive.
  pub data Step : Group → Group → Type 0 where
    receives :
        (before behind : List Client) (message : Received) (rest : List Received) (e : Option Error)
        → Step
            (record { clients = before ++ waiting (message ∷ rest) ∷ behind; error = e })
            (record {
              clients = before ++ next (client_wait w message) rest ∷ behind;
              error = set_error (client_wait w message) e;
            })

  pub data Reaches : Group → Group → Type 0 where
    here : (g : Group) → Reaches g g
    then : {g h k : Group} → Reaches g h → Step h k → Reaches g k

-- `Wait` behind a `Connect` that succeeded: no error is set.
abbrev pub start : List (List Received) → Group
start streams = record { clients = map waiting streams; error = none }

-- The group is ready once all have returned; `Wait` then returns the error.
abbrev pub Returned : Client → Type 0
Returned (waiting rest) = ⊥
Returned (returned e) = Unit

abbrev pub Ready : Group → Type 0
Ready g = All Returned g.clients
