-- ===== src/Examples/Delivery.antt =====
-- Two peers, one that reports the transaction as valid and one that fails.
use fabricsdk_go.Prelude.{
  ◌≡◌, ◌≢◌, ◌⊎◌, refl, List, [], ◌∷◌, none, some, Error, external, wrapped, message, All, pos,
  Option, eq_iff, arith, String,
}
use mathlib.Core.WellFounded.{Acc}
use fabricsdk_go.DeliverGroup.{
  Received, failed, filtered_block, unexpected, Wanted, find_transaction, client_wait, waiting,
  returned, Group, Step, receives, Reaches, here, then, start, Ready,
}
use fabricsdk_go.DeliverGroup.Streams.{Ends, commits, breaks}
use fabricsdk_go.DeliverGroup.Outcome.{Explains, latest, wait-Explains, last_error-wins}
use fabricsdk_go.DeliverGroup.Progress.{wait-progress}

abbrev wanted : Wanted
wanted = record { valid = pos 0; tx_id = "t1" }

abbrev committed : Received
committed = filtered_block (
    record { txid = "t0"; tx_validation_code = pos 3 }
    ∷ record { txid = "t1"; tx_validation_code = pos 0 }
    ∷ [])

abbrev broken : Received
broken = failed (external 7)

abbrev reported : Error
reported = wrapped "error receiving from deliver filtered at %s" (external 7)

abbrev strange : Error
strange = message "received unexpected response type (%T) from %s"

abbrev streams : List (List Received)
streams = (committed ∷ []) ∷ (broken ∷ committed ∷ []) ∷ []

abbrev finished : Group
finished = record { clients = returned none ∷ returned (some reported) ∷ []; error = some reported }

run : Reaches wanted (start streams) finished
unfolding client_wait find_transaction
run =
    then
      (then (here (start streams))
        (receives (waiting (committed ∷ []) ∷ []) [] broken (committed ∷ []) none))
      (receives [] (returned (some reported) ∷ []) committed [] (some reported))

wait-Explains_example : Explains wanted (some reported) streams
wait-Explains_example = wait-Explains wanted streams finished run (tt, (tt, tt))

-- The second peer's failure is set, then the first peer's.
abbrev failing : Group
failing = record {
  clients = waiting (unexpected ∷ []) ∷ returned (some reported) ∷ [];
  error = some reported;
}

abbrev failed_twice : Group
failed_twice = record {
  clients = returned (some strange) ∷ returned (some reported) ∷ [];
  error = some strange;
}

second_failure : Step wanted failing failed_twice
unfolding client_wait
second_failure = receives [] (returned (some reported) ∷ []) unexpected [] (some reported)

last_error-wins_example : some strange ≡ latest (some strange) (some reported)
last_error-wins_example =
    last_error-wins wanted failing failed_twice [] (returned (some reported) ∷ []) (unexpected ∷ [])
      (some strange) second_failure refl refl

abbrev IsOther : String → Type 0
IsOther id = id ≢ wanted.tx_id

streams_end : All (λ s. (e : Option Error) × Ends wanted s e) streams
streams_end = (
  (
    none,
    commits (
      (record { txid = "t0"; tx_validation_code = pos 3 }) ∷ [],
      record { txid = "t1"; tx_validation_code = pos 0 },
      [],
      refl,
      (not_t1, tt),
      refl,
      refl,
    ),
  ),
  ((some reported, breaks), tt),
)
  where
    not_t1 : IsOther "t0"
    not_t1 h = ground (arith, eq_iff "t0" "t1", h)

wait-progress_example :
    Acc (λ h k. Step wanted k h) (start streams)
    × (Ready (start streams) ⊎ ((h : Group) × Step wanted (start streams) h))
    × ((k : Group) × Reaches wanted (start streams) k × Ready k)
wait-progress_example =
    wait-progress wanted streams (start streams) streams_end (here (start streams))
