-- ===== src/Lifecycle/Options.antt =====
-- internal/chaincode/option.go: the options of requests. An option changes the requests that its switch
-- names and leaves the others as they are.
use fabricsdk_go.Prelude.{String, List, [], ◌∷◌, Bytes, ℤ, true}
use fabricsdk_go.Lifecycle.Propose.{ApproveChaincodeRequest, CommitChaincodeRequest}
use fabricsdk_go.Lifecycle.Queries.{CheckCommitReadinessRequest}

-- The requests that an option may be given; of a query for committed definitions, the name.
pub data Request : Type 0 where
  approving : ApproveChaincodeRequest → Request
  committing : CommitChaincodeRequest → Request
  checking : CheckCommitReadinessRequest → Request
  querying : String → Request

unfoldable pub with_endorse_plugin : String → Request → Request
with_endorse_plugin plugin (approving v) = approving (record v { endorser_plugin = plugin })
with_endorse_plugin plugin (committing v) = committing (record v { endorsement_plugin = plugin })
with_endorse_plugin plugin (checking v) = checking v
with_endorse_plugin plugin (querying v) = querying v

unfoldable pub with_validate_plugin : String → Request → Request
with_validate_plugin plugin (approving v) = approving (record v { validation_plugin = plugin })
with_validate_plugin plugin (committing v) = committing (record v { validation_plugin = plugin })
with_validate_plugin plugin (checking v) = checking v
with_validate_plugin plugin (querying v) = querying v

unfoldable pub with_sign_policy : String → Request → Request
with_sign_policy policy (approving v) = approving (record v { sign_policy = policy })
with_sign_policy policy (committing v) = committing (record v { sign_policy = policy })
with_sign_policy policy (checking v) = checking v
with_sign_policy policy (querying v) = querying v

unfoldable pub with_channel_policy : String → Request → Request
with_channel_policy policy (approving v) = approving (record v { channel_config_policy = policy })
with_channel_policy policy (committing v) = committing (record v { channel_config_policy = policy })
with_channel_policy policy (checking v) = checking v
with_channel_policy policy (querying v) = querying v

unfoldable pub with_collection_config : Bytes → Request → Request
with_collection_config config (approving v) = approving (record v { collection_config = config })
with_collection_config config (committing v) = committing (record v { collection_config = config })
with_collection_config config (checking v) = checking v
with_collection_config config (querying v) = querying v

unfoldable pub with_sequence_number : ℤ → Request → Request
with_sequence_number seq_num (approving v) = approving (record v { sequence = seq_num })
with_sequence_number seq_num (committing v) = committing (record v { sequence = seq_num })
with_sequence_number seq_num (checking v) = checking (record v { sequence = seq_num })
with_sequence_number seq_num (querying v) = querying v

unfoldable pub with_timeout : ℤ → Request → Request
with_timeout timeout (approving v) = approving (record v { wait_for_event_timeout = timeout })
with_timeout timeout (committing v) = committing (record v { wait_for_event_timeout = timeout })
with_timeout timeout (checking v) = checking v
with_timeout timeout (querying v) = querying v

unfoldable pub with_init_required : Request → Request
with_init_required (approving v) = approving (record v { init_required = true })
with_init_required (committing v) = committing (record v { init_required = true })
with_init_required (checking v) = checking (record v { init_required = true })
with_init_required (querying v) = querying v

unfoldable pub with_name : String → Request → Request
with_name name (approving v) = approving v
with_name name (committing v) = committing v
with_name name (checking v) = checking v
with_name name (querying v) = querying name

-- The loop over the options of a query.
abbrev pub apply_all : List (Request → Request) → Request → Request
apply_all [] req = req
apply_all (opt ∷ opts) req = apply_all opts (opt req)
