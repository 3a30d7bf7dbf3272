-- ===== src/Examples/Members.antt =====
-- Organisations, the members of a channel, and blocks, at small inputs.
use fabricsdk_go.Prelude.{
  ℕ, ℤ, pos, ◌≡◌, ◌≢◌, ◌↔◌, refl, sym, arith, String, str_eq, eq_iff, [], ◌∷◌, none, some, ok,
  panic, Bool, true, false, int_eq, if◌then◌else◌,
}
use fabricsdk_go.Tx.Block.{
  get_metadata_from_block, Block, BlockCodecs, get_last_config_index_from_block, is_config_block,
  extract_envelope,
}
use fabricsdk_go.Tx.Marshal.{unmarshal_envelope, unmarshal_payload, unmarshal_channel_header}
use fabricsdk_go.Tx.BlockReads.{LastConfigMissing, AreCalm, get_last_config_index-panic_iff}
use fabricsdk_go.Tx.BlockConfig.{IsConfig, is_config_block_iff}
use fabricsdk_go.Channel.Envelope.{UpdateEnvelope}
use fabricsdk_go.Channel.Organization.{
  PolicyNames, AreNames, OrganizationTypes, Organization, ConfigOrganization, BatchSize,
  create_organization, texts,
}
use fabricsdk_go.Channel.Policies.{policy_at, create_organization-endorsement}
use fabricsdk_go.Channel.Members.{
  Group, IsGroup, ConfigTx, Edits, channel_add_org, channel_remove_org, channel_add_org-Edits,
}
use fabricsdk_go.Examples.Wire.{via, option, nat_wire, bytes_wire, codec, codec_calm, value_or}
use fabricsdk_go.Examples.Messages.{codecs}

abbrev names : PolicyNames
names = record {
  readers_policy_key = "Readers";
  writers_policy_key = "Writers";
  admins_policy_key = "Admins";
  endorsement_policy_key = "Endorsement";
  signature_policy_type = "Signature";
}

differ : (x y : String) → str_eq x y ≡ false → x ≢ y
differ x y e h = ground (arith, eq_iff x y, e, h)

names-AreNames : AreNames names
names-AreNames = record {
  not_readers = differ "Readers" "Endorsement" refl;
  not_writers = differ "Writers" "Endorsement" refl;
  not_admins = differ "Admins" "Endorsement" refl;
}

abbrev types : OrganizationTypes
types = record { peer = pos 0; orderer = pos 1 }

abbrev seven_thousand : ℤ → String
seven_thousand z = "7050"

abbrev peers : Organization ℕ
peers = record {
  type = pos 0;
  id = "Org1MSP";
  name = "org1";
  root_ca = 1;
  tls_root_ca = 2;
  anchor_peers = [];
  orderer_consenters = record { host = "orderer"; port = pos 7050 } ∷ [];
}

abbrev nothing_made : ConfigOrganization ℕ
nothing_made = record {
  name = "";
  policies = [];
  msp = record {
    name = "";
    root_certs = [];
    tls_root_certs = [];
    admins = [];
    signature_hash_family = "";
    identity_identifier_hash_function = "";
    client_ou = (0, "");
    peer_ou = (0, "");
    admin_ou = (0, "");
    orderer_ou = (0, "");
  };
  anchor_peers = [];
  orderer_endpoints = [];
}

abbrev made : ConfigOrganization ℕ
made = value_or nothing_made (create_organization names types seven_thousand peers)

made_ok : create_organization names types seven_thousand peers ≡ ok made
unfolding create_organization
made_ok = refl

create_organization-endorsement_example : policy_at "Endorsement" made.policies ≡ (
    if int_eq (pos 0) (pos 0)
    then none
    else some (record { type = "Signature"; rule = texts ("OR('" ∷ "Org1MSP" ∷ ".peer')" ∷ []) }))
create_organization-endorsement_example =
    create_organization-endorsement names names-AreNames types seven_thousand peers made made_ok

abbrev limits : BatchSize
limits = record { max_message_count = 0; absolute_max_bytes = 5; preferred_max_bytes = 0 }

-- A configuration that is whether its one organisation is there.
abbrev one_member : Group Bool String
one_member = record {
  organization = λ s name. ok s;
  set_organization = λ s org. ok true;
  remove_organization = λ s name. false;
}

abbrev itself : String → String
itself s = s

one_member-IsGroup : IsGroup itself one_member
one_member-IsGroup = record { set_there = λ s t org h. sym h; removed = λ s name h. refl }

abbrev config : ConfigTx Bool String
config = record {
  has_application = λ s. true;
  application = one_member;
  has_consortium = λ s name. true;
  consortium = λ name. one_member;
  compute_marshaled_update = λ s channel_id. ok (3 ∷ []);
}

abbrev changed : UpdateEnvelope
changed = record { signatures = []; update = 3 ∷ []; channel_id = "mychannel" }

added : channel_add_org config (ok false) "org1" (ok "org1") "mychannel" ≡ ok changed
unfolding channel_add_org
added = refl

channel_add_org-Edits_example : Edits config one_member false "org1" false true "mychannel" changed
channel_add_org-Edits_example =
    channel_add_org-Edits config itself one_member-IsGroup false "org1" "mychannel" changed added

removed : channel_remove_org config (ok true) "org1" "mychannel" ≡ ok changed
unfolding channel_remove_org
removed = refl

abbrev numbers : BlockCodecs
numbers = record {
  metadata = codec bytes_wire;
  last_config = codec nat_wire;
  orderer_block_metadata =
      codec
        (via (λ m. m.last_config) (λ o. record { last_config = o }) (λ m. refl) (option nat_wire));
  signatures_index = 0;
  last_config_index = 1;
  config = pos 1;
  orderer_transaction = pos 4;
}

numbers-AreCalm : AreCalm numbers
numbers-AreCalm = record {
  metadata_calm = codec_calm bytes_wire;
  last_config_calm = codec_calm nat_wire;
  orderer_calm =
      codec_calm
        (via (λ m. m.last_config) (λ o. record { last_config = o }) (λ m. refl) (option nat_wire));
}

-- Its signature metadata says that there is orderer metadata without a last configuration.
abbrev block : Block
block = record { data_entries = some ((1 ∷ []) ∷ []); metadata_entries = some ((1 ∷ 0 ∷ []) ∷ []) }

get_last_config_index-panic_iff_example :
    (get_last_config_index_from_block numbers block ≡ panic) ↔ LastConfigMissing numbers block
get_last_config_index-panic_iff_example =
    get_last_config_index-panic_iff numbers numbers-AreCalm block

last_config_missing : get_last_config_index_from_block numbers block ≡ panic
unfolding get_last_config_index_from_block get_metadata_from_block
last_config_missing = refl

-- A block of one envelope, an orderer transaction.
abbrev orderer_block : Block
orderer_block = record {
  data_entries = some (
      value_or [] (
        codecs.envelope.marshal (record {
          payload = value_or [] (
              codecs.payload.marshal (record {
                header = some (record {
                  channel_header = value_or [] (
                      codecs.channel_header.marshal (record {
                        type = pos 4;
                        version = pos 0;
                        timestamp = 1700;
                        channel_id = "mychannel";
                        tx_id = "";
                        epoch = 0;
                        extension = [];
                        tls_cert_hash = [];
                      }));
                  signature_header = [];
                });
                data_bytes = [];
              }));
          signature = [];
        }))
      ∷ []);
  metadata_entries = none;
}

orderer_block_test : is_config_block codecs numbers orderer_block ≡ ok true
unfolding is_config_block extract_envelope unmarshal_envelope unmarshal_payload
    unmarshal_channel_header
orderer_block_test = refl

is_config_block_iff_example :
    (is_config_block codecs numbers orderer_block ≡ ok true) ↔ IsConfig codecs numbers orderer_block
is_config_block_iff_example = is_config_block_iff codecs numbers orderer_block
