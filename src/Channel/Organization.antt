-- ===== src/Channel/Organization.antt =====
-- internal/channel/config.go: organisations, their policies and the size of batches. The names of
-- the policies and their types are the configtx library's, and parameters; certificates are opaque.
use Prim.Native.String.{◌++◌ as append}
use fabricsdk_go.Prelude.{
  ℕ, ◌≢◌, String, List, [], ◌∷◌, map, Option, none, some, Result, ok, err, message, ◌>>=◌, ◌*◌,
  ◌==◌, if◌then◌else◌, ℤ, int_eq,
}

pub record Policy : Type 0 where
  pub type : String
  pub rule : String

pub record PolicyNames : Type 0 where
  pub readers_policy_key : String
  pub writers_policy_key : String
  pub admins_policy_key : String
  pub endorsement_policy_key : String
  pub signature_policy_type : String

-- The key of the endorsement policy is none of the others.
pub record AreNames (k : PolicyNames) : Type 0 where
  pub not_readers : k.readers_policy_key ≢ k.endorsement_policy_key
  pub not_writers : k.writers_policy_key ≢ k.endorsement_policy_key
  pub not_admins : k.admins_policy_key ≢ k.endorsement_policy_key

-- `Organization_PEER` and `Organization_ORDERER`, which is generated code.
pub record OrganizationTypes : Type 0 where
  pub peer : ℤ
  pub orderer : ℤ

pub record AnchorPeer : Type 0 where
  pub host : String
  pub port : ℤ

pub record Organization (C : Type 0) : Type 0 where
  pub type : ℤ
  pub id : String
  pub name : String
  pub root_ca : C
  pub tls_root_ca : C
  pub anchor_peers : List AnchorPeer
  pub orderer_consenters : List AnchorPeer

-- `configtx.MSP`, as `createMSP` fills it; the four node classes name the root certificate.
pub record Msp (C : Type 0) : Type 0 where
  pub name : String
  pub root_certs : List C
  pub tls_root_certs : List C
  pub admins : List C
  pub signature_hash_family : String
  pub identity_identifier_hash_function : String
  pub client_ou : C × String
  pub peer_ou : C × String
  pub admin_ou : C × String
  pub orderer_ou : C × String

-- `configtx.Organization`
pub record ConfigOrganization (C : Type 0) : Type 0 where
  pub name : String
  pub policies : List (String × Policy)
  pub msp : Msp C
  pub anchor_peers : List AnchorPeer
  pub orderer_endpoints : List String

-- Texts one behind the other, as a format makes them.
abbrev pub texts : List String → String
texts [] = ""
texts (s ∷ rest) = append s (texts rest)

module _ (k : PolicyNames) where
  abbrev signature_policy : List String → Policy
  signature_policy rule = record { type = k.signature_policy_type; rule = texts rule }

  unfoldable pub get_peer_org_standard_rw_policies : String → List (String × Policy)
  get_peer_org_standard_rw_policies msp_id =
      (
        k.readers_policy_key,
        signature_policy
            ("OR('" ∷ msp_id ∷ ".admin', '" ∷ msp_id ∷ ".peer', '" ∷ msp_id ∷ ".client')" ∷ []),
      )
      ∷ (
        k.writers_policy_key,
        signature_policy ("OR('" ∷ msp_id ∷ ".admin', '" ∷ msp_id ∷ ".client')" ∷ []),
      )
      ∷ (k.admins_policy_key, signature_policy ("OR('" ∷ msp_id ∷ ".admin')" ∷ []))
      ∷ (k.endorsement_policy_key, signature_policy ("OR('" ∷ msp_id ∷ ".peer')" ∷ []))
      ∷ []

  unfoldable pub get_orderer_org_standard_rw_policy : String → List (String × Policy)
  get_orderer_org_standard_rw_policy mspid =
      (k.readers_policy_key, signature_policy ("OR('" ∷ mspid ∷ ".member')" ∷ []))
      ∷ (k.writers_policy_key, signature_policy ("OR('" ∷ mspid ∷ ".member')" ∷ []))
      ∷ (k.admins_policy_key, signature_policy ("OR('" ∷ mspid ∷ ".admin')" ∷ []))
      ∷ []

module _ {C : Type 0} where
  abbrev admins_of : Option C → List C
  admins_of none = []
  admins_of (some c) = c ∷ []

  unfoldable pub create_msp : String → C → C → Option C → Msp C
  create_msp msp_id root_ca tls_root_ca admin_ca = record {
    name = msp_id;
    root_certs = root_ca ∷ [];
    tls_root_certs = tls_root_ca ∷ [];
    admins = admins_of admin_ca;
    signature_hash_family = "SHA2";
    identity_identifier_hash_function = "SHA256";
    client_ou = (root_ca, "client");
    peer_ou = (root_ca, "peer");
    admin_ou = (root_ca, "admin");
    orderer_ou = (root_ca, "orderer");
  }

-- `decimal` prints a port.
module _ (k : PolicyNames) (t : OrganizationTypes) (decimal : ℤ → String) {C : Type 0} where
  -- The `switch` on the type.
  abbrev pub policies_by_type : Organization C → Result (List (String × Policy))
  policies_by_type o =
      if int_eq o.type t.peer
      then ok (get_orderer_org_standard_rw_policy k o.id)
      else if int_eq o.type t.orderer
      then ok (get_peer_org_standard_rw_policies k o.id)
      else err (message "organization type is required")

  unfoldable pub create_organization : Organization C → Result (ConfigOrganization C)
  unfolding get_orderer_org_standard_rw_policy get_peer_org_standard_rw_policies create_msp
  create_organization o = do
    policies ← policies_by_type o
    ok (record {
      name = o.name;
      policies = policies;
      msp = create_msp o.id o.root_ca o.tls_root_ca none;
      anchor_peers = o.anchor_peers;
      orderer_endpoints =
          map (λ order. texts (order.host ∷ ":" ∷ decimal order.port ∷ [])) o.orderer_consenters;
    })

pub record BatchSize : Type 0 where
  pub max_message_count : ℕ
  pub absolute_max_bytes : ℕ
  pub preferred_max_bytes : ℕ

abbrev or_default : ℕ → ℕ → ℕ
or_default n default = if n == 0 then default else n

unfoldable pub get_batch_size : BatchSize → BatchSize
get_batch_size b = record {
  absolute_max_bytes = or_default b.absolute_max_bytes (10 * 1024 * 1024);
  max_message_count = or_default b.max_message_count 500;
  preferred_max_bytes = or_default b.preferred_max_bytes (2 * 1024 * 1024);
}
