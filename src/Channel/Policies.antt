-- ===== src/Channel/Policies.antt =====
-- Which policies `CreateOrganization` gives an organisation, and the limits of `GetBatchSize`.
use fabricsdk_go.Prelude.{
  ◌≡◌, ◌≢◌, refl, Bool, true, false, String, str_eq, eq_iff, List, [], ◌∷◌, Option, none, some, ok,
  err, message, bind_ok, ◌<◌, arith, if◌then◌else◌, ℤ, int_eq,
}
use fabricsdk_go.Channel.Organization.{
  Policy, PolicyNames, AreNames, OrganizationTypes, Organization, ConfigOrganization, texts,
  get_peer_org_standard_rw_policies, get_orderer_org_standard_rw_policy, policies_by_type,
  create_organization, BatchSize, get_batch_size,
}

abbrev pub policy_at : String → List (String × Policy) → Option Policy
policy_at key [] = none
policy_at key ((name, policy) ∷ rest) = if str_eq name key then some policy else policy_at key rest

is_not : {x y : String} → x ≢ y → str_eq x y ≡ false
is_not {x} {y} h = ground (arith, eq_iff x y, h)

module _ (k : PolicyNames) (names : AreNames k) (t : OrganizationTypes) (decimal : ℤ → String)
    {C : Type 0} where
  by_type :
      (o : Organization C) (ps : List (String × Policy))
      → policies_by_type k t decimal o ≡ ok ps
      → policy_at k.endorsement_policy_key ps ≡ (
          if int_eq o.type t.peer
          then none
          else some (record {
            type = k.signature_policy_type;
            rule = texts ("OR('" ∷ o.id ∷ ".peer')" ∷ []);
          }))
  unfolding get_orderer_org_standard_rw_policy get_peer_org_standard_rw_policies
  by_type o ps h = cases (int_eq o.type t.peer) (int_eq o.type t.orderer) h
    where
      cases :
          (peer orderer : Bool)
          → (if peer
              then ok (get_orderer_org_standard_rw_policy k o.id)
              else if orderer
              then ok (get_peer_org_standard_rw_policies k o.id)
              else err (message "organization type is required"))
            ≡ ok ps
          → policy_at k.endorsement_policy_key ps ≡ (
              if peer
              then none
              else some (record {
                type = k.signature_policy_type;
                rule = texts ("OR('" ∷ o.id ∷ ".peer')" ∷ []);
              }))
      cases true orderer h =
          let same : get_orderer_org_standard_rw_policy k o.id ≡ ps = ground (arith, h) in
          rw (← same, is_not names.not_readers, is_not names.not_writers, is_not names.not_admins)
      cases false true h =
          let same : get_peer_org_standard_rw_policies k o.id ≡ ps = ground (arith, h) in
          rw (
            ← same,
            is_not names.not_readers,
            is_not names.not_writers,
            is_not names.not_admins,
            (eq_iff k.endorsement_policy_key k.endorsement_policy_key).1 refl,
          )
      cases false false h = cc

  -- The organisation that `CreateOrganization` returns has no endorsement policy where its type is
  -- that of peers; otherwise it has one that its peers satisfy.
  pub create_organization-endorsement :
      (o : Organization C) (made : ConfigOrganization C)
      → create_organization k t decimal o ≡ ok made
      → policy_at k.endorsement_policy_key made.policies ≡ (
          if int_eq o.type t.peer
          then none
          else some (record {
            type = k.signature_policy_type;
            rule = texts ("OR('" ∷ o.id ∷ ".peer')" ∷ []);
          }))
  unfolding create_organization
  create_organization-endorsement o made h =
      bind_ok (policies_by_type k t decimal o) _ h λ ps e h1.
        let same : ps ≡ made.policies = ground (arith, h1) in rw (← same) (by_type o ps e)

-- `GetBatchSize` leaves no limit at 0, and changes nothing when it is applied again.
pub get_batch_size-filled :
    (b : BatchSize)
    → (0 < (get_batch_size b).max_message_count)
      × (0 < (get_batch_size b).absolute_max_bytes)
      × (0 < (get_batch_size b).preferred_max_bytes)
      × (get_batch_size (get_batch_size b) ≡ get_batch_size b)
unfolding get_batch_size
get_batch_size-filled b = ground arith
