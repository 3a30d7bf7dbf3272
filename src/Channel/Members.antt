-- ===== src/Channel/Members.antt =====
-- `ChannelAddOrg`, `ChannelRemoveOrg`, `ConsortiumAddOrg` and `ConsortiumRemoveOrg` of
-- internal/channel/channel.go. The configtx library and the decoding of the block are parameters.
use fabricsdk_go.Prelude.{
  not-true, ◌≡◌, Bool, true, false, not, String, [], Bytes, Result, ok, guard, guard-eq-ok, bind_ok,
  ◌>>=◌, ◌>>◌, arith,
}
use fabricsdk_go.Channel.Envelope.{UpdateEnvelope}

-- A group of organisations of a configuration that is edited, the application or a consortium. A
-- method of a nil group may panic, so that a look-up returns a result.
pub record Group (S G : Type 0) : Type 0 where
  pub organization : S → String → Result Bool
  pub set_organization : S → G → Result S
  pub remove_organization : S → String → S

-- An organisation that is set is there, and one that is removed is not.
pub record IsGroup {S G : Type 0} (name_of : G → String) (g : Group S G) : Type 0 where
  pub set_there :
      (s t : S) (org : G)
      → g.set_organization s org ≡ ok t
      → g.organization t (name_of org) ≡ ok true
  pub removed :
      (s : S) (name : String)
      → g.organization s name ≡ ok true
      → g.organization (g.remove_organization s name) name ≡ ok false

-- `configtx.ConfigTx`: whether the application and a consortium are there, and the update that the
-- edits make.
pub record ConfigTx (S G : Type 0) : Type 0 where
  pub has_application : S → Bool
  pub application : Group S G
  pub has_consortium : S → String → Bool
  pub consortium : String → Group S G
  pub compute_marshaled_update : S → String → Result Bytes

module _ {S G : Type 0} (tx : ConfigTx S G) where
  abbrev finish : String → S → Result UpdateEnvelope
  finish channel_id s = do
    update ← tx.compute_marshaled_update s channel_id
    ok (record { signatures = []; update = update; channel_id = channel_id })

  -- The configuration of the block, the organisation's name, and what `CreateOrganization` returns.
  unfoldable pub channel_add_org : Result S → String → Result G → String → Result UpdateEnvelope
  channel_add_org config name new_org channel_id = do
    s ← config
    there ← tx.application.organization s name
    guard (not there) "organization %s exist in channel %s"
    org ← new_org
    t ← tx.application.set_organization s org
    finish channel_id t

  unfoldable pub channel_remove_org : Result S → String → String → Result UpdateEnvelope
  channel_remove_org config name channel_id = do
    s ← config
    guard (tx.has_application s) "empty application"
    there ← tx.application.organization s name
    guard there "organization %s not exist in channel %s"
    finish channel_id (tx.application.remove_organization s name)

  unfoldable pub consortium_add_org :
      Result S → String → Result G → String → String → Result UpdateEnvelope
  consortium_add_org config name new_org consortium_name channel_id = do
    s ← config
    org ← new_org
    guard (tx.has_consortium s consortium_name) "not found consortiumName '%s' in config"
    there ← (tx.consortium consortium_name).organization s name
    guard (not there) "organization %s exist in consortiumName %s"
    t ← (tx.consortium consortium_name).set_organization s org
    finish channel_id t

  unfoldable pub consortium_remove_org : Result S → String → String → String → Result UpdateEnvelope
  consortium_remove_org config name consortium channel_id = do
    s ← config
    guard (tx.has_consortium s consortium) "not found consortium %s"
    there ← (tx.consortium consortium).organization s name
    guard there "not found org %s exist in consortium organizations"
    finish channel_id ((tx.consortium consortium).remove_organization s name)

-- The update of an edit: it takes a group with the organisation's presence `before` to one with its
-- presence `after`, and no one has signed it.
pub record Edits {S G : Type 0} (tx : ConfigTx S G) (g : Group S G) (s : S) (name : String)
    (before behind : Bool) (channel_id : String) (u : UpdateEnvelope) : Type 0 where
  pub start : g.organization s name ≡ ok before
  pub edited : S
  pub finish : g.organization edited name ≡ ok behind
  pub computed : tx.compute_marshaled_update edited channel_id ≡ ok u.update
  pub unsigned : u.signatures ≡ []
  pub channel : u.channel_id ≡ channel_id

module _ {S G : Type 0} (tx : ConfigTx S G) (name_of : G → String) where
  -- `ChannelAddOrg` makes an update, unsigned, from a configuration whose application does not have
  -- the organisation to one that does.
  pub channel_add_org-Edits :
      IsGroup name_of tx.application
      → (s : S) (org : G) (channel_id : String) (u : UpdateEnvelope)
      → channel_add_org tx (ok s) (name_of org) (ok org) channel_id ≡ ok u
      → Edits tx tx.application s (name_of org) false true channel_id u
  unfolding channel_add_org
  channel_add_org-Edits law s org channel_id u h =
      bind_ok (tx.application.organization s (name_of org)) _ h λ there e1 h1.
        bind_ok (guard (not there) _) _ h1 λ _ e2 h2.
          bind_ok (tx.application.set_organization s org) _ h2 λ t e3 h3.
            bind_ok (tx.compute_marshaled_update t channel_id) _ h3 λ update e4 h4.
              let absent : there ≡ false = not-true (guard-eq-ok _ _ e2) in
              let same : update ≡ u.update = ground (arith, h4) in
              record {
                start = rw (← absent) e1;
                edited = t;
                finish = law.set_there s t org e3;
                computed = rw (← same) e4;
                unsigned = ground (arith, h4);
                channel = ground (arith, h4);
              }

  -- `ChannelRemoveOrg` makes an update, unsigned, from a configuration whose application has the
  -- organisation to one that does not.
  pub channel_remove_org-Edits :
      IsGroup name_of tx.application
      → (s : S) (name channel_id : String) (u : UpdateEnvelope)
      → channel_remove_org tx (ok s) name channel_id ≡ ok u
      → Edits tx tx.application s name true false channel_id u
  unfolding channel_remove_org
  channel_remove_org-Edits law s name channel_id u h =
      bind_ok (guard (tx.has_application s) _) _ h λ _ e1 h1.
        bind_ok (tx.application.organization s name) _ h1 λ there e2 h2.
          bind_ok (guard there _) _ h2 λ _ e3 h3.
            bind_ok
              (tx.compute_marshaled_update (tx.application.remove_organization s name) channel_id) _
              h3
              λ update e4 h4.
                let present : there ≡ true = guard-eq-ok _ _ e3 in
                let same : update ≡ u.update = ground (arith, h4) in
                let start : tx.application.organization s name ≡ ok true = rw (← present) e2 in
                record {
                  start = start;
                  edited = tx.application.remove_organization s name;
                  finish = law.removed s name start;
                  computed = rw (← same) e4;
                  unsigned = ground (arith, h4);
                  channel = ground (arith, h4);
                }
