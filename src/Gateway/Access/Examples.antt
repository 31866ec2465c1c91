-- ===== src/Gateway/Access/Examples.antt =====
-- Runs of packages/gateway-core/src/access-policy.ts and model-capabilities.ts.
use ucli_server.Base.{◌≡◌, refl, true, false, ◌&&◌, none, some, [], ◌∷◌}
use ucli_server.Base.Lists.{any}
use ucli_server.Budget.Ledger.{member, org_admin}
use ucli_server.Gateway.Access.{
  ModelAccessPrincipal, ModelAccessPolicy, can_access_model, can_access_group_model,
  ProtocolMapping, is_configured, configured_client_protocols, openai_chat, upstream_gemini,
}
use ucli_server.Gateway.Access.Offers.{
  is_client, same_protocol, serves, configured_client_protocols-serves,
}

abbrev principal : ModelAccessPrincipal
principal = record {
  group_id = none;
  project_id = none;
  organization_id = 5;
  account_id = 9;
  role = member;
}

abbrev admins : ModelAccessPolicy
admins = record { organization_id = some 5; account_id = none; role = some org_admin }

abbrev everyone : ModelAccessPolicy
everyone = record { organization_id = some 5; account_id = none; role = none }

refused_test : can_access_model (admins ∷ []) principal ≡ false
unfolding can_access_model
refused_test = refl

admitted_test : can_access_model (admins ∷ everyone ∷ []) principal ≡ true
unfolding can_access_model
admitted_test = refl

group_test : can_access_group_model 3 (some (1 ∷ 3 ∷ [])) ≡ true
unfolding can_access_group_model
group_test = refl

abbrev mapping : ProtocolMapping
mapping = record {
  protocol = upstream_gemini;
  enabled = true;
  deleted_at = none;
  channel_enabled = true;
  channel_deleted_at = none;
  channel_keys = (record { enabled = true; deleted_at = none }) ∷ [];
}

configured_client_protocols-serves_example :
    any (same_protocol openai_chat) (configured_client_protocols (mapping ∷ [])) ≡ (
      is_client openai_chat
      && any (λ m. is_configured m && serves openai_chat m.protocol) (mapping ∷ []))
configured_client_protocols-serves_example =
    configured_client_protocols-serves openai_chat (mapping ∷ [])
