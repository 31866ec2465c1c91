-- ===== src/Gateway/Access.antt =====
-- packages/gateway-core/src/access-policy.ts and model-capabilities.ts: who may use a model, and by
-- which protocols a model is offered. Identifiers are numbers.
pub mod Offers
mod Examples
use ucli_server.Base.{
  ℕ, Bool, true, false, ◌&&◌, ◌||◌, not, Option, none, some, List, [], ◌∷◌, ◌==◌, is_none, map,
}
use ucli_server.Base.Lists.{any, filter, includes}
use ucli_server.Budget.Ledger.{Role, platform_admin, org_admin, member}

pub record ModelAccessPrincipal : Type 0 where
  pub group_id : Option ℕ
  pub project_id : Option ℕ
  pub organization_id : ℕ
  pub account_id : ℕ
  pub role : Role

-- `canAccessGroupModel`.
unfoldable pub can_access_group_model : ℕ → Option (List ℕ) → Bool
can_access_group_model model none = true
can_access_group_model model (some allowed) = includes allowed model

pub record ModelAccessPolicy : Type 0 where
  pub organization_id : Option ℕ
  pub account_id : Option ℕ
  pub role : Option Role

abbrev pub same_role : Role → Role → Bool
same_role platform_admin platform_admin = true
same_role org_admin org_admin = true
same_role member member = true
same_role _ _ = false

-- The test of one policy.
unfoldable pub policy_admits : ModelAccessPrincipal → ModelAccessPolicy → Bool
policy_admits principal policy =
    (elim policy.organization_id [ none ↦ true | some o ↦ o == principal.organization_id ])
    && (elim policy.account_id [ none ↦ true | some a ↦ a == principal.account_id ])
    && (elim policy.role [ none ↦ true | some r ↦ same_role r principal.role ])

-- `canAccessModel`.
unfoldable pub can_access_model : List ModelAccessPolicy → ModelAccessPrincipal → Bool
unfolding policy_admits
can_access_model [] principal = true
can_access_model (policy ∷ policies) principal = any (policy_admits principal) (policy ∷ policies)

pub data GatewayProtocol : Type 0 where
  openai_responses openai_chat anthropic_messages gemini : GatewayProtocol

pub data UpstreamProtocol : Type 0 where
  upstream_responses upstream_chat upstream_messages upstream_gemini : UpstreamProtocol

pub record UpstreamKey : Type 0 where
  pub enabled : Bool
  pub deleted_at : Option ℕ

pub record ProtocolMapping : Type 0 where
  pub protocol : UpstreamProtocol
  pub enabled : Bool
  pub deleted_at : Option ℕ
  pub channel_enabled : Bool
  pub channel_deleted_at : Option ℕ
  pub channel_keys : List UpstreamKey

abbrev pub same_upstream : UpstreamProtocol → UpstreamProtocol → Bool
same_upstream upstream_responses upstream_responses = true
same_upstream upstream_chat upstream_chat = true
same_upstream upstream_messages upstream_messages = true
same_upstream upstream_gemini upstream_gemini = true
same_upstream _ _ = false

-- `CLIENT_UPSTREAMS`, and `upstreamProtocolsForClient`.
unfoldable pub upstream_protocols_for_client : GatewayProtocol → List UpstreamProtocol
upstream_protocols_for_client openai_responses = upstream_responses ∷ []
upstream_protocols_for_client openai_chat = upstream_chat ∷ upstream_gemini ∷ []
upstream_protocols_for_client anthropic_messages = upstream_messages ∷ []
upstream_protocols_for_client gemini = upstream_gemini ∷ []

abbrev pub client_protocol_order : List GatewayProtocol
client_protocol_order = openai_responses ∷ openai_chat ∷ anthropic_messages ∷ []

-- A mapping that can serve a request.
unfoldable pub is_configured : ProtocolMapping → Bool
is_configured m =
    m.enabled
    && is_none m.deleted_at
    && m.channel_enabled
    && is_none m.channel_deleted_at
    && any (λ k. k.enabled && is_none k.deleted_at) m.channel_keys

-- `configuredClientProtocols`.
unfoldable pub configured_client_protocols : List ProtocolMapping → List GatewayProtocol
unfolding is_configured upstream_protocols_for_client
configured_client_protocols mappings =
    let upstream = map (λ m. m.protocol) (filter is_configured mappings) in
    filter (λ c. any (λ u. any (same_upstream u) upstream) (upstream_protocols_for_client c))
      client_protocol_order
