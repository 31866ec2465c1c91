-- ===== src/Gateway/Access/Offers.antt =====
-- Which protocols `configuredClientProtocols` of packages/gateway-core/src/model-capabilities.ts offers.
use ucli_server.Base.{
  ◌≡◌, refl, Bool, true, false, ◌&&◌, ◌||◌, List, [], ◌∷◌, arith, map, inl, inr, Bool-cases, ap,
  ◌∙◌,
}
use ucli_server.Base.Lists.{any, filter}
use ucli_server.Gateway.Access.{
  GatewayProtocol, UpstreamProtocol, ProtocolMapping, openai_responses, openai_chat,
  anthropic_messages, gemini, upstream_responses, upstream_chat, upstream_messages, upstream_gemini,
  same_upstream, upstream_protocols_for_client, is_configured, configured_client_protocols,
}

abbrev pub same_protocol : GatewayProtocol → GatewayProtocol → Bool
same_protocol openai_responses openai_responses = true
same_protocol openai_chat openai_chat = true
same_protocol anthropic_messages anthropic_messages = true
same_protocol gemini gemini = true
same_protocol _ _ = false

-- The upstream protocol answers a client's protocol.
abbrev pub serves : GatewayProtocol → UpstreamProtocol → Bool
serves openai_responses upstream_responses = true
serves openai_chat upstream_chat = true
serves openai_chat upstream_gemini = true
serves anthropic_messages upstream_messages = true
serves gemini upstream_gemini = true
serves _ _ = false

abbrev pub is_client : GatewayProtocol → Bool
is_client gemini = false
is_client _ = true

-- A search among the mappings that can serve, for either of two protocols.
any-either :
    {A B : Type 0} (f : A → B) (usable : A → Bool) (p q r : B → Bool) (xs : List A)
    → ((b : B) → r b ≡ (p b || q b))
    → (any p (map f (filter usable xs)) || any q (map f (filter usable xs)))
      ≡ any (λ x. usable x && r (f x)) xs
any-either f usable p q r [] h = refl
any-either f usable p q r (x ∷ xs) h =
    let rest = any-either f usable p q r xs h in
    let here = h (f x) in
    elim (Bool-cases (usable x)) [
      | inl e ↦ rw (e, filter, here) (ground (arith, rest))
      | inr e ↦ rw (e, filter) rest
    ]

serves_chat :
    (u : UpstreamProtocol)
    → serves openai_chat u ≡ (same_upstream upstream_chat u || same_upstream upstream_gemini u)
serves_chat upstream_responses = refl
serves_chat upstream_chat = refl
serves_chat upstream_messages = refl
serves_chat upstream_gemini = refl

serves_responses :
    (u : UpstreamProtocol) → serves openai_responses u ≡ same_upstream upstream_responses u
serves_responses upstream_responses = refl
serves_responses upstream_chat = refl
serves_responses upstream_messages = refl
serves_responses upstream_gemini = refl

serves_messages :
    (u : UpstreamProtocol) → serves anthropic_messages u ≡ same_upstream upstream_messages u
serves_messages upstream_responses = refl
serves_messages upstream_chat = refl
serves_messages upstream_messages = refl
serves_messages upstream_gemini = refl

serves_gemini : (u : UpstreamProtocol) → serves gemini u ≡ same_upstream upstream_gemini u
serves_gemini upstream_responses = refl
serves_gemini upstream_chat = refl
serves_gemini upstream_messages = refl
serves_gemini upstream_gemini = refl

-- The same for one protocol.
any-served :
    {A B : Type 0} (f : A → B) (usable : A → Bool) (p r : B → Bool) (xs : List A)
    → ((b : B) → r b ≡ p b)
    → (any p (map f (filter usable xs)) || false) ≡ any (λ x. usable x && r (f x)) xs
any-served f usable p r [] h = refl
any-served f usable p r (x ∷ xs) h =
    let rest = any-served f usable p r xs h in
    let here = h (f x) in
    elim (Bool-cases (usable x)) [
      | inl e ↦ rw (e, filter, here) (ground (arith, rest))
      | inr e ↦ rw (e, filter) rest
    ]

offered :
    (c : GatewayProtocol) (mappings : List ProtocolMapping)
    → any
        (λ u. any (same_upstream u) (map (λ m. m.protocol) (filter is_configured mappings)))
        (upstream_protocols_for_client c)
      ≡ any (λ m. is_configured m && serves c m.protocol) mappings
unfolding upstream_protocols_for_client
offered openai_chat mappings =
    rw
      (← any-either (λ m. m.protocol) is_configured (same_upstream upstream_chat)
        (same_upstream upstream_gemini) (serves openai_chat) mappings serves_chat)
      (ground arith)
offered openai_responses mappings =
    any-served (λ m. m.protocol) is_configured (same_upstream upstream_responses)
      (serves openai_responses) mappings serves_responses
offered anthropic_messages mappings =
    any-served (λ m. m.protocol) is_configured (same_upstream upstream_messages)
      (serves anthropic_messages) mappings serves_messages
offered gemini mappings =
    any-served (λ m. m.protocol) is_configured (same_upstream upstream_gemini) (serves gemini)
      mappings serves_gemini

-- What a filter keeps of the three protocols.
kept :
    (c : GatewayProtocol) (p : GatewayProtocol → Bool)
    → any (same_protocol c) (filter p (openai_responses ∷ openai_chat ∷ anthropic_messages ∷ []))
      ≡ (is_client c && p c)
kept openai_responses p = ground arith
kept openai_chat p = ground arith
kept anthropic_messages p = ground arith
kept gemini p = ground arith

-- A client's protocol is offered exactly if it is one of the three that clients speak and some mapping
-- that is enabled and not deleted, on a channel that is and that has such a key, has an upstream
-- protocol that answers it.
pub configured_client_protocols-serves :
    (c : GatewayProtocol) (mappings : List ProtocolMapping)
    → any (same_protocol c) (configured_client_protocols mappings)
      ≡ (is_client c && any (λ m. is_configured m && serves c m.protocol) mappings)
unfolding configured_client_protocols
configured_client_protocols-serves c mappings =
    let test = λ (d : GatewayProtocol).
      any (λ u. any (same_upstream u) (map (λ m. m.protocol) (filter is_configured mappings)))
        (upstream_protocols_for_client d) in
    kept c test ∙ ap (λ b. is_client c && b) (offered c mappings)
