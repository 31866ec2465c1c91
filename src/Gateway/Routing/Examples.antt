-- ===== src/Gateway/Routing/Examples.antt =====
-- Runs of packages/gateway-core/src/routing.ts on a few candidates.
use ucli_server.Base.{ℕ, ◌≡◌, refl, true, false, Option, none, some, List, [], ◌∷◌, ltb}
use ucli_server.Base.Int.{pos, negsuc}
use ucli_server.Gateway.Routing.{
  ChannelCandidate, KeyCandidate, select_channel, key_priority, is_available, select_key,
  select_key_round_robin,
}
use ucli_server.Gateway.Routing.Choice.{IsBest, select_channel-IsBest, select_key-IsBest}
use ucli_server.Gateway.Routing.RoundRobin.{round_robin-IsBest}

abbrev channels : List ChannelCandidate
channels =
    (record { id = 1; priority = pos 0; weight = 1; healthy = true })
    ∷ (record { id = 2; priority = pos 5; weight = 3; healthy = true })
    ∷ (record { id = 3; priority = pos 5; weight = 1; healthy = true })
    ∷ (record { id = 4; priority = pos 9; weight = 1; healthy = false })
    ∷ []

abbrev chosen : Option ℕ
chosen = elim (select_channel channels 800000000) [ none ↦ none | some c ↦ some c.id ]

channel_test : chosen ≡ some 3
unfolding select_channel
channel_test = refl

select_channel-IsBest_example :
    IsBest (λ c. c.healthy) (λ c. c.priority) channels (select_channel channels 800000000)
select_channel-IsBest_example = select_channel-IsBest channels 800000000

abbrev key : KeyCandidate
key = record {
  id = 1;
  enabled = true;
  healthy = true;
  remaining_usd = none;
  weight = 1;
  priority = none;
  expires_at = some 500;
  isolated_until = none;
}

abbrev keys : List KeyCandidate
keys =
    key
    ∷ record key { id = 3; remaining_usd = some (pos 0) }
    ∷ record key { id = 2; isolated_until = some 100 }
    ∷ record key { id = 4; priority = some (negsuc 0) }
    ∷ []

select_key-IsBest_example : IsBest (is_available 100) key_priority keys (select_key keys 7 100)
select_key-IsBest_example = select_key-IsBest keys 7 100

abbrev next : Option ℕ
next = elim (select_key_round_robin ltb keys (pos 7) 100) [ none ↦ none | some k ↦ some k.id ]

key_test : next ≡ some 2
unfolding select_key_round_robin
key_test = refl

round_robin-IsBest_example :
    IsBest (is_available 100) key_priority keys (select_key_round_robin ltb keys (pos 7) 100)
round_robin-IsBest_example = round_robin-IsBest ltb keys (pos 7) 100
