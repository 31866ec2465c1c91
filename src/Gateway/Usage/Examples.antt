-- ===== src/Gateway/Usage/Examples.antt =====
-- Runs of packages/gateway-core/src/stream-usage.ts on the events of one answer.
use mathlib.Core.List.{Permᴰ}
use ucli_server.Base.{◌⊎◌, false, ℕ, ◌≡◌, refl, true, false, none, some, List, [], ◌∷◌, String}
use ucli_server.Base.Table.{All, total}
use ucli_server.Gateway.Usage.{
  RawUsage, Event, Framing, new_collector, skipped, payload, no_usage, undefined, natural,
  take_events, push_all, usage, retryable_before_response,
}
use ucli_server.Gateway.Usage.Merge.{Grows, IsCounted, take_events-IsCounted}
use ucli_server.Gateway.Usage.Total.{IsReported, IsEstimated, reports, events_of, push_all-usage}
use ucli_server.Base.Lists.{any}
use ucli_server.Gateway.Usage.Order.{take_events_reordered}

abbrev unset : RawUsage
unset = record {
  prompt_tokens = undefined;
  input_tokens = undefined;
  completion_tokens = undefined;
  output_tokens = undefined;
  prompt_cached_tokens = undefined;
  input_cached_tokens = undefined;
  cache_read_input_tokens = undefined;
  prompt_cache_hit_tokens = undefined;
  completion_reasoning_tokens = undefined;
  output_reasoning_tokens = undefined;
  cache_creation_input_tokens = undefined;
}

-- The input is told at the start of an answer, the output at its end.
abbrev at_start : Event
at_start =
    payload false
      (some (record unset { input_tokens = natural 12; cache_read_input_tokens = natural 5 }))

abbrev at_end : Event
at_end = payload true (some (record unset { output_tokens = natural 30 }))

collected_test : (take_events new_collector (at_start ∷ skipped ∷ at_end ∷ [])).collected ≡ record {
  input_tokens = 17;
  output_tokens = 30;
  cached_tokens = 5;
  reasoning_tokens = 0;
  from_upstream = true;
  unpriced_tokens = none;
}
unfolding take_events new_collector no_usage
collected_test = refl

retry_test : retryable_before_response 503 false ≡ true
unfolding retryable_before_response
retry_test = refl

take_events-IsCounted_example :
    Grows new_collector (take_events new_collector (at_start ∷ at_end ∷ []))
    × All
        (IsCounted (take_events new_collector (at_start ∷ at_end ∷ [])).collected)
        (at_start ∷ at_end ∷ [])
take_events-IsCounted_example = take_events-IsCounted new_collector (at_start ∷ at_end ∷ [])

take_events_reordered_example :
    take_events new_collector (at_start ∷ at_end ∷ [])
    ≡ take_events new_collector (at_end ∷ at_start ∷ [])
take_events_reordered_example = take_events_reordered new_collector (Permᴰ.swap refl refl)

-- A chunk is two events, and the stream has two chunks.
abbrev framing : Framing
framing buffer chunk = (at_start ∷ at_end ∷ [], "")

abbrev chunks : List (String × ℕ)
chunks = ("data", 40) ∷ ("end", 43) ∷ []

push_all-usage_example :
    ((any (λ r. r.from_upstream) (reports (events_of framing "" chunks)) ≡ true)
      × IsReported
          (reports (events_of framing "" chunks))
          (usage (push_all framing new_collector chunks) 9))
    ⊎ ((any (λ r. r.from_upstream) (reports (events_of framing "" chunks)) ≡ false)
        × IsEstimated (total (λ x. x.1) chunks) 9 (usage (push_all framing new_collector chunks) 9))
push_all-usage_example = push_all-usage framing chunks 9

reported_test : usage (push_all framing new_collector chunks) 9 ≡ record {
  input_tokens = 17;
  output_tokens = 30;
  cached_tokens = 5;
  reasoning_tokens = 0;
  from_upstream = true;
  unpriced_tokens = none;
}
unfolding usage push_all new_collector no_usage
reported_test = refl

-- A stream without a usage.
abbrev silent : Framing
silent buffer chunk = (skipped ∷ [], "")

estimated_test : usage (push_all silent new_collector chunks) 9 ≡ record {
  input_tokens = 9;
  output_tokens = 21;
  cached_tokens = 0;
  reasoning_tokens = 0;
  from_upstream = false;
  unpriced_tokens = none;
}
unfolding usage push_all new_collector no_usage
estimated_test = refl

silent_test : any (λ r. r.from_upstream) (reports (events_of silent "" chunks)) ≡ false
unfolding reports events_of
silent_test = refl
