-- ===== src/Gateway/Usage/Order.antt =====
-- The order of the events of a stream, in packages/gateway-core/src/stream-usage.ts.
use mathlib.Core.List.{Permᴰ}
use ucli_server.Base.{
  ℕ, ◌≡◌, refl, ◌∙◌, sym, Bool, true, false, ◌||◌, Option, none, some, List, max, arith, ap,
}
use ucli_server.Gateway.Usage.{
  NormalizedUsage, Collector, Event, done, skipped, payload, merge_unpriced, merge_usage,
  normalize_usage, take_event, take_events,
}

merge_unpriced_swap :
    (a b c : Option ℕ)
    → merge_unpriced a (merge_unpriced b c) ≡ merge_unpriced b (merge_unpriced a c)
unfolding merge_unpriced
merge_unpriced_swap none none c = refl
merge_unpriced_swap none (some b) none = ground arith
merge_unpriced_swap none (some b) (some c) = ground arith
merge_unpriced_swap (some a) none none = ground arith
merge_unpriced_swap (some a) none (some c) = ground arith
merge_unpriced_swap (some a) (some b) none = ground arith
merge_unpriced_swap (some a) (some b) (some c) = ground arith

max_swap : (a b c : ℕ) → max (max a b) c ≡ max (max a c) b
max_swap a b c = omega arith

or_swap : (a b c : Bool) → (a || (b || c)) ≡ (b || (a || c))
or_swap a b c = ground arith

or_exchange : (a b c : Bool) → ((a || b) || c) ≡ ((a || c) || b)
or_exchange a b c = ground arith

or_true : (a : Bool) → true ≡ (a || true)
or_true a = ground arith

or_false : (a : Bool) → a ≡ (a || false)
or_false a = ground arith

merge_usage_swap :
    (c u v : NormalizedUsage) → merge_usage (merge_usage c u) v ≡ merge_usage (merge_usage c v) u
unfolding merge_usage
merge_usage_swap c u v = λ i. record {
  input_tokens = max_swap c.input_tokens u.input_tokens v.input_tokens i;
  output_tokens = max_swap c.output_tokens u.output_tokens v.output_tokens i;
  cached_tokens = max_swap c.cached_tokens u.cached_tokens v.cached_tokens i;
  reasoning_tokens = max_swap c.reasoning_tokens u.reasoning_tokens v.reasoning_tokens i;
  from_upstream = or_swap v.from_upstream u.from_upstream c.from_upstream i;
  unpriced_tokens = merge_unpriced_swap v.unpriced_tokens u.unpriced_tokens c.unpriced_tokens i;
}

abbrev ends : Event → Bool
ends done = true
ends skipped = false
ends (payload b u) = b

abbrev reported : Event → Option NormalizedUsage
reported (payload b (some u)) = some (normalize_usage (some u))
reported _ = none

abbrev with_usage : NormalizedUsage → Option NormalizedUsage → NormalizedUsage
with_usage c none = c
with_usage c (some u) = merge_usage c u

abbrev after : Collector → Event → Collector
after c e = record c {
  completed = c.completed || ends e;
  collected = with_usage c.collected (reported e);
}

take_event-after : (c : Collector) (e : Event) → take_event c e ≡ after c e
unfolding take_event
take_event-after c done = λ i. record c { completed = or_true c.completed i }
take_event-after c skipped = λ i. record c { completed = or_false c.completed i }
take_event-after c (payload b none) = refl
take_event-after c (payload b (some u)) = refl

with_usage_swap :
    (c : NormalizedUsage) (u v : Option NormalizedUsage)
    → with_usage (with_usage c u) v ≡ with_usage (with_usage c v) u
with_usage_swap c none none = refl
with_usage_swap c none (some v) = refl
with_usage_swap c (some u) none = refl
with_usage_swap c (some u) (some v) = merge_usage_swap c u v

take_event_swap :
    (c : Collector) (e f : Event) → take_event (take_event c e) f ≡ take_event (take_event c f) e
take_event_swap c e f = two c e f ∙ swapped ∙ sym (two c f e)
  where
    two : (c : Collector) (e f : Event) → take_event (take_event c e) f ≡ after (after c e) f
    two c e f = take_event-after (take_event c e) f ∙ ap (λ d. after d f) (take_event-after c e)

    swapped : after (after c e) f ≡ after (after c f) e
    swapped = λ i. record c {
      completed = or_exchange c.completed (ends e) (ends f) i;
      collected = with_usage_swap c.collected (reported e) (reported f) i;
    }

-- The order of the events of a stream does not matter for what a collector holds after them.
pub take_events_reordered :
    (c : Collector) {es fs : List Event} → Permᴰ es fs → take_events c es ≡ take_events c fs
unfolding take_events
take_events_reordered c (Permᴰ.nil) = refl
take_events_reordered c (Permᴰ.cons {a} {l₂} e r) =
    take_events_reordered (take_event c a) r ∙ ap (λ x. take_events (take_event c x) l₂) e
take_events_reordered c (Permᴰ.swap {a} {b} {a'} {l} e f) =
    ap (λ d. take_events d l)
      (take_event_swap c a b
        ∙ ap (λ z. take_event (take_event c z) a) f
        ∙ ap (take_event (take_event c a')) e)
take_events_reordered c (Permᴰ.trans r s) = take_events_reordered c r ∙ take_events_reordered c s
