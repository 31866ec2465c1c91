-- ===== src/Gateway/Usage/Merge.antt =====
-- What a stream's usage says of its events, in packages/gateway-core/src/stream-usage.ts.
use ucli_server.Base.{
  ℕ, ◌≤◌, ◌≡◌, refl, true, Option, none, some, List, [], ◌∷◌, max, arith, or_else,
}
use ucli_server.Base.Table.{All, total}
use ucli_server.Gateway.Usage.{
  NormalizedUsage, Collector, Event, done, skipped, payload, merge_unpriced, merge_usage,
  normalize_usage, take_event, take_events,
}

-- The counts of one usage are at most those of another, and it is from upstream if the first one is.
pub record AtMost (a b : NormalizedUsage) : Type 0 where
  pub input : a.input_tokens ≤ b.input_tokens
  pub output : a.output_tokens ≤ b.output_tokens
  pub cached : a.cached_tokens ≤ b.cached_tokens
  pub reasoning : a.reasoning_tokens ≤ b.reasoning_tokens
  pub unpriced : or_else a.unpriced_tokens 0 ≤ or_else b.unpriced_tokens 0
  pub upstream : a.from_upstream ≡ true → b.from_upstream ≡ true

AtMost-trans : (a b c : NormalizedUsage) → AtMost a b → AtMost b c → AtMost a c
AtMost-trans a b c h k = record {
  input = omega (arith, h.input, k.input);
  output = omega (arith, h.output, k.output);
  cached = omega (arith, h.cached, k.cached);
  reasoning = omega (arith, h.reasoning, k.reasoning);
  unpriced = omega (arith, h.unpriced, k.unpriced);
  upstream = λ e. k.upstream (h.upstream e);
}

AtMost-refl : (a : NormalizedUsage) → AtMost a a
AtMost-refl a = record {
  input = omega arith;
  output = omega arith;
  cached = omega arith;
  reasoning = omega arith;
  unpriced = omega arith;
  upstream = λ e. e;
}

merge_unpriced-max :
    (a b : Option ℕ) → or_else (merge_unpriced a b) 0 ≡ max (or_else a 0) (or_else b 0)
unfolding merge_unpriced
merge_unpriced-max none none = ground arith
merge_unpriced-max none (some b) = ground arith
merge_unpriced-max (some a) none = ground arith
merge_unpriced-max (some a) (some b) = ground arith

merge_usage-AtMost :
    (c u : NormalizedUsage) → AtMost c (merge_usage c u) × AtMost u (merge_usage c u)
unfolding merge_usage
merge_usage-AtMost c u =
    let most = merge_unpriced-max u.unpriced_tokens c.unpriced_tokens in
    (
      record {
        input = omega arith;
        output = omega arith;
        cached = omega arith;
        reasoning = omega arith;
        unpriced = omega (arith, most);
        upstream = λ e. ground arith;
      },
      record {
        input = omega arith;
        output = omega arith;
        cached = omega arith;
        reasoning = omega arith;
        unpriced = omega (arith, most);
        upstream = λ e. ground arith;
      },
    )

-- What one event reports is in a usage.
abbrev pub IsCounted : NormalizedUsage → Event → Type 0
IsCounted total (payload ends (some u)) = AtMost (normalize_usage (some u)) total
IsCounted total _ = Unit

-- A later state of a collector.
pub record Grows (c d : Collector) : Type 0 where
  pub counts : AtMost c.collected d.collected
  pub ends : c.completed ≡ true → d.completed ≡ true

Grows-trans : (a b c : Collector) → Grows a b → Grows b c → Grows a c
Grows-trans a b c h k = record {
  counts = AtMost-trans a.collected b.collected c.collected h.counts k.counts;
  ends = λ e. k.ends (h.ends e);
}

take_event-Grows : (c : Collector) (e : Event) → Grows c (take_event c e)
unfolding take_event
take_event-Grows c done = record { counts = AtMost-refl c.collected; ends = λ e. refl }
take_event-Grows c skipped = record { counts = AtMost-refl c.collected; ends = λ e. e }
take_event-Grows c (payload b none) = record {
  counts = AtMost-refl c.collected;
  ends = λ e. rw e refl;
}
take_event-Grows c (payload b (some u)) = record {
  counts = (merge_usage-AtMost c.collected (normalize_usage (some u))).0;
  ends = λ e. rw e refl;
}

take_event-IsCounted : (c : Collector) (e : Event) → IsCounted (take_event c e).collected e
unfolding take_event
take_event-IsCounted c done = tt
take_event-IsCounted c skipped = tt
take_event-IsCounted c (payload b none) = tt
take_event-IsCounted c (payload b (some u)) =
    (merge_usage-AtMost c.collected (normalize_usage (some u))).1

IsCounted-AtMost : (a b : NormalizedUsage) (e : Event) → AtMost a b → IsCounted a e → IsCounted b e
IsCounted-AtMost a b done h k = tt
IsCounted-AtMost a b skipped h k = tt
IsCounted-AtMost a b (payload ends none) h k = tt
IsCounted-AtMost a b (payload ends (some u)) h k = AtMost-trans (normalize_usage (some u)) a b k h

-- Over any events, the counts of a collector never fall and an end that was seen stays seen; each count
-- that an event reports is at most the collector's, and a usage from upstream makes its usage one.
pub take_events-IsCounted :
    (c : Collector) (es : List Event)
    → Grows c (take_events c es) × All (IsCounted (take_events c es).collected) es
unfolding take_events
take_events-IsCounted c [] = (record { counts = AtMost-refl c.collected; ends = λ e. e }, tt)
take_events-IsCounted c (e ∷ es) =
    let rest = take_events-IsCounted (take_event c e) es in
    (
      Grows-trans c (take_event c e) (take_events c (e ∷ es)) (take_event-Grows c e) rest.0,
      (
        IsCounted-AtMost (take_event c e).collected (take_events c (e ∷ es)).collected e
            rest.0.counts (take_event-IsCounted c e),
        rest.1,
      ),
    )
