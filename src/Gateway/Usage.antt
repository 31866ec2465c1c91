-- ===== src/Gateway/Usage.antt =====
-- packages/gateway-core/src/protocol.ts and stream-usage.ts: the usage that an upstream reports, in one
-- answer or over the events of a stream. The framing of a stream's text into events, with `JSON.parse`,
-- is a parameter.
pub mod Merge
pub mod Order
pub mod Total
mod Examples
use ucli_server.Base.{
  ℕ, ◌+◌, ◌*◌, ◌/◌, ◌^◌, Bool, true, false, ◌&&◌, ◌||◌, not, Option, none, some, List, [], ◌∷◌,
  String, ltb, leb, ◌==◌, if◌then◌else◌, max, or_else, is_none,
}
use ucli_server.Base.Lists.{any}

-- What `usage[key]` may be: a number is natural, or not negative with a fraction (by its whole part), or
-- anything else, such as a text or a negative number.
pub data Value : Type 0 where
  undefined null other : Value
  natural fractional : ℕ → Value

-- `a ?? b`.
abbrev pub coalesce : Value → Value → Value
coalesce undefined b = b
coalesce null b = b
coalesce a b = a

-- `count`.
unfoldable pub count : Value → ℕ
count (natural n) = n
count (fractional n) = n
count _ = 0

abbrev pub is_safe_count : Value → Bool
is_safe_count (natural n) = ltb n (2 ^ 53)
is_safe_count _ = false

-- The fields that `normalizeUsage` reads, the nested ones by their path.
pub record RawUsage : Type 0 where
  pub prompt_tokens : Value
  pub input_tokens : Value
  pub completion_tokens : Value
  pub output_tokens : Value
  pub prompt_cached_tokens : Value
  pub input_cached_tokens : Value
  pub cache_read_input_tokens : Value
  pub prompt_cache_hit_tokens : Value
  pub completion_reasoning_tokens : Value
  pub output_reasoning_tokens : Value
  pub cache_creation_input_tokens : Value

pub record NormalizedUsage : Type 0 where
  pub input_tokens : ℕ
  pub output_tokens : ℕ
  pub cached_tokens : ℕ
  pub reasoning_tokens : ℕ
  pub from_upstream : Bool
  pub unpriced_tokens : Option ℕ

unfoldable pub no_usage : NormalizedUsage
no_usage = record {
  input_tokens = 0;
  output_tokens = 0;
  cached_tokens = 0;
  reasoning_tokens = 0;
  from_upstream = false;
  unpriced_tokens = none;
}

abbrev pub is_undefined : Value → Bool
is_undefined undefined = true
is_undefined _ = false

-- The counts of a usage that reports some.
unfoldable pub reported_usage : RawUsage → NormalizedUsage
unfolding count
reported_usage u =
    let cached = count (
      coalesce u.prompt_cached_tokens (
        coalesce u.input_cached_tokens
          (coalesce u.cache_read_input_tokens u.prompt_cache_hit_tokens))) in
    let provider_input = count (coalesce u.prompt_tokens u.input_tokens) in
    let unpriced = count u.cache_creation_input_tokens in
    record {
      input_tokens =
          if is_undefined u.cache_read_input_tokens
          then provider_input
          else provider_input + cached;
      output_tokens = count (coalesce u.completion_tokens u.output_tokens);
      cached_tokens = cached;
      reasoning_tokens = count (coalesce u.completion_reasoning_tokens u.output_reasoning_tokens);
      from_upstream = true;
      unpriced_tokens = if ltb 0 unpriced then some unpriced else none;
    }

-- `normalizeUsage`.
unfoldable pub normalize_usage : Option RawUsage → NormalizedUsage
unfolding no_usage reported_usage
normalize_usage none = no_usage
normalize_usage (some u) =
    if is_safe_count u.prompt_tokens
      || is_safe_count u.input_tokens
      || is_safe_count u.completion_tokens
      || is_safe_count u.output_tokens
    then reported_usage u
    else no_usage

-- `retryableBeforeResponse`.
unfoldable pub retryable_before_response : ℕ → Bool → Bool
retryable_before_response status response_started =
    not response_started && (status == 408 || status == 429 || leb 500 status)

-- An event of a stream: the mark of its end, an event without a payload, or a payload, with whether its
-- type ends the answer and the usage that the protocol finds in it.
pub data Event : Type 0 where
  done skipped : Event
  payload : Bool → Option RawUsage → Event

-- `StreamUsageCollector`.
pub record Collector : Type 0 where
  pub buffer : String
  pub received_bytes : ℕ
  pub collected : NormalizedUsage
  pub completed : Bool

unfoldable pub new_collector : Collector
unfolding no_usage
new_collector = record { buffer = ""; received_bytes = 0; collected = no_usage; completed = false }

abbrev pub is_positive : Option ℕ → Bool
is_positive none = false
is_positive (some n) = ltb 0 n

unfoldable pub merge_unpriced : Option ℕ → Option ℕ → Option ℕ
merge_unpriced a b =
    if is_positive a || is_positive b then some (max (or_else a 0) (or_else b 0)) else none

-- The new value of `collected`.
unfoldable pub merge_usage : NormalizedUsage → NormalizedUsage → NormalizedUsage
unfolding merge_unpriced
merge_usage collected usage = record {
  input_tokens = max collected.input_tokens usage.input_tokens;
  output_tokens = max collected.output_tokens usage.output_tokens;
  cached_tokens = max collected.cached_tokens usage.cached_tokens;
  reasoning_tokens = max collected.reasoning_tokens usage.reasoning_tokens;
  from_upstream = usage.from_upstream || collected.from_upstream;
  unpriced_tokens = merge_unpriced usage.unpriced_tokens collected.unpriced_tokens;
}

-- One event in the loop of `push`.
unfoldable pub take_event : Collector → Event → Collector
unfolding merge_usage normalize_usage
take_event c done = record c { completed = true }
take_event c skipped = c
take_event c (payload ends none) = record c { completed = c.completed || ends }
take_event c (payload ends (some u)) = record c {
  completed = c.completed || ends;
  collected = merge_usage c.collected (normalize_usage (some u));
}

unfoldable pub take_events : Collector → List Event → Collector
unfolding take_event
take_events c [] = c
take_events c (e ∷ es) = take_events (take_event c e) es

-- The framing of the buffer and a chunk: the events, and the text that is left.
abbrev pub Framing : Type 0
Framing = String → String → List Event × String

-- `push`, of a chunk of text and its number of bytes.
unfoldable pub push : Framing → Collector → String → ℕ → Collector
unfolding take_events
push framing c chunk bytes =
    let framed = framing c.buffer chunk in
    take_events (record c { received_bytes = c.received_bytes + bytes; buffer = framed.1 }) framed.0

unfoldable pub push_all : Framing → Collector → List (String × ℕ) → Collector
unfolding push
push_all framing c [] = c
push_all framing c (x ∷ xs) = push_all framing (push framing c x.0 x.1) xs

-- `usage`.
unfoldable pub usage : Collector → ℕ → NormalizedUsage
usage c estimated_input_tokens = if c.collected.from_upstream then c.collected else record {
  input_tokens = max 1 estimated_input_tokens;
  output_tokens = max 1 ((c.received_bytes + 3) / 4);
  cached_tokens = 0;
  reasoning_tokens = 0;
  from_upstream = false;
  unpriced_tokens = none;
}
