-- ===== src/Gateway/Usage/Total.antt =====
-- The usage of a whole stream, in packages/gateway-core/src/stream-usage.ts, by what its events report.
use ucli_server.Base.{
  ℕ, ◌+◌, ◌*◌, ◌≤◌, ◌≡◌, ◌⊎◌, refl, inl, inr, Bool, true, false, ◌||◌, Option, none, some, List, [],
  ◌∷◌, ◌++◌, String, ltb, max, or_else, if◌then◌else◌, arith, Bool-cases, ◌∙◌, subst, ap,
}
use ucli_server.Base.Lists.{any}
use ucli_server.Base.Table.{total}
use ucli_server.Gateway.Usage.{
  NormalizedUsage, Collector, Event, Framing, done, skipped, payload, no_usage, merge_unpriced,
  merge_usage, normalize_usage, take_event, take_events, push, push_all, new_collector, usage,
}

-- The events of a stream, framed chunk by chunk.
unfoldable pub events_of : Framing → String → List (String × ℕ) → List Event
events_of framing buffer [] = []
events_of framing buffer (x ∷ xs) =
    (framing buffer x.0).0 ++ events_of framing (framing buffer x.0).1 xs

-- The usages that events report, one by one.
unfoldable pub reports : List Event → List NormalizedUsage
reports [] = []
reports (done ∷ es) = reports es
reports (skipped ∷ es) = reports es
reports (payload ends none ∷ es) = reports es
reports (payload ends (some u) ∷ es) = normalize_usage (some u) ∷ reports es

unfoldable pub largest : (NormalizedUsage → ℕ) → List NormalizedUsage → ℕ
largest f [] = 0
largest f (u ∷ us) = max (f u) (largest f us)

abbrev pub unpriced : NormalizedUsage → ℕ
unpriced u = or_else u.unpriced_tokens 0

abbrev pub positive : ℕ → Option ℕ
positive n = if ltb 0 n then some n else none

-- A usage is that of some reports: each count is the largest one reported.
pub record IsReported (us : List NormalizedUsage) (u : NormalizedUsage) : Type 0 where
  pub input : u.input_tokens ≡ largest (λ r. r.input_tokens) us
  pub output : u.output_tokens ≡ largest (λ r. r.output_tokens) us
  pub cached : u.cached_tokens ≡ largest (λ r. r.cached_tokens) us
  pub reasoning : u.reasoning_tokens ≡ largest (λ r. r.reasoning_tokens) us
  pub without_price : u.unpriced_tokens ≡ positive (largest unpriced us)
  pub upstream : u.from_upstream ≡ true

-- A usage is an estimate: the input that was estimated, and the least number of tokens, four bytes each,
-- that holds what was received, both at least one.
pub record IsEstimated (bytes estimated : ℕ) (u : NormalizedUsage) : Type 0 where
  pub input : u.input_tokens ≡ max 1 estimated
  pub output_positive : 1 ≤ u.output_tokens
  pub output_enough : bytes ≤ u.output_tokens * 4
  pub output_least : (n : ℕ) → 1 ≤ n → bytes ≤ n * 4 → u.output_tokens ≤ n
  pub cached : u.cached_tokens ≡ 0
  pub reasoning : u.reasoning_tokens ≡ 0
  pub without_price : u.unpriced_tokens ≡ none
  pub upstream : u.from_upstream ≡ false

-- What a usage becomes by some reports.
record Collects (u : NormalizedUsage) (us : List NormalizedUsage) (v : NormalizedUsage)
    : Type 0 where
  input : v.input_tokens ≡ max u.input_tokens (largest (λ r. r.input_tokens) us)
  output : v.output_tokens ≡ max u.output_tokens (largest (λ r. r.output_tokens) us)
  cached : v.cached_tokens ≡ max u.cached_tokens (largest (λ r. r.cached_tokens) us)
  reasoning : v.reasoning_tokens ≡ max u.reasoning_tokens (largest (λ r. r.reasoning_tokens) us)
  tally : unpriced v ≡ max (unpriced u) (largest unpriced us)
  clean : u.unpriced_tokens ≡ positive (unpriced u) → v.unpriced_tokens ≡ positive (unpriced v)
  upstream : v.from_upstream ≡ (u.from_upstream || any (λ r. r.from_upstream) us)

Collects-refl : (u : NormalizedUsage) → Collects u [] u
unfolding largest
Collects-refl u = record {
  input = ground arith;
  output = ground arith;
  cached = ground arith;
  reasoning = ground arith;
  tally = ground arith;
  clean = λ e. e;
  upstream = ground arith;
}

merge_unpriced-positive :
    (a b : Option ℕ)
    → (or_else (merge_unpriced a b) 0 ≡ max (or_else b 0) (or_else a 0))
      × (merge_unpriced a b ≡ positive (or_else (merge_unpriced a b) 0))
unfolding merge_unpriced
merge_unpriced-positive none none = (refl, refl)
merge_unpriced-positive none (some n) = (ground arith, ground arith)
merge_unpriced-positive (some m) none = (ground arith, ground arith)
merge_unpriced-positive (some m) (some n) = (ground arith, ground arith)

or_regroup : (a b c : Bool) → ((a || b) || c) ≡ (b || (a || c))
or_regroup a b c = ground arith

Collects-merge :
    (u r v : NormalizedUsage) (us : List NormalizedUsage)
    → Collects (merge_usage u r) us v
    → Collects u (r ∷ us) v
unfolding merge_usage largest
Collects-merge u r v us k =
    let both = merge_unpriced-positive r.unpriced_tokens u.unpriced_tokens in
    record {
      input = omega (arith, k.input);
      output = omega (arith, k.output);
      cached = omega (arith, k.cached);
      reasoning = omega (arith, k.reasoning);
      tally = omega (arith, k.tally, both.0);
      clean = λ e. k.clean both.1;
      upstream =
          k.upstream ∙ or_regroup r.from_upstream u.from_upstream (any (λ x. x.from_upstream) us);
    }

-- The events `es`, and then whatever makes `v` of what they leave by the reports of `rest`.
take_events-Collects :
    (c : Collector) (es rest : List Event) (v : NormalizedUsage)
    → Collects (take_events c es).collected (reports rest) v
    → Collects c.collected (reports (es ++ rest)) v
unfolding take_events take_event reports
take_events-Collects c [] rest v k = k
take_events-Collects c (done ∷ es) rest v k = take_events-Collects (take_event c done) es rest v k
take_events-Collects c (skipped ∷ es) rest v k = take_events-Collects c es rest v k
take_events-Collects c (payload b none ∷ es) rest v k =
    take_events-Collects (take_event c (payload b none)) es rest v k
take_events-Collects c (payload b (some u) ∷ es) rest v k =
    Collects-merge c.collected (normalize_usage (some u)) v (reports (es ++ rest))
      (take_events-Collects (take_event c (payload b (some u))) es rest v k)

-- Events leave the text and the bytes alone.
take_events-rest :
    (c : Collector) (es : List Event)
    → ((take_events c es).buffer ≡ c.buffer)
      × ((take_events c es).received_bytes ≡ c.received_bytes)
unfolding take_events take_event
take_events-rest c [] = (refl, refl)
take_events-rest c (done ∷ es) = take_events-rest (take_event c done) es
take_events-rest c (skipped ∷ es) = take_events-rest c es
take_events-rest c (payload b none ∷ es) = take_events-rest (take_event c (payload b none)) es
take_events-rest c (payload b (some u) ∷ es) =
    take_events-rest (take_event c (payload b (some u))) es

push_all-Collects :
    (framing : Framing) (c : Collector) (xs : List (String × ℕ))
    → Collects c.collected
        (reports (events_of framing c.buffer xs))
        (push_all framing c xs).collected
      × ((push_all framing c xs).received_bytes ≡ c.received_bytes + total (λ x. x.1) xs)
unfolding push_all push events_of reports
push_all-Collects framing c [] = (Collects-refl c.collected, ground arith)
push_all-Collects framing c (x ∷ xs) =
    let framed = framing c.buffer x.0 in
    let start : Collector = record c {
      received_bytes = c.received_bytes + x.1;
      buffer = framed.1;
    } in
    let kept = take_events-rest start framed.0 in
    let rest = push_all-Collects framing (take_events start framed.0) xs in
    let later = push_all framing (take_events start framed.0) xs in
    let collected =
      subst
        (λ b.
          Collects (take_events start framed.0).collected (reports (events_of framing b xs))
            later.collected)
        kept.0 rest.0 in
    (
      take_events-Collects start framed.0 (events_of framing framed.1 xs) later.collected collected,
      omega (arith, kept.1, rest.1),
    )

-- The counts of a new collector start at 0.
the_largest :
    (v : NormalizedUsage) (us : List NormalizedUsage)
    → Collects no_usage us v
    → unpriced v ≡ largest unpriced us
unfolding no_usage
the_largest v us k = omega (arith, k.tally)

-- The usage of a new collector, however the text of a stream is cut into chunks and framed. Where some
-- event reports a usage from upstream, it is from upstream too, and each of its counts is the largest
-- one that an event reports. Where none does, it is an estimate: the input that was estimated, and the
-- least number of tokens that holds the bytes received by four bytes each, both at least one.
pub push_all-usage :
    (framing : Framing) (xs : List (String × ℕ)) (estimated : ℕ)
    → ((any (λ r. r.from_upstream) (reports (events_of framing "" xs)) ≡ true)
        × IsReported
            (reports (events_of framing "" xs))
            (usage (push_all framing new_collector xs) estimated))
      ⊎ ((any (λ r. r.from_upstream) (reports (events_of framing "" xs)) ≡ false)
          × IsEstimated
              (total (λ x. x.1) xs)
              estimated
              (usage (push_all framing new_collector xs) estimated))
unfolding usage new_collector no_usage
push_all-usage framing xs estimated =
    let all = push_all-Collects framing new_collector xs in
    let c = push_all framing new_collector xs in
    let us = reports (events_of framing "" xs) in
    let k = all.0 in
    elim (Bool-cases (any (λ r. r.from_upstream) us)) [
      | inl e ↦ inl (
        e,
        rw (k.upstream, e)
            (record {
              input = omega (arith, k.input);
              output = omega (arith, k.output);
              cached = omega (arith, k.cached);
              reasoning = omega (arith, k.reasoning);
              without_price = k.clean refl ∙ ap positive (the_largest c.collected us k);
              upstream = k.upstream ∙ e;
            }),
      )
      | inr e ↦ inr (
        e,
        rw (k.upstream, e)
            (record {
              input = refl;
              output_positive = omega arith;
              output_enough = omega (arith, all.1);
              output_least = λ n p q. omega (arith, all.1, p, q);
              cached = refl;
              reasoning = refl;
              without_price = refl;
              upstream = refl;
            }),
      )
    ]
