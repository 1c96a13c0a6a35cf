-- ===== src/Benchmark/Metrics/Refreshed.antt =====
-- What updateMetrics of benchmark/main.go computes.
use mathlib.Core.Path.{subst}
use scalability_engineering.Prelude.{
  ℕ, ◌-◌, ◌*◌, ◌/◌, ◌^◌, ◌≡◌, ◌≢◌, refl, ap, ◌∙◌, ◌<◌, ◌≤◌, false, some, List, [], ◌∷◌, ◌++◌, ok,
  ◌==◌, ℤ, pos, ◌≤ℤ◌, leb_ℤ, ◌-ℤ◌, length, get_elem?, get_elem?-some, length-concat, Returns,
  returns, Returns-bind, Returns-map, arith, Bool-cases, inl, inr,
}
use scalability_engineering.Prelude.Sorting.{SortsBy}
use scalability_engineering.Benchmark.Ring.{RingBuffer, get_all}
use scalability_engineering.Benchmark.Ring.Reading.{Recalls, recent, get_all-Recalls}
use scalability_engineering.Benchmark.Metrics.{
  Floats, Metrics, DataPoint, append_point, update_ops, p99_index, at, latency_p99, update_metrics,
}

-- `int(float64(n) * 0.99)` is exact: for a length below 2 ^ 32, rounding in IEEE 754 leaves the product
-- on the side of the next integer where it is, and an integer one as it is.
abbrev pub IsPrecise : {F : Type 0} → Floats F → Type 0
IsPrecise N =
    (n : ℕ) → n < 2 ^ 32 → N.truncate (N.multiply (N.of_int (pos n)) N.rank_99) ≡ pos (n * 99 / 100)

later_lem :
    {A : Type 0} (xs : List A)
    → length (elim xs as (λ _. List A) [ [] ↦ [] | _ ∷ later ↦ later ]) ≡ length xs - 1
later_lem [] = refl
later_lem (x ∷ xs) = omega arith

length-append_point :
    {F : Type 0} (history : List (DataPoint F)) (point : DataPoint F)
    → length history ≤ 60
    → length (append_point history point) ≤ 60
unfolding append_point
length-append_point history point h =
    ground (arith, later_lem (history ++ point ∷ []), length-concat history point)

nonempty : {A : Type 0} (xs : List A) → xs ≢ [] → 0 < length xs
nonempty [] h = absurd (h refl)
nonempty (x ∷ xs) h = omega arith

module _ {F : Type 0} (N : Floats F) (sort : List ℤ → List ℤ) (sorts : SortsBy (λ x. x) sort)
    (precise : IsPrecise N) where
  p99_place :
      (n : ℕ) → 0 < n → n < 2 ^ 32 → (p99_index N n ≡ pos (n * 99 / 100)) × (n * 99 / 100 < n)
  unfolding p99_index
  p99_place n p q =
      let below : n * 99 / 100 < n = omega arith in
      let e : leb_ℤ (pos n) (N.truncate (N.multiply (N.of_int (pos n)) N.rank_99)) ≡ false =
        ground (arith, precise n q) in
      (rw (e) (precise n q), below)

  -- The value stands in the sorted list after 99 of 100 parts of it: it is one of the latencies, none
  -- of lower rank is larger, and none of higher rank is smaller.
  pub data IsPercentile (xs : List ℤ) (p99 : ℤ) : Type 0 where
    percentile :
        (from : ℕ)
        → get_elem? (sort xs) (length xs * 99 / 100) ≡ some p99
        → get_elem? xs from ≡ some p99
        → ((i : ℕ) (x : ℤ) → i ≤ length xs * 99 / 100 → get_elem? (sort xs) i ≡ some x → x ≤ℤ p99)
        → ((i : ℕ) (x : ℤ) → length xs * 99 / 100 ≤ i → get_elem? (sort xs) i ≡ some x → p99 ≤ℤ x)
        → IsPercentile xs p99

  -- What updateMetrics leaves of what it starts from.
  abbrev counters_of :
      Metrics F
      → ℕ × ℕ × ℕ × RingBuffer × ℤ × List (DataPoint F) × List (DataPoint F) × List (DataPoint F)
  counters_of m = (
    m.total_ops, m.successful_ops, m.error_ops, m.latency_buffer, m.latency_p99,
    m.throughput_history, m.latency_history, m.error_history,
  )

  -- The 99th percentile of the recorded latencies, or what it was if there are none.
  pub data Measured (old : ℤ) : List ℤ → ℤ → Type 0 where
    unmeasured : Measured old [] old
    measured : {xs : List ℤ} {p99 : ℤ} → IsPercentile xs p99 → Measured old xs p99

  pub record Refreshed (capacity : ℕ) (seen : List ℤ) (throttle_ops now : ℤ) (m n : Metrics F)
      : Type 0 where
    pub p99 : Measured m.latency_p99 (recent capacity seen) n.latency_p99
    pub total : n.total_ops ≡ m.total_ops
    pub successes : n.successful_ops ≡ m.successful_ops
    pub errors : n.error_ops ≡ m.error_ops
    pub buffer : n.latency_buffer ≡ m.latency_buffer
    pub expected : n.expected_ops ≡ N.of_int throttle_ops
    pub throughput_bound : length n.throughput_history ≤ 60
    pub latency_bound : length n.latency_history ≤ 60
    pub error_bound : length n.error_history ≤ 60

  p99-IsPercentile :
      (m : Metrics F) (xs : List ℤ)
      → get_all m.latency_buffer ≡ ok xs
      → length xs < 2 ^ 32
      → xs ≢ []
      → Returns (IsPercentile xs) (latency_p99 N sort m)
  unfolding latency_p99 at
  p99-IsPercentile m xs e short filled =
      let some_length : 0 < length xs = nonempty xs filled in
      let t : (length xs == 0) ≡ false = ground arith in
      let (place, inside) = p99_place (length xs) some_length short in
      let rank = length xs * 99 / 100 in
      let (x, there) = get_elem?-some (sort xs) rank (omega (arith, sorts.kept_length xs)) in
      let (from, origin) = sorts.kept xs rank x there in
      rw (e, t, sorts.kept_length xs, place, there)
        (returns (
          percentile from there origin (λ i y p f. sorts.ascending xs i rank y x p f there)
            (λ i y p f. sorts.ascending xs rank i x y p there f)))

  p99_none :
      (m : Metrics F) → get_all m.latency_buffer ≡ ok [] → latency_p99 N sort m ≡ ok m.latency_p99
  unfolding latency_p99
  p99_none m e = rw (e) refl

  latency_p99-Measured :
      (m : Metrics F) (xs : List ℤ)
      → get_all m.latency_buffer ≡ ok xs
      → length xs < 2 ^ 32
      → Returns (Measured m.latency_p99 xs) (latency_p99 N sort m)
  latency_p99-Measured m [] e short = rw (p99_none m e) (returns unmeasured)
  latency_p99-Measured m (x ∷ xs) e short =
      Returns-map (p99-IsPercentile m (x ∷ xs) e short cons_ne) (λ p99 is. measured is)
    where
      cons_ne : x ∷ xs ≢ []
      cons_ne h = cc

  update_ops-counters : (m : Metrics F) (now : ℤ) → counters_of (update_ops N m now) ≡ counters_of m
  unfolding update_ops
  update_ops-counters m now =
      elim (Bool-cases (leb_ℤ (pos 1000000000) (now -ℤ m.last_second_start))) [
        | inl e ↦ rw (e) refl
        | inr e ↦ rw (e) refl
      ]

  -- A turn of the metrics updater does not panic, if the float64 product of 0.99 and a length truncates
  -- to 99 of 100 parts of it, sort.Slice sorts, and fewer than 2 ^ 32 latencies are recent. The 99th
  -- percentile is the one of rank n * 99 / 100, from 0, among the n recent latencies in ascending
  -- order, or is left if there are none; the counters and the buffer stay, the expected rate is the
  -- configured one, and no history grows beyond 60 points.
  pub update_metrics-Refreshed :
      (capacity : ℕ) (seen : List ℤ) (throttle_ops now : ℤ) (m : Metrics F)
      → Recalls capacity seen m.latency_buffer
      → length (recent capacity seen) < 2 ^ 32
      → length m.throughput_history ≤ 60
      → length m.latency_history ≤ 60
      → length m.error_history ≤ 60
      → Returns
          (Refreshed capacity seen throttle_ops now m)
          (update_metrics N sort throttle_ops m now)
  unfolding update_metrics
  update_metrics-Refreshed capacity seen throttle_ops now m h short t l e =
      let n : Metrics F = update_ops N m now in
      let same : counters_of n ≡ counters_of m = update_ops-counters m now in
      let read : get_all n.latency_buffer ≡ ok (recent capacity seen) =
        ap (λ c. get_all c.3) same ∙ get_all-Recalls m.latency_buffer capacity seen h in
      Returns-bind (latency_p99-Measured n (recent capacity seen) read short) λ p99 is.
        returns (record {
          p99 = subst (λ o. Measured o (recent capacity seen) p99) (ap (λ c. c.4) same) is;
          total = ap (λ c. c.0) same;
          successes = ap (λ c. c.1) same;
          errors = ap (λ c. c.2) same;
          buffer = ap (λ c. c.3) same;
          expected = refl;
          throughput_bound =
              length-append_point n.throughput_history _
                (omega (arith, t, ap (λ c. length c.5) same));
          latency_bound =
              length-append_point n.latency_history _ (omega (arith, l, ap (λ c. length c.6) same));
          error_bound =
              length-append_point n.error_history _ (omega (arith, e, ap (λ c. length c.7) same));
        })
