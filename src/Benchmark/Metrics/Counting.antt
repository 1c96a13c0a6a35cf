-- ===== src/Benchmark/Metrics/Counting.antt =====
-- What the results of operations leave in the metrics of benchmark/main.go.
use mathlib.Core.Path.{subst}
use mathlib.Core.List.{append-nil, append_assoc}
use scalability_engineering.Prelude.{
  ℕ, suc, ◌+◌, ◌≡◌, refl, sym, ap, ◌∙◌, Bool, true, false, not, List, [], ◌∷◌, ◌++◌, Run, ok, ◌>>=◌,
  if◌then◌else◌, ℤ, Returns, returns, Returns-bind, Returns-map, Returns-if, arith, Bool-cases, inl,
  inr,
}
use scalability_engineering.Benchmark.Ring.Reading.{Recalls, add-Recalls}
use scalability_engineering.Benchmark.Metrics.{
  DataPoint, Metrics, OperationResult, process_operation_result,
}

-- The results that count: of how many a test holds, and their durations.
abbrev pub tally : (OperationResult → Bool) → List OperationResult → ℕ
tally test [] = 0
tally test (r ∷ rs) =
    if r.ignored then tally test rs else if test r then suc (tally test rs) else tally test rs

abbrev pub durations : List OperationResult → List ℤ
durations [] = []
durations (r ∷ rs) = if r.ignored then durations rs else r.duration ∷ durations rs

durations_ignored : (r : OperationResult) → r.ignored ≡ true → durations (r ∷ []) ≡ []
durations_ignored r e = rw (e) refl

durations_counted : (r : OperationResult) → r.ignored ≡ false → durations (r ∷ []) ≡ r.duration ∷ []
durations_counted r e = rw (e) refl

durations_cons :
    (r : OperationResult) (rs : List OperationResult)
    → durations (r ∷ rs) ≡ durations (r ∷ []) ++ durations rs
durations_cons r rs = elim (Bool-cases r.ignored) [ inl e ↦ rw (e) refl | inr e ↦ rw (e) refl ]

tally_cons :
    (test : OperationResult → Bool) (r : OperationResult) (rs : List OperationResult)
    → tally test (r ∷ rs) ≡ tally test (r ∷ []) + tally test rs
tally_cons test r rs = ground arith

pub split :
    (rs : List OperationResult)
    → tally (λ r. true) rs ≡ tally (λ r. r.success) rs + tally (λ r. not r.success) rs
split [] = omega arith
split (r ∷ rs) = ground (arith, split rs)

module _ {F : Type 0} where
  unfoldable pub process_all : Metrics F → List OperationResult → Run (Metrics F)
  process_all m [] = ok m
  process_all m (r ∷ rs) = do n ← process_operation_result m r; process_all n rs

  -- What no operation changes.
  abbrev pub others_of :
      Metrics F → List (DataPoint F) × List (DataPoint F) × List (DataPoint F) × ℤ × F × F × F
  others_of m = (
    m.throughput_history, m.latency_history, m.error_history, m.latency_p99, m.error_rate,
    m.current_ops, m.expected_ops,
  )

  pub record Tallied (capacity : ℕ) (seen : List ℤ) (rs : List OperationResult) (m n : Metrics F)
      : Type 0 where
    pub total : n.total_ops ≡ m.total_ops + tally (λ r. true) rs
    pub this_second : n.ops_this_second ≡ m.ops_this_second + tally (λ r. true) rs
    pub successes : n.successful_ops ≡ m.successful_ops + tally (λ r. r.success) rs
    pub errors : n.error_ops ≡ m.error_ops + tally (λ r. not r.success) rs
    pub latencies : Recalls capacity (seen ++ durations rs) n.latency_buffer
    pub others : others_of n ≡ others_of m

  -- One result.
  pub process_one :
      (capacity : ℕ) (seen : List ℤ) (m : Metrics F) (r : OperationResult)
      → Recalls capacity seen m.latency_buffer
      → Returns (Tallied capacity seen (r ∷ []) m) (process_operation_result m r)
  unfolding process_operation_result
  process_one capacity seen m r h =
      Returns-if r.ignored
        (λ e. returns (record {
          total = ground arith;
          this_second = ground arith;
          successes = ground arith;
          errors = ground arith;
          latencies =
              subst (λ l. Recalls capacity l m.latency_buffer)
                (sym (append-nil seen) ∙ ap (λ l. seen ++ l) (sym (durations_ignored r e))) h;
          others = refl;
        }))
        (λ e. Returns-bind (add-Recalls m.latency_buffer capacity seen r.duration h) λ buffer kept.
          returns (record {
            total = ground arith;
            this_second = ground arith;
            successes = ground arith;
            errors = ground arith;
            latencies =
                subst (λ l. Recalls capacity (seen ++ l) buffer) (sym (durations_counted r e)) kept;
            others = refl;
          }))

  -- Processing a sequence of results does not panic. The total, the operations of this second, the
  -- successes and the errors grow by the numbers of results that are not ignored and that are, in
  -- addition, a success or not; the latency buffer recalls their durations after those that it has
  -- seen; histories, rates and the 99th percentile stay.
  pub process_all-Tallied :
      (capacity : ℕ) (seen : List ℤ) (m : Metrics F) (rs : List OperationResult)
      → Recalls capacity seen m.latency_buffer
      → Returns (Tallied capacity seen rs m) (process_all m rs)
  unfolding process_all
  process_all-Tallied capacity seen m [] h = returns (record {
    total = omega arith;
    this_second = omega arith;
    successes = omega arith;
    errors = omega arith;
    latencies = subst (λ l. Recalls capacity l m.latency_buffer) (sym (append-nil seen)) h;
    others = refl;
  })
  process_all-Tallied capacity seen m (r ∷ rs) h =
      Returns-bind (process_one capacity seen m r h) λ n one.
        Returns-map (process_all-Tallied capacity (seen ++ durations (r ∷ [])) n rs one.latencies)
          λ o rest. record {
            total = omega (arith, one.total, rest.total, tally_cons (λ r. true) r rs);
            this_second =
                omega (arith, one.this_second, rest.this_second, tally_cons (λ r. true) r rs);
            successes =
                omega (arith, one.successes, rest.successes, tally_cons (λ r. r.success) r rs);
            errors = omega (arith, one.errors, rest.errors, tally_cons (λ r. not r.success) r rs);
            latencies =
                subst (λ l. Recalls capacity l o.latency_buffer)
                  (append_assoc seen (durations (r ∷ [])) (durations rs)
                    ∙ ap (λ l. seen ++ l) (sym (durations_cons r rs)))
                  rest.latencies;
            others = rest.others ∙ one.others;
          }
