-- ===== src/Resilience/Bounds.antt =====
-- withResilience returns, in bounded time and attempts, with the first attempt that settles it.
use homeplate.Base.{
  ℕ, zero, suc, ◌+◌, ◌*◌, ◌≤◌, ◌<◌, ◌≡◌, refl, sym, ap, ◌∙◌, Bool, true, false, Option, none, some,
  arith, inl, inr, Bool-cases, ltb, ◌==◌,
}
use homeplate.Resilience.{
  Settled, Run, Options, Report, with_timer, delay_after, attempts_from, fall_back, on_end,
  with_resilience,
}

delay_after-le : {E : Type 0} (o : Options E) (attempt : ℕ) → delay_after o attempt ≤ o.max_ms
delay_after-le o attempt = omega arith

module _ {A E : Type 0} (o : Options E) (f : ℕ → Run A E) where
  -- With a timer, every attempt settles by then.
  with_timer_settles :
      (r : Run A E)
      → 0 < o.timeout_ms
      → (s : Settled A E) × (t : ℕ) × (with_timer o r ≡ some (s, t)) × (t ≤ o.timeout_ms)
  with_timer_settles none h =
      (Settled.rejected o.timeout_error, o.timeout_ms, ground arith, omega arith)
  with_timer_settles (some (s, t)) h = elim (Bool-cases (ltb t o.timeout_ms)) [
    | inl early ↦ (s, t, ground (arith, early), ground arith)
    | inr late ↦
        (Settled.rejected o.timeout_error, o.timeout_ms, ground (arith, late, h), omega arith)
  ]

  -- An attempt that is followed by another: it was rejected, with an error to retry.
  abbrev pub is_retried : Run A E → Bool
  is_retried none = false
  is_retried (some (Settled.resolved a, t)) = false
  is_retried (some (Settled.rejected e, t)) = o.is_retryable e

  -- The report of the attempts from `first` on, with `left` retries after it.
  pub record IsReport (first left : ℕ) (r : Report A E) : Type 0 where
    -- it tells how its attempt settled
    pub settled : (t : ℕ) × (with_timer o (f r.attempts) ≡ some (r.outcome, t))
    -- those before it were all to be retried
    pub before : (k : ℕ) → first ≤ k → k < r.attempts → is_retried (with_timer o (f k)) ≡ true
    -- and it is the last one or not to be retried
    pub stops : (is_retried (with_timer o (f r.attempts)) ≡ true) → r.attempts ≡ first + left
    pub from : first ≤ r.attempts
    pub to : r.attempts ≤ first + left
    pub in_time : r.elapsed ≤ o.timeout_ms + left * (o.timeout_ms + o.max_ms)

  attempts_report :
      (left attempt : ℕ)
      → 0 < o.timeout_ms
      → (r : Report A E) × (attempts_from o f left attempt ≡ some r) × IsReport attempt left r
  attempts_report zero attempt h =
      let (s, t, settles, le) = with_timer_settles (f attempt) h in
      (
        record { outcome = s; attempts = attempt; elapsed = t },
        ground (arith, settles),
        record {
          settled = (t, settles);
          before = λ k g l. absurd (omega (arith, g, l));
          stops = λ again. omega arith;
          from = omega arith;
          to = omega arith;
          in_time = omega (arith, le);
        },
      )
  attempts_report (suc left) attempt h =
      let (s, t, settles, le) = with_timer_settles (f attempt) h in
      let (r, ran, is) = attempts_report left (suc attempt) h in
      elim (Bool-cases (is_retried (with_timer o (f attempt)))) [
        | inr final ↦ (
          record { outcome = s; attempts = attempt; elapsed = t },
          stops_here left attempt s t settles final,
          record {
            settled = (t, settles);
            before = λ k g l. absurd (omega (arith, g, l));
            stops = λ again. ground (arith, again, final);
            from = omega arith;
            to = omega arith;
            in_time = omega (arith, le);
          },
        )
        | inl again ↦ (
          record r { elapsed = t + delay_after o attempt + r.elapsed },
          goes_on left attempt s t r settles again ran,
          record {
            settled = is.settled;
            before = λ k g l. elim (Bool-cases (k == attempt)) [
              | inl here ↦
                  let e : attempt ≡ k = ground arith in
                  ap (λ j. is_retried (with_timer o (f j))) (sym e) ∙ again
              | inr apart ↦ is.before k (ground (arith, g, apart)) l
            ];
            stops = λ last. omega (arith, is.stops last);
            from = omega (arith, is.from);
            to = omega (arith, is.to);
            in_time = omega (arith, is.in_time, le, delay_after-le o attempt);
          },
        )
      ]
    where
      stops_here :
          (n k : ℕ) (s : Settled A E) (t : ℕ)
          → with_timer o (f k) ≡ some (s, t)
          → is_retried (with_timer o (f k)) ≡ false
          → attempts_from o f (suc n) k ≡ some (record { outcome = s; attempts = k; elapsed = t })
      stops_here n k (Settled.resolved a) t e final = ground (arith, e)
      stops_here n k (Settled.rejected x) t e final = ground (arith, e, final)

      goes_on :
          (n k : ℕ) (s : Settled A E) (t : ℕ) (r : Report A E)
          → with_timer o (f k) ≡ some (s, t)
          → is_retried (with_timer o (f k)) ≡ true
          → attempts_from o f n (suc k) ≡ some r
          → attempts_from o f (suc n) k
            ≡ some (record r { elapsed = t + delay_after o k + r.elapsed })
      goes_on n k (Settled.resolved a) t r e again rest = absurd (ground (arith, e, again))
      goes_on n k (Settled.rejected x) t r e again rest = ground (arith, e, again, rest)

  -- A fallback that always settles, and within the limit.
  abbrev pub FallsBackBy : ℕ → Option (E → Run A E) → Type 0
  FallsBackBy limit none = Unit {0}
  FallsBackBy limit (some g) =
      (e : E) → (s : Settled A E) × (t : ℕ) × (g e ≡ some (s, t)) × (t ≤ limit)

  -- What the caller gets for a report: its value, or how the fallback of its error settles.
  abbrev pub Ends : Option (E → Run A E) → Settled A E → Report A E → Report A E → Type 0
  Ends none s r final = final ≡ r
  Ends (some g) (Settled.resolved a) r final = final ≡ r
  Ends (some g) (Settled.rejected e) r final =
      (t : ℕ) × (g e ≡ some (final.outcome, t))
      × (final.attempts ≡ r.attempts)
      × (final.elapsed ≡ r.elapsed + t)

  fall_back-Ends :
      (limit : ℕ) (fallback : Option (E → Run A E)) (s : Settled A E) (n t : ℕ)
      → FallsBackBy limit fallback
      → let r : Report A E = record { outcome = s; attempts = n; elapsed = t } in
        (final : Report A E) × (fall_back fallback r ≡ some final)
        × Ends fallback s r final
        × (final.elapsed ≤ t + limit)
  fall_back-Ends limit none s n t by = (_, refl, refl, omega arith)
  fall_back-Ends limit (some g) (Settled.resolved a) n t by = (_, refl, refl, omega arith)
  fall_back-Ends limit (some g) (Settled.rejected e) n t by =
      let (s, u, settles, le) = by e in
      (
        record { outcome = s; attempts = n; elapsed = t + u },
        ground (arith, settles),
        (u, settles, refl, refl),
        omega (arith, le),
      )

  -- With a timer, and a fallback that settles within a limit where there is one, withResilience
  -- always returns. It made the attempts up to the first that is not rejected with an error to retry,
  -- or to the last one that the retries allow. The answer is that attempt's outcome, or, where it is
  -- rejected and there is a fallback, what the fallback settles with; it comes after no more time
  -- than a timeout for each attempt, the longest delay between two, and the limit.
  pub with_resilience_returns :
      (limit : ℕ) (fallback : Option (E → Run A E))
      → 0 < o.timeout_ms
      → FallsBackBy limit fallback
      → (r final : Report A E) × IsReport 1 o.retries r
        × (with_resilience o f fallback ≡ some final)
        × Ends fallback r.outcome r final
        × (final.elapsed ≤ o.timeout_ms + o.retries * (o.timeout_ms + o.max_ms) + limit)
  unfolding with_resilience
  with_resilience_returns limit fallback h by =
      let (r, ran, is) = attempts_report o.retries 1 h in
      let (final, gave, ends, le) =
        fall_back-Ends limit fallback r.outcome r.attempts r.elapsed by in
      (r, final, is, ap (on_end fallback) ran ∙ gave, ends, omega (arith, le, is.in_time))
