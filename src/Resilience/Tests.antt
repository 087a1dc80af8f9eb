-- ===== src/Resilience/Tests.antt =====
-- Retries at a concrete input.
use homeplate.Base.{
  refl, ◌≤◌, ◌+◌, ◌*◌, ℕ, zero, suc, ◌≡◌, true, false, some, none, Option, arith, Bool,
}
use homeplate.Resilience.{Settled, Run, Options, Report, with_resilience}
use homeplate.Resilience.Bounds.{IsReport, Ends, with_resilience_returns}

-- Every error but 0 is retried, and a late answer is the error 9.
abbrev is_transient : ℕ → Bool
is_transient zero = false
is_transient (suc n) = true

abbrev twice : Options ℕ
twice = record {
  timeout_ms = 3000;
  retries = 2;
  base_ms = 200;
  factor = 2;
  max_ms = 30000;
  is_retryable = is_transient;
  timeout_error = 9;
}

-- The first attempt hangs, the second is rejected for good.
abbrev flaky : ℕ → Run ℕ ℕ
flaky (suc zero) = none
flaky _ = some (Settled.rejected 0, 40)

-- A value from a cache, after 15 ms.
abbrev cached : Option (ℕ → Run ℕ ℕ)
cached = some (λ e. some (Settled.resolved 5, 15))

with_resilience_returns_example :
    (r final : Report ℕ ℕ) × IsReport twice flaky 1 2 r
    × (with_resilience twice flaky cached ≡ some final)
    × Ends twice flaky cached r.outcome r final
    × (final.elapsed ≤ 3000 + 2 * (3000 + 30000) + 20)
with_resilience_returns_example =
    with_resilience_returns twice flaky 20 cached (omega arith)
      (λ e. (Settled.resolved 5, 15, refl, omega arith))
