-- ===== src/HttpAdmission/Tokens.antt =====
-- hub/internal/httpboundary/admission.go: `TokenBudget` and `admissionTokens`. Times are in
-- nanoseconds, and the tokens are a float64 as in the source.
use daxiang_vpn.Prelude.{ℕ, ◌-◌, ◌*◌, ltb, if◌then◌else◌, Bool}
use daxiang_vpn.HttpAdmission.Float.{
  Float, one, of_nat, add, sub, mul, div, float_le, float_min, ceil,
}

pub record TokenBudget : Type 0 where
  pub every : ℕ
  pub burst : ℕ

pub record Tokens : Type 0 where
  pub tokens : Float
  pub last : ℕ

-- The time in which the whole burst refills.
abbrev pub full : TokenBudget → ℕ
full b = b.burst * b.every

unfoldable pub full_tokens : TokenBudget → ℕ → Tokens
unfolding of_nat
full_tokens b now = record { tokens = of_nat b.burst; last = now }

-- `bucket.rate.tokens >= float64(a.config.PerSource.Burst)`
unfoldable pub is_full : TokenBudget → Tokens → Bool
unfolding of_nat
is_full b t = float_le (of_nat b.burst) t.tokens

unfoldable pub refill : ℕ → TokenBudget → Tokens → Tokens
unfolding of_nat add div
refill now b t =
    if ltb t.last now
    then record {
      tokens =
          float_min (of_nat b.burst) (add t.tokens (div (of_nat (now - t.last)) (of_nat b.every)));
      last = now;
    }
    else t

unfoldable pub retry : TokenBudget → Tokens → ℕ
unfolding of_nat sub mul ceil
retry b t = if float_le one t.tokens then 0 else ceil (mul (sub one t.tokens) (of_nat b.every))

-- `tokens--`
unfoldable pub spend : Tokens → Tokens
unfolding sub
spend t = record t { tokens = sub t.tokens one }
