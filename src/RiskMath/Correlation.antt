-- ===== src/RiskMath/Correlation.antt =====
-- app/agent/risk_math.py: aligned_returns, correlation and correlation_matrix. Exact fractions in place of
-- floats; a correlation is kept as the covariance and the two variances (all times n) that it is the
-- quotient cov / sqrt(var_a * var_b) of, so that no root is taken.
pub mod Aligned
pub mod Pairs
use mathlib.Core.List.{zip}
use paper_trading_agent.Base.{
  ℕ, ◌+◌, ◌*◌, Bool, true, false, not, ◌&&◌, ◌||◌, Option, none, some, List, [], ◌∷◌, ◌++◌, map,
  ltb, leb, ◌==◌, if◌then◌else◌, ℤ, pos, pos_part, neg_part, sub_ℕ, eq_ℤ, length, last_n, select,
  Result, ok, err, or_raise, ◌>>=◌,
}
use paper_trading_agent.Base.Dict.{get_item, holds_key}
use paper_trading_agent.Numbers.Ratio.{Ratio, neg_R, add_R, leb_R}
use paper_trading_agent.Numbers.Sorting.{sorted}
use paper_trading_agent.State.{Symbol}
use paper_trading_agent.RiskMath.{simple_returns, sum_R, mean_R}

abbrev pub correlation_window : ℕ
correlation_window = 60

-- ZeroDivisionError, KeyError and ValueError.
pub data MathError : Type 0 where
  zero_division key_error value_error : MathError

-- {date: close}
abbrev pub Closes : Type 0
Closes = List (ℕ × ℕ)

abbrev pub same_day : ℕ → ℕ → Bool
same_day a b = a == b

abbrev pub close_at : ℕ → Closes → Option ℕ
close_at = get_item same_day

abbrev pub has_day : ℕ → Closes → Bool
has_day = holds_key same_day

abbrev pub dates_in : Closes → List ℕ
dates_in = map (λ (e : ℕ × ℕ). e.0)

unfoldable pub in_all : List (Symbol × Closes) → ℕ → Bool
in_all [] day = true
in_all ((s, closes) ∷ rest) day = has_day day closes && in_all rest day

-- `set.intersection(…)`
unfoldable pub common_days : List (Symbol × Closes) → List ℕ
unfolding in_all
common_days [] = []
common_days ((s, closes) ∷ rest) = select (in_all rest) (dates_in closes)

-- `[closes[d] for d in dates]`
unfoldable pub closes_on : List ℕ → Closes → Result MathError (List ℕ)
closes_on [] closes = ok []
closes_on (d ∷ ds) closes = do
  c ← or_raise (close_at d closes) key_error
  cs ← closes_on ds closes
  ok (c ∷ cs)

unfoldable pub align :
    List ℕ → List (Symbol × Closes) → Result MathError (List (Symbol × List Ratio))
unfolding closes_on
align days [] = ok []
align days ((s, closes) ∷ rest) = do
  cs ← closes_on days closes
  rs ← or_raise (simple_returns cs) zero_division
  others ← align days rest
  ok ((s, rs) ∷ others)

unfoldable pub aligned_returns :
    List (Symbol × Closes) → Result MathError (List (Symbol × List Ratio))
unfolding align common_days sorted
aligned_returns closes_by_symbol =
    align (sorted leb (common_days closes_by_symbol)) closes_by_symbol

abbrev pub mul_R : Ratio → Ratio → Ratio
mul_R a b = record {
  num =
      sub_ℕ (pos_part a.num * pos_part b.num + neg_part a.num * neg_part b.num)
        (pos_part a.num * neg_part b.num + neg_part a.num * pos_part b.num);
  den_pred = a.den_pred * (b.den_pred + 1) + b.den_pred;
}

-- `sum((x - mean_a) * (y - mean_b) for x, y in zip(a, b))`
unfoldable pub co_sum : Ratio → Ratio → List Ratio → List Ratio → Ratio
unfolding sum_R add_R
co_sum mean_a mean_b a b = sum_R (
    map (λ (p : Ratio × Ratio). mul_R (add_R p.0 (neg_R mean_a)) (add_R p.1 (neg_R mean_b)))
      (zip a b))

pub record Correlation : Type 0 where
  pub cov : Ratio
  pub var_a : Ratio
  pub var_b : Ratio

abbrev pub is_zero : Ratio → Bool
is_zero r = eq_ℤ r.num (pos 0)

abbrev pub correlation_of : Ratio → Ratio → Ratio → Option Correlation
correlation_of cov var_a var_b =
    if is_zero var_a || is_zero var_b
    then none
    else some (record { cov = cov; var_a = var_a; var_b = var_b })

-- For series of one length.
unfoldable pub pearson : List Ratio → List Ratio → Result MathError (Option Correlation)
unfolding mean_R co_sum
pearson a b = do
  mean_a ← or_raise (mean_R a) zero_division
  mean_b ← or_raise (mean_R b) zero_division
  ok (
      correlation_of (co_sum mean_a mean_b a b) (co_sum mean_a mean_a a a)
        (co_sum mean_b mean_b b b))

unfoldable pub correlation : List Ratio → List Ratio → Result MathError (Option Correlation)
unfolding pearson
correlation a b =
    if not (length a == length b) || ltb (length a) 2 then err value_error else pearson a b

-- `rho > limit / 100`, for a limit that is not negative.
unfoldable pub exceeds : ℕ → Correlation → Bool
exceeds limit c =
    ltb 0 (pos_part c.cov.num)
    && not (
        leb_R (mul_R (record { num = pos (10_000); den_pred = 0 }) (mul_R c.cov c.cov))
          (mul_R (record { num = pos (limit * limit); den_pred = 0 }) (mul_R c.var_a c.var_b)))

-- The order of Python's strings.
unfoldable pub leb_text : Symbol → Symbol → Bool
leb_text [] t = true
leb_text (c ∷ s) [] = false
leb_text (c ∷ s) (d ∷ t) = ltb c d || ((c == d) && leb_text s t)

abbrev pub Matrix : Type 0
Matrix = List ((Symbol × Symbol) × Option Correlation)

module _ (window : ℕ) where
  -- The pairs of one symbol with those after it.
  unfoldable pub pairs_with :
      Symbol × List Ratio → List (Symbol × List Ratio) → Result MathError Matrix
  unfolding correlation
  pairs_with first [] = ok []
  pairs_with first (second ∷ rest) =
      correlation (last_n window first.1) (last_n window second.1) >>= λ rho.
      pairs_with first rest >>= λ others. ok (((first.0, second.0), rho) ∷ others)

  unfoldable pub all_pairs : List (Symbol × List Ratio) → Result MathError Matrix
  unfolding pairs_with
  all_pairs [] = ok []
  all_pairs (first ∷ rest) =
      pairs_with first rest >>= λ row. all_pairs rest >>= λ others. ok (row ++ others)

  unfoldable pub any_short : List (Symbol × List Ratio) → Bool
  any_short [] = false
  any_short ((s, rs) ∷ rest) = ltb (length rs) window || any_short rest

  abbrev pub by_symbol : Symbol × List Ratio → Symbol × List Ratio → Bool
  by_symbol a b = leb_text a.0 b.0

  unfoldable pub correlation_matrix : List (Symbol × List Ratio) → Result MathError (Option Matrix)
  unfolding any_short all_pairs leb_text sorted
  correlation_matrix returns_by_symbol =
      if any_short returns_by_symbol
      then ok none
      else all_pairs (sorted by_symbol returns_by_symbol) >>= λ matrix. ok (some matrix)
