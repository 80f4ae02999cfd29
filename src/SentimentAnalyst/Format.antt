-- ===== src/SentimentAnalyst/Format.antt =====
-- format_score of app/agent/sentiment_analyst.py, read back.
use paper_trading_agent.Base.{
  ℕ, zero, suc, ◌+◌, ◌-◌, ◌*◌, ◌/◌, ◌%◌, ◌≤◌, ◌<◌, ◌≡◌, refl, ap, true, Option, none, some, [], ◌∷◌,
  if◌then◌else◌, ◌==◌, ℤ, pos, negsuc, pos_part, neg_part, sub_ℕ, Text, arith,
}
use paper_trading_agent.Numbers.Ratio.{Ratio, den}
use paper_trading_agent.Numbers.Rounding.{round_half_even_near}
use paper_trading_agent.Trace.Json.{digits}
use paper_trading_agent.SentimentAnalyst.{
  one_R, minus_one_R, in_range, hundredths, sign_of, format_score,
}

-- The signed hundredths that a text like +0.30 stands for.
abbrev pub read_score : Text → Option ℤ
read_score (s ∷ a ∷ p ∷ b ∷ c ∷ []) =
    let h = 100 * (a - 48) + 10 * (b - 48) + (c - 48) in
    if s == b'-' then some (sub_ℕ 0 h) else if s == b'+' then some (pos h) else none
read_score _ = none

-- A whole number with the sign of another.
abbrev pub signed : ℤ → ℕ → ℤ
signed (pos n) h = pos h
signed (negsuc n) h = sub_ℕ 0 h

abbrev magnitude : Ratio → ℕ
magnitude r = pos_part r.num + neg_part r.num

small : (r : Ratio) → in_range minus_one_R one_R r ≡ true → magnitude r ≤ den r
small r h = ground arith

lt_of_mul : (d x n : ℕ) → 2 * (d * x) < 2 * (d * suc n) → x ≤ n
lt_of_mul d x n h = grind arith

hundredths-le : (r : Ratio) → in_range minus_one_R one_R r ≡ true → hundredths r ≤ 100
hundredths-le r h =
    let x = hundredths r in
    let near = round_half_even_near (100 * magnitude r) (den r) (omega arith) in
    let less : 2 * (den r * x) < 2 * (den r * 101) = omega (arith, small r h) in
    lt_of_mul (den r) x 100 less

digits_of_one : (q : ℕ) → q ≤ 1 → digits q ≡ (48 + q) ∷ []
digits_of_one zero h = refl
digits_of_one (suc zero) h = refl
digits_of_one (suc (suc q)) h = absurd (omega arith)

read_digits :
    (h : ℕ)
    → h ≤ 100
    → 100 * (48 + h / 100 - 48) + 10 * (48 + h % 100 / 10 - 48) + (48 + h % 10 - 48) ≡ h
read_digits h k = omega arith

read_signed :
    (z : ℤ) (h : ℕ)
    → h ≤ 100
    → read_score (sign_of z ∷ (48 + h / 100) ∷ b'.' ∷ (48 + h % 100 / 10) ∷ (48 + h % 10) ∷ [])
      ≡ some (signed z h)
read_signed (pos n) h k = ap (λ x. some (pos x)) (read_digits h k)
read_signed (negsuc n) h k = ap (λ x. some (sub_ℕ 0 x)) (read_digits h k)

-- For a score within -1 and 1, the text reads as the score's sign and its hundredths, of which there are at
-- most 100, rounded to a nearest whole number.
pub format_score_lem :
    (r : Ratio)
    → in_range minus_one_R one_R r ≡ true
    → let h = hundredths r in
      let exact = 200 * (pos_part r.num + neg_part r.num) in
      (read_score (format_score r) ≡ some (signed r.num h))
      × (h ≤ 100)
      × (2 * (den r * h) ≤ exact + den r)
      × (exact ≤ 2 * (den r * h) + den r)
unfolding format_score
format_score_lem r h =
    let k = hundredths-le r h in
    let near = round_half_even_near (100 * magnitude r) (den r) (omega arith) in
    (
      rw (digits_of_one (hundredths r / 100) (omega (arith, k)))
          (read_signed r.num (hundredths r) k),
      k,
      omega arith,
      omega arith,
    )
