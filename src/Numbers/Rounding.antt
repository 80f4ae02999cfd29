-- ===== src/Numbers/Rounding.antt =====
-- What Python's `round` of a fraction keeps: the whole number is a nearest one, and fractions more than one
-- apart stay apart.
use paper_trading_agent.Base.{ℕ, ◌+◌, ◌*◌, ◌≤◌, ◌<◌, ◌≡◌, arith}
use paper_trading_agent.Numbers.Ratio.{round_half_even}

pub round_half_even_near :
    (a b : ℕ)
    → 0 < b
    → (2 * (b * round_half_even a b) ≤ 2 * a + b) × (2 * a ≤ 2 * (b * round_half_even a b) + b)
unfolding round_half_even
round_half_even_near a b h = grind arith

lt_of_mul_lt : (b x y : ℕ) → b * x < b * y → x < y
lt_of_mul_lt b x y h = grind arith

pub round_half_even-lt : (a b c : ℕ) → 0 < b → a + b < c → round_half_even a b < round_half_even c b
round_half_even-lt a b c h k =
    lt_of_mul_lt b (round_half_even a b) (round_half_even c b)
      (omega (arith, round_half_even_near a b h, round_half_even_near c b h))

pub round_half_even-exact : (n b : ℕ) → 0 < b → round_half_even (n * b) b ≡ n
round_half_even-exact n b h =
    let near = round_half_even_near (n * b) b h in
    let r = round_half_even (n * b) b in
    let below : r < n + 1 = lt_of_mul_lt b r (n + 1) (grind arith) in
    let above : n < r + 1 = lt_of_mul_lt b n (r + 1) (grind arith) in omega arith
