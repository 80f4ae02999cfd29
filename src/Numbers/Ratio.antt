-- ===== src/Numbers/Ratio.antt =====
-- Exact fractions with a positive denominator, `den_pred + 1`.
use paper_trading_agent.Base.{
  ℕ, suc, ◌+◌, ◌*◌, ◌/◌, ◌%◌, ◌≤◌, ◌≡◌, Bool, arith, ltb, leb, ◌==◌, if◌then◌else◌, ℤ, pos,
  pos_part, neg_part, sub_ℕ,
}
use paper_trading_agent.Numbers.Sorting.{IsOrder}

pub record Ratio : Type 0 where
  pub num : ℤ
  pub den_pred : ℕ

abbrev pub den : Ratio → ℕ
den r = suc r.den_pred

-- The cross products that decide an order.
abbrev pub cross : Ratio → Ratio → ℕ
cross a b = pos_part a.num * den b + neg_part b.num * den a

infix 50 ◌≤R◌
abbrev pub ◌≤R◌ : Ratio → Ratio → Type 0
a ≤R b = cross a b ≤ cross b a

abbrev pub leb_R : Ratio → Ratio → Bool
leb_R a b = leb (cross a b) (cross b a)

abbrev pub neg_R : Ratio → Ratio
neg_R a = record { num = sub_ℕ (neg_part a.num) (pos_part a.num); den_pred = a.den_pred }

pos_part-neg : (a : Ratio) → pos_part (neg_R a).num ≡ neg_part a.num
pos_part-neg a = ground arith

neg_part-neg : (a : Ratio) → neg_part (neg_R a).num ≡ pos_part a.num
neg_part-neg a = ground arith

unfoldable pub add_R : Ratio → Ratio → Ratio
add_R a b = record {
  num =
      sub_ℕ (pos_part a.num * den b + pos_part b.num * den a)
        (neg_part a.num * den b + neg_part b.num * den a);
  den_pred = a.den_pred * den b + b.den_pred;
}

-- A fraction divided by a positive count, `suc n`.
unfoldable pub div_R : Ratio → ℕ → Ratio
div_R a n = record { num = a.num; den_pred = a.den_pred * suc n + n }

abbrev pub zero_R : Ratio
zero_R = record { num = pos 0; den_pred = 0 }

-- Rounding to the nearest whole number, ties to even: Python's `round` of a / b, for a positive b.
unfoldable pub round_half_even : ℕ → ℕ → ℕ
round_half_even a b =
    let q = a / b in
    let twice = 2 * (a % b) in
    if ltb twice b then q else if ltb b twice then q + 1 else if (q % 2) == 0 then q else q + 1

pub le_of_mul_le : (x y d : ℕ) → x * suc d ≤ y * suc d → x ≤ y
le_of_mul_le x y d h = grind arith

pub mul_mono : (x y n : ℕ) → x ≤ y → x * n ≤ y * n
mul_mono x y n h = grind arith

pub ≤R_trans : (a b c : Ratio) → a ≤R b → b ≤R c → a ≤R c
≤R_trans a b c h k =
    le_of_mul_le (cross a c) (cross c a) b.den_pred
      (omega (arith, mul_mono _ _ (den c) h, mul_mono _ _ (den a) k))

pub leb_R-neg : (a b : Ratio) → leb_R (neg_R b) (neg_R a) ≡ leb_R a b
leb_R-neg a b = rw (pos_part-neg b, pos_part-neg a, neg_part-neg a, neg_part-neg b) (ground arith)

-- `sorted(losses, reverse=True)`: the larger fraction first.
abbrev pub larger_first : Ratio → Ratio → Bool
larger_first a b = leb_R b a

pub larger_first-IsOrder : IsOrder larger_first
larger_first-IsOrder = record {
  trans = λ a b c h k. ground (arith, ≤R_trans c b a);
  total = λ a b h. ground arith;
}
