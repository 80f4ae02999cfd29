-- ===== src/SentimentAnalyst/Tests.antt =====
-- Scores as text.
use paper_trading_agent.Base.{◌+◌, ◌*◌, ◌≤◌, ◌≡◌, refl, some, negsuc, pos_part, neg_part, codes}
use paper_trading_agent.Numbers.Ratio.{Ratio, den, round_half_even}
use paper_trading_agent.SentimentAnalyst.{hundredths, format_score}
use paper_trading_agent.SentimentAnalyst.Format.{read_score, signed, format_score_lem}

-- -0.305, between two hundredths.
abbrev tie : Ratio
tie = record { num = negsuc 304; den_pred = 999 }

tie_text : format_score tie ≡ codes "-0.30"
unfolding format_score round_half_even
tie_text = refl

-- A negative score that rounds to zero keeps its sign.
negative_zero : format_score (record { num = negsuc 3; den_pred = 999 }) ≡ codes "-0.00"
unfolding format_score round_half_even
negative_zero = refl

format_score_lem_example :
    let h = hundredths tie in
    let exact = 200 * (pos_part tie.num + neg_part tie.num) in
    (read_score (format_score tie) ≡ some (signed tie.num h))
    × (h ≤ 100)
    × (2 * (den tie * h) ≤ exact + den tie)
    × (exact ≤ 2 * (den tie * h) + den tie)
format_score_lem_example = format_score_lem tie refl
