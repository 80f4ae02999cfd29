-- ===== src/EvaluateVar/Agreement.antt =====
-- The forecasts of scripts/evaluate_var.py against the VaR of the risk manager's node.
use paper_trading_agent.Base.{
  ℕ, suc, ◌+◌, ◌-◌, ◌≤◌, ◌<◌, ◌≡◌, refl, ap, sym, ◌∙◌, subst, inl, inr, Bool, true, false,
  Bool-cases, if◌then◌else◌, Option, none, some, List, [], ◌∷◌, ◌++◌, map, select, ltb, length,
  drop, last_n, length-append, All, ok, arith,
}
use mathlib.Core.List.{append_assoc}
use paper_trading_agent.RiskMath.{confidence, var_window, simple_returns}
use paper_trading_agent.RiskMath.Tail.{historical_var_rank}
use paper_trading_agent.RiskManager.Figures.{closes_of, ny_days, NodeFigures, node_figures}
use paper_trading_agent.DataSources.{PriceBar, is_over, bars_closed_before}
use paper_trading_agent.RiskMath.Returns.{Priced, simple_returns_total}
use paper_trading_agent.RiskManager.Figures.Bars.{Priced-append, length-closes}
use paper_trading_agent.EvaluateVar.{
  noon, DayForecast, is_within, forecast_with, with_forecast, forecast_at, forecasts_from,
  forecasts_of,
}
use paper_trading_agent.EvaluateVar.Window.{historical_var_short, closes_before, node_var_last}
use paper_trading_agent.EvaluateVar.Round.{
  drop-none, RisingDays, rising_split, has_forecast, forecast_at-out, forecast_at-first,
  forecast_at-in, forecast_made, expected, expected-cons,
}

abbrev pub days_in : List DayForecast → List ℕ
days_in = map (λ (row : DayForecast). row.day)

module _ (ny_day session_close : ℕ → ℕ)
    (closed : (d day : ℕ) → d < day → session_close d ≤ noon day)
    (running : (d day : ℕ) → day ≤ d → noon day < session_close d) where
  -- What the node knows at noon of a day, from at least so many bars.
  abbrev pub Agrees : List PriceBar → DayForecast → Type 0
  Agrees bars row =
      (n : ℕ)
      → var_window < n
      → (f : NodeFigures) × (node_figures ny_day
            (last_n n (bars_closed_before ny_day session_close bars (noon row.day)))
          ≡ some f)
        × (f.var_95 ≡ some row.historical)

  -- The bars of earlier days are those whose sessions are over.
  closed_at_noon :
      (before rest : List PriceBar) (day : ℕ)
      → All (λ (b : PriceBar). ny_day b.timestamp < day) before
      → All (λ (b : PriceBar). day ≤ ny_day b.timestamp) rest
      → bars_closed_before ny_day session_close (before ++ rest) (noon day) ≡ before
  unfolding bars_closed_before
  closed_at_noon [] [] day h k = refl
  closed_at_noon [] (b ∷ rest) day h (k, ks) =
      let still : is_over ny_day session_close (noon day) b ≡ false =
        ground (arith, running (ny_day b.timestamp) day k) in
      rw still (closed_at_noon [] rest day tt ks)
  closed_at_noon (b ∷ before) rest day (h, hs) k =
      let over : is_over ny_day session_close (noon day) b ≡ true =
        ground (arith, closed (ny_day b.timestamp) day h) in
      rw over (ap (λ bs. b ∷ bs) (closed_at_noon before rest day hs k))

  -- One round of the loop: a forecast that agrees with the node, or none.
  abbrev Step : List PriceBar → ℕ → Bool → Option DayForecast → Type 0
  Step bars day true o = (row : DayForecast) × (o ≡ some row) × (row.day ≡ day) × Agrees bars row
  Step bars day false o = o ≡ none

  closed_split :
      (bars before rest : List PriceBar) (b : PriceBar)
      → bars ≡ before ++ b ∷ rest
      → RisingDays ny_day bars
      → bars_closed_before ny_day session_close bars (noon (ny_day b.timestamp)) ≡ before
  closed_split bars before rest b split rising =
      let (earlier, later) =
        rising_split ny_day before b rest (subst (RisingDays ny_day) split rising) in
      ap (λ bs. bars_closed_before ny_day session_close bs (noon (ny_day b.timestamp))) split
      ∙ closed_at_noon before (b ∷ rest) (ny_day b.timestamp) earlier later

  module _ (start end : ℕ) where
    -- The same of a round for a day of the window.
    forecast_at-within :
        (bars before rest : List PriceBar) (b : PriceBar)
        → bars ≡ before ++ b ∷ rest
        → Priced (closes_of bars)
        → RisingDays ny_day bars
        → is_within start end (ny_day b.timestamp) ≡ true
        → let day = ny_day b.timestamp in
          (o : Option DayForecast) × (forecast_at (closes_of bars) start end (length before) day
            ≡ ok o)
          × Step bars day (ltb var_window (length before)) o
    forecast_at-within bars [] rest b split priced rising within =
        (none, forecast_at-first start end (closes_of bars) (ny_day b.timestamp), refl)
    forecast_at-within bars (c ∷ before) rest b split priced rising within =
        let day = ny_day b.timestamp in
        let (old_priced, _) =
          Priced-append (c ∷ before) (b ∷ rest)
            (subst (λ bs. Priced (closes_of bs)) split priced) in
        let (rs, e, counted) = simple_returns_total c.close (closes_of before) old_priced in
        let closes = closes_before bars (c ∷ before) (b ∷ rest) split in
        let round =
          forecast_at-in start end (closes_of bars) (length before) day within
            (ap simple_returns closes ∙ e) in
        let Found : Bool → Type 0 = λ x.
          (o : Option DayForecast) × (forecast_at (closes_of bars) start end (suc (length before))
              day
            ≡ ok o)
          × Step bars day x o in
        elim (Bool-cases (ltb var_window (suc (length before)))) [
          | inr short ↦ subst Found (sym short) (
            none,
            round
                ∙ ap (forecast_with (closes_of bars) start end (suc (length before)) day)
                    (historical_var_short rs (ground (arith, counted, length-closes before))),
            refl,
          )
          | inl long ↦
              (let (var, known, _, _) =
                  historical_var_rank rs confidence var_window (omega arith)
                    (ground (arith, counted, length-closes before)) in
                let (row, made, of_day, hist) =
                  forecast_made ny_day start end bars (c ∷ before) rest b var (length before) refl
                    split priced in
                subst Found (sym long) (
                  some row,
                  round
                      ∙ ap (forecast_with (closes_of bars) start end (suc (length before)) day)
                          known
                      ∙ made,
                  (
                    row,
                    refl,
                    of_day,
                    λ n h.
                        let (f, figures, same) =
                          node_var_last ny_day (c ∷ before) n var old_priced e known (ground arith)
                            h in
                        (
                          f,
                          ap (λ bs. node_figures ny_day (last_n n bs))
                                (ap (λ d. bars_closed_before ny_day session_close bars (noon d))
                                    of_day
                                  ∙ closed_split bars (c ∷ before) rest b split rising)
                              ∙ figures,
                          same ∙ ap some (sym hist),
                        ),
                  ),
                ))
        ]

    forecast_at-Step :
        (bars before rest : List PriceBar) (b : PriceBar)
        → bars ≡ before ++ b ∷ rest
        → Priced (closes_of bars)
        → RisingDays ny_day bars
        → let day = ny_day b.timestamp in
          (o : Option DayForecast) × (forecast_at (closes_of bars) start end (length before) day
            ≡ ok o)
          × Step bars day (has_forecast start end (length before) day) o
    forecast_at-Step bars before rest b split priced rising =
        elim (Bool-cases (is_within start end (ny_day b.timestamp))) [
          | inr out ↦ (
            none,
            forecast_at-out start end (closes_of bars) (length before) (ny_day b.timestamp) out,
            rw out refl,
          )
          | inl within ↦
              rw within (forecast_at-within bars before rest b split priced rising within)
        ]

    push :
        (bars : List PriceBar) (day : ℕ) (hit : Bool) (o : Option DayForecast)
        (rows : List DayForecast)
        → Step bars day hit o
        → All (Agrees bars) rows
        → All (Agrees bars) (with_forecast (closes_of bars) start end o rows)
          × (days_in (with_forecast (closes_of bars) start end o rows)
              ≡ (if hit then day ∷ days_in rows else days_in rows))
    push bars day true o rows (row, e, of_day, agrees) all =
        rw e ((agrees, all), ap (λ d. d ∷ days_in rows) of_day)
    push bars day false o rows e all = rw e (all, refl)

    forecasts_from_lem :
        (bars before rest : List PriceBar)
        → bars ≡ before ++ rest
        → Priced (closes_of bars)
        → RisingDays ny_day bars
        → (rows : List DayForecast) × (forecasts_from
              (closes_of bars)
              start
              end
              (length before)
              (ny_days ny_day rest)
            ≡ ok rows)
          × All (Agrees bars) rows
          × (days_in rows ≡ expected start end (length before) (ny_days ny_day rest))
    unfolding forecasts_from
    forecasts_from_lem bars before [] split priced rising = (
      [],
      refl,
      tt,
      ap (select (is_within start end)) (sym (drop-none (suc var_window - length before))),
    )
    forecasts_from_lem bars before (b ∷ rest) split priced rising =
        let day = ny_day b.timestamp in
        let i = length before in
        let (o, round, step) = forecast_at-Step bars before rest b split priced rising in
        let next : length (before ++ b ∷ []) ≡ i + 1 = length-append before (b ∷ []) in
        let (rows, e, all, days) =
          forecasts_from_lem bars (before ++ b ∷ []) rest
            (split ∙ sym (append_assoc before (b ∷ []) rest)) priced rising in
        let (all', days') = push bars day (has_forecast start end i day) o rows step all in
        (
          with_forecast (closes_of bars) start end o rows,
          rw round (
              rw
                (ap (λ n. forecasts_from (closes_of bars) start end n (ny_days ny_day rest))
                    (sym next)
                  ∙ e)
                refl),
          all',
          days'
              ∙ ap (λ ds. if has_forecast start end i day then day ∷ ds else ds)
                  (days ∙ ap (λ n. expected start end n (ny_days ny_day rest)) next)
              ∙ expected-cons start end i day (ny_days ny_day rest),
        )

    -- Where the bars stand in the order of different days and no close is zero, the forecasts are those of
    -- the days of the window behind the first 251 bars, and each is the VaR that the risk manager's node
    -- has at 12:00 UTC of that day, from any number above 250 of the last bars whose sessions are over.
    pub forecasts_of_lem :
        (bars : List PriceBar)
        → Priced (closes_of bars)
        → RisingDays ny_day bars
        → (rows : List DayForecast) × (forecasts_of ny_day bars start end ≡ ok rows)
          × All (Agrees bars) rows
          × (days_in rows
              ≡ select (is_within start end) (drop (suc var_window) (ny_days ny_day bars)))
    unfolding forecasts_of
    forecasts_of_lem bars priced rising = forecasts_from_lem bars [] bars refl priced rising
