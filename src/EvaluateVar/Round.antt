-- ===== src/EvaluateVar/Round.antt =====
-- One round of the loop of forecasts in scripts/evaluate_var.py.
use paper_trading_agent.Base.{
  ℕ, zero, suc, ◌+◌, ◌-◌, ◌≤◌, ◌<◌, ◌≡◌, refl, ap, sym, ◌∙◌, inl, inr, Bool, true, false, ◌&&◌,
  Bool-cases, if◌then◌else◌, none, some, List, [], ◌∷◌, ◌++◌, select, ltb, length, take, drop,
  get_elem?, get_elem?_total, All-get_elem?, length-append, All, ok, arith,
}
use paper_trading_agent.Numbers.Ratio.{Ratio}
use paper_trading_agent.RiskMath.{confidence, var_window, simple_returns, historical_var}
use paper_trading_agent.RiskManager.Figures.{closes_of}
use paper_trading_agent.DataSources.{PriceBar}
use paper_trading_agent.RiskMath.Returns.{Priced}
use paper_trading_agent.RiskManager.Figures.Bars.{length-closes}
use paper_trading_agent.EvaluateVar.{naive_var, DayForecast, is_within, forecast_with, forecast_at}
use paper_trading_agent.EvaluateVar.Window.{simple_return_total, first_behind}

pub drop-none {ℓ} : {A : Type ℓ} (n : ℕ) → drop {A = A} n [] ≡ []
drop-none zero = refl
drop-none (suc n) = refl

module _ (start end : ℕ) where
  abbrev pub has_forecast : ℕ → ℕ → Bool
  has_forecast i day = is_within start end day && ltb var_window i

  pub forecast_at-out :
      (closes : List ℕ) (i day : ℕ)
      → is_within start end day ≡ false
      → forecast_at closes start end i day ≡ ok none
  unfolding forecast_at
  forecast_at-out closes i day h = rw h refl

  pub forecast_at-first : (closes : List ℕ) (day : ℕ) → forecast_at closes start end 0 day ≡ ok none
  unfolding forecast_at
  forecast_at-first closes day = elim (Bool-cases (is_within start end day)) [
    | inl e ↦ rw e refl
    | inr e ↦ rw e refl
  ]

  pub forecast_at-in :
      (closes : List ℕ) (i day : ℕ) {rs : List Ratio}
      → is_within start end day ≡ true
      → simple_returns (take (suc i) closes) ≡ some rs
      → forecast_at closes start end (suc i) day
        ≡ forecast_with closes start end (suc i) day (historical_var rs confidence var_window)
  unfolding forecast_at
  forecast_at-in closes i day h e = rw h (rw e (ground arith))

  pub forecast_with-some :
      (closes : List ℕ) (i day c d : ℕ) (var : Ratio)
      → get_elem? closes i ≡ some c
      → get_elem? closes (suc i) ≡ some d
      → 0 < c
      → (row : DayForecast) × (forecast_with closes start end (suc i) day (some var)
          ≡ ok (some row))
        × (row.day ≡ day)
        × (row.historical ≡ var)
  forecast_with-some closes i day c d var at_c at_d h =
      let (r, e) = simple_return_total c d h in
      let previous : get_elem? closes (suc i - 1) ≡ some c =
        ap (get_elem? closes) (omega arith) ∙ at_c in
      (
        record { day = day; historical = var; naive = naive_var; realized = r },
        rw previous (rw at_d (rw e refl)),
        refl,
        refl,
      )

  -- The days of the window behind the first 251 bars, of which some may be passed already.
  abbrev pub expected : ℕ → List ℕ → List ℕ
  expected i days = select (is_within start end) (drop (suc var_window - i) days)

  no_hit : (i day : ℕ) → ltb var_window i ≡ false → has_forecast i day ≡ false
  no_hit i day h = elim (Bool-cases (is_within start end day)) [
    | inl e ↦ ground arith
    | inr e ↦ ground arith
  ]

  pub expected-cons :
      (i day : ℕ) (days : List ℕ)
      → (if has_forecast i day then day ∷ expected (i + 1) days else expected (i + 1) days)
        ≡ expected i (day ∷ days)
  expected-cons i day days = elim (Bool-cases (ltb var_window i)) [
    | inl long ↦
        (let now : suc var_window - i ≡ 0 = ground arith in
          let soon : suc var_window - (i + 1) ≡ 0 = ground arith in
          rw (ap (λ n. select (is_within start end) (drop n (day ∷ days))) now) (
            rw (ap (λ n. select (is_within start end) (drop n days)) soon)
              (elim (Bool-cases (is_within start end day)) [
                | inl e ↦ rw e (rw long refl)
                | inr e ↦ rw e refl
              ])))
    | inr short ↦
        (let now : suc var_window - i ≡ suc (suc var_window - (i + 1)) = ground arith in
          ap (λ hit. if hit then day ∷ expected (i + 1) days else expected (i + 1) days)
            (no_hit i day short)
          ∙ sym (ap (λ n. select (is_within start end) (drop n (day ∷ days))) now))
  ]

module _ (ny_day : ℕ → ℕ) where
  abbrev pub RisingDays : List PriceBar → Type 0
  RisingDays [] = Unit
  RisingDays (b ∷ bars) =
      All (λ (c : PriceBar). ny_day b.timestamp < ny_day c.timestamp) bars × RisingDays bars

  not_before :
      (b : PriceBar) (rest : List PriceBar)
      → All (λ (c : PriceBar). ny_day b.timestamp < ny_day c.timestamp) rest
      → All (λ (c : PriceBar). ny_day b.timestamp ≤ ny_day c.timestamp) rest
  not_before b [] h = tt
  not_before b (c ∷ rest) (h, hs) = (omega arith, not_before b rest hs)

  pub rising_split :
      (before : List PriceBar) (b : PriceBar) (rest : List PriceBar)
      → RisingDays (before ++ b ∷ rest)
      → All (λ (c : PriceBar). ny_day c.timestamp < ny_day b.timestamp) before
        × All (λ (c : PriceBar). ny_day b.timestamp ≤ ny_day c.timestamp) (b ∷ rest)
  rising_split [] b rest (h, hs) = (tt, (omega arith, not_before b rest h))
  rising_split (c ∷ before) b rest (h, hs) =
      let (earlier, later) = rising_split before b rest hs in
      (
        (
          first_behind (λ (d : PriceBar). ny_day c.timestamp < ny_day d.timestamp) before b rest h,
          earlier,
        ),
        later,
      )

module _ (ny_day : ℕ → ℕ) (start end : ℕ) where
  pub forecast_made :
      (bars before rest : List PriceBar) (b : PriceBar) (var : Ratio) (i : ℕ)
      → length before ≡ suc i
      → bars ≡ before ++ b ∷ rest
      → Priced (closes_of bars)
      → (row : DayForecast) × (forecast_with
            (closes_of bars)
            start
            end
            (suc i)
            (ny_day b.timestamp)
            (some var)
          ≡ ok (some row))
        × (row.day ≡ ny_day b.timestamp)
        × (row.historical ≡ var)
  forecast_made bars before rest b var i counted split priced =
      let many = length-closes bars ∙ ap length split ∙ length-append before (b ∷ rest) in
      let (c, at_c) = get_elem?_total (closes_of bars) i (omega (arith, many, counted)) in
      let (d, at_d) = get_elem?_total (closes_of bars) (suc i) (omega (arith, many, counted)) in
      forecast_with-some start end (closes_of bars) i (ny_day b.timestamp) c d var at_c at_d
        (All-get_elem? (λ p. 0 < p) (closes_of bars) i priced at_c)
